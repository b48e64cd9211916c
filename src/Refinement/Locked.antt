-- ===== src/Refinement/Locked.antt =====
-- Each operation, once it holds the bus, acts on the flat memory that the caches stand for.
use mesi_cache_coherence.Common.{
  ℕ, ◌<◌, ◌≡◌, ◌∙◌, update, u32, arith, if◌then◌else◌, ◌==◌, ◌+◌, Bool-cases, inl, inr,
}
use mesi_cache_coherence.Trace.{OpType, read_op}
use mesi_cache_coherence.Bus.{RandomEngine}
use mesi_cache_coherence.System.{
  MesiSystem, log, locked_read, locked_write, locked_acquire, locked_put, locked_cas, locked_add,
}
use mesi_cache_coherence.Coherence.Defs.{Coherent}
use mesi_cache_coherence.Coherence.Processor.{
  processor_read-Coherent, processor_read-value, processor_read-n_cores, acquire-Coherent,
  acquire-value, acquire-n_cores, put_acquired-Coherent, processor_write-Coherent,
  processor_write-n_cores,
}

pub bus-log :
    (core : ℕ) (op : OpType) (addr value : ℕ) (s : MesiSystem)
    → (log core op addr value s).bus ≡ s.bus
unfolding log
bus-log core op addr value s = ground arith

-- The caches stand for `m`, over `n` cores.
pub record Represents (n : ℕ) (m : ℕ → ℕ) (s : MesiSystem) : Type 0 where
  pub coherent : Coherent m s.bus
  pub n_cores : s.bus.n_cores ≡ n

log-Represents :
    {n : ℕ} {m : ℕ → ℕ} {s : MesiSystem} (core : ℕ) (op : OpType) (addr value : ℕ)
    → Represents n m s
    → Represents n m (log core op addr value s)
log-Represents {n} {m} {s} core op addr value r = record {
  coherent = rw (bus-log core op addr value s) r.coherent;
  n_cores = rw (bus-log core op addr value s) r.n_cores;
}

module _ ⦃std : RandomEngine⦄ {n : ℕ} {m : ℕ → ℕ} {s : MesiSystem} (r : Represents n m s)
    (core addr : ℕ) (lt : core < n) where
  there : core < s.bus.n_cores
  there = rw r.n_cores lt

  pub read-Represents : let (s', v) = locked_read core addr s in Represents n m s' × (v ≡ m addr)
  unfolding locked_read
  read-Represents = (
    log-Represents core _ addr _ (record {
      coherent = processor_read-Coherent addr core r.coherent there;
      n_cores = processor_read-n_cores addr core r.coherent there ∙ r.n_cores;
    }),
    processor_read-value addr core r.coherent there,
  )

  pub write-Represents :
      (value : ℕ) → Represents n (update m addr value) (locked_write core addr value s)
  unfolding locked_write
  write-Represents value = log-Represents core _ addr value (record {
    coherent = processor_write-Coherent addr core r.coherent there value;
    n_cores = processor_write-n_cores addr core r.coherent there value ∙ r.n_cores;
  })

  pub acquire-Represents :
      let (s', v) = locked_acquire core addr s in Represents n m s' × (v ≡ m addr)
  unfolding locked_acquire
  acquire-Represents = (
    log-Represents core _ addr _ (record {
      coherent = acquire-Coherent addr core r.coherent there;
      n_cores = acquire-n_cores addr core r.coherent there ∙ r.n_cores;
    }),
    acquire-value addr core r.coherent there,
  )

  pub put-Represents :
      (value : ℕ)
      → Represents n
          (update m addr value)
          (locked_put core addr value (locked_acquire core addr s).0)
  unfolding locked_put locked_acquire
  put-Represents value = log-Represents core _ addr value (record {
    coherent =
        rw (bus-log core read_op addr _ _) (put_acquired-Coherent addr core r.coherent there value);
    n_cores = acquire-Represents.0.n_cores;
  })

  pub cas-Represents :
      (expected new_val : ℕ)
      → let (s', answer) = locked_cas core addr expected new_val s in
        Represents n (if m addr == expected then update m addr new_val else m) s'
        × (answer ≡ record { old_val = m addr; success = m addr == expected })
  unfolding locked_cas
  cas-Represents expected new_val = elim (Bool-cases (m addr == expected)) [
    | inl hit ↦
        (simp (acquire-Represents.1, hit) (put-Represents new_val), simp acquire-Represents.1)
    | inr miss ↦ (simp (acquire-Represents.1, miss) acquire-Represents.0, simp acquire-Represents.1)
  ]

  pub add-Represents :
      (delta : ℕ)
      → let (s', old) = locked_add core addr delta s in
        Represents n (update m addr (u32 (m addr + delta))) s' × (old ≡ m addr)
  unfolding locked_add
  add-Represents delta =
      (simp acquire-Represents.1 (put-Represents (u32 (m addr + delta))), acquire-Represents.1)
