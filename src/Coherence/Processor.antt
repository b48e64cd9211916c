-- ===== src/Coherence/Processor.antt =====
-- The operations of a processor against the flat memory.
use mesi_cache_coherence.Common.{
  ℕ, ◌<◌, ◌≡◌, ◌≢◌, inl, inr, refl, true, arith, contains, update, Bool-cases,
}
use mesi_cache_coherence.Types.{I, M, line_of, is_I}
use mesi_cache_coherence.Bus
use mesi_cache_coherence.Cache.{put_word}
use mesi_cache_coherence.Bus.{
  RandomEngine, SnoopingBus, words_in_line, register_addr, on_controller, account, snoop_order,
}
use mesi_cache_coherence.Controller.{processor_read, acquire_exclusive, processor_write}
use mesi_cache_coherence.Coherence.Effects.{words-register_addr}
use mesi_cache_coherence.Coherence.Defs.{state_at, Coherent}
use mesi_cache_coherence.Coherence.Lines.{register-Coherent, count_hit-Coherent, put-Coherent}
use mesi_cache_coherence.Coherence.Requests.{
  read_miss-Coherent, read_miss-n_cores, read_miss-held, own_line-Coherent, own_line-dirty,
  own_line-registry, own_line-n_cores,
}

module _ ⦃std : RandomEngine⦄ (addr id : ℕ) {m : ℕ → ℕ} {b : SnoopingBus} (c : Coherent m b)
    (exists : id < b.n_cores) where
  abbrev r : SnoopingBus
  r = register_addr addr b

  cr : Coherent m r
  cr = register-Coherent c addr

  there : id < r.n_cores
  unfolding register_addr
  there = exists

  pub processor_read-Coherent : Coherent m (processor_read id addr b).0
  unfolding processor_read
  processor_read-Coherent = elim (Bool-cases (is_I (state_at r id (line_of addr)))) [
    | inl miss ↦ simp miss (read_miss-Coherent addr id cr there (ground arith))
    | inr hit ↦ simp hit (count_hit-Coherent cr id)
  ]

  processor_read-held : state_at (processor_read id addr b).0 id (line_of addr) ≢ I
  unfolding processor_read
  processor_read-held = elim (Bool-cases (is_I (state_at r id (line_of addr)))) [
    | inl miss ↦ simp miss (read_miss-held addr id cr there)
    | inr hit ↦ simp hit (ground arith)
  ]

  -- A read returns the value of the flat memory.
  pub processor_read-value : (processor_read id addr b).1 ≡ m addr
  unfolding processor_read
  processor_read-value = (processor_read-Coherent).current id addr processor_read-held

  pub processor_read-n_cores : (processor_read id addr b).0.n_cores ≡ b.n_cores
  unfolding processor_read register_addr
  processor_read-n_cores = elim (Bool-cases (is_I (state_at r id (line_of addr)))) [
    | inl miss ↦ simp miss (read_miss-n_cores addr id cr there)
    | inr hit ↦ simp hit refl
  ]

  pub acquire-Coherent : Coherent m (acquire_exclusive id addr b).0
  unfolding acquire_exclusive
  acquire-Coherent = own_line-Coherent addr id cr there _ refl

  pub acquire-dirty : state_at (acquire_exclusive id addr b).0 id (line_of addr) ≡ M
  unfolding acquire_exclusive
  acquire-dirty = own_line-dirty addr id cr there _ refl

  pub acquire-n_cores : (acquire_exclusive id addr b).0.n_cores ≡ b.n_cores
  unfolding acquire_exclusive register_addr
  acquire-n_cores = own_line-n_cores addr id cr there _

  pub acquire-registered :
      contains addr (words_in_line (acquire_exclusive id addr b).0 (line_of addr)) ≡ true
  unfolding acquire_exclusive
  acquire-registered = ground (
    arith,
    own_line-registry addr id cr there (state_at r id (line_of addr)),
    words-register_addr addr addr (line_of addr) b,
  )

  pub acquire-value : (acquire_exclusive id addr b).1 ≡ m addr
  unfolding acquire_exclusive
  acquire-value = acquire-Coherent.current id addr (ground (arith, acquire-dirty))

  -- A word put after the acquisition, as `processor_write` and the atomic operations do.
  pub put_acquired-Coherent :
      (value : ℕ)
      → Coherent
          (update m addr value)
          (on_controller id (put_word addr value) (acquire_exclusive id addr b).0)
  put_acquired-Coherent value =
      put-Coherent acquire-Coherent id addr value acquire-dirty acquire-registered

  pub processor_write-Coherent :
      (value : ℕ) → Coherent (update m addr value) (processor_write id addr value b)
  unfolding processor_write
  processor_write-Coherent value = put_acquired-Coherent value

  pub processor_write-n_cores : (value : ℕ) → (processor_write id addr value b).n_cores ≡ b.n_cores
  unfolding processor_write
  processor_write-n_cores value = acquire-n_cores

pub init-Coherent : ⦃std : RandomEngine⦄ (n : ℕ) → Coherent (λ _. 0) (Bus.init n)
unfolding Bus.init contains
init-Coherent n = record {
  absent = λ i l h. refl;
  exclusive = λ i j l n h. refl;
  current = λ i a h. refl;
  backed = λ a. inl refl;
  unloaded = λ i a h e. refl;
  dropped = λ i a h. refl;
  registered = λ i a h. cc;
  stored = λ a h. cc;
  within = λ a l h. cc;
}
