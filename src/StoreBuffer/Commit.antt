-- ===== src/StoreBuffer/Commit.antt =====
-- The facade's reads and writes for a core that exists never throw; so a drained entry arrives.
use mesi_cache_coherence.Common.{ℕ, ◌<◌, ◌≡◌, pos, arith, update, Returns}
use mesi_cache_coherence.Bus.{RandomEngine}
use mesi_cache_coherence.System.{MesiSystem, validate_core, locked_read, locked_write}
use mesi_cache_coherence.System
use mesi_cache_coherence.Refinement.Locked.{Represents, read-Represents, write-Represents}
use mesi_cache_coherence.Coherence.Lines.{frame-Coherent}
use mesi_cache_coherence.Refinement.Runs.{admitted}
use mesi_cache_coherence.StoreBuffer.{count_drain}

module _ ⦃std : RandomEngine⦄ {n : ℕ} {m : ℕ → ℕ} {s : MesiSystem} (r : Represents n m s) (core : ℕ)
    (there : core < n) where
  pub write-Returns :
      (addr value : ℕ)
      → Returns (System.write (pos core) addr value s) (Represents n (update m addr value))
  unfolding System.write
  write-Returns addr value =
      simp (admitted r core (ground arith)) (write-Represents r core addr there value)

  pub read-Returns :
      (addr : ℕ)
      → Returns (System.read (pos core) addr s) (λ p. Represents n m p.0 × (p.1 ≡ m addr))
  unfolding System.read
  read-Returns addr = simp (admitted r core (ground arith)) (read-Represents r core addr there)

pub count_drain-Represents :
    {n : ℕ} {m : ℕ → ℕ} {s : MesiSystem} (core : ℕ)
    → Represents n m s
    → Represents n m (count_drain core s)
unfolding count_drain
count_drain-Represents core r = record {
  coherent = frame-Coherent r.coherent _ _ _ _ _;
  n_cores = r.n_cores;
}
