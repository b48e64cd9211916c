-- ===== src/Refinement/Guarantees.antt =====
-- What the users of the facade may rely on, after any sequence of calls from a fresh system.
use mesi_cache_coherence.Common.{ℕ, ◌≡◌, ◌≢◌, sym, ◌∙◌, true, arith, inl, inr, List, pos, ok}
use mesi_cache_coherence.Types.{I, M, line_of}
use mesi_cache_coherence.Memory
use mesi_cache_coherence.Cache.{peek}
use mesi_cache_coherence.Bus.{RandomEngine, SnoopingBus, register_addr}
use mesi_cache_coherence.Bus
use mesi_cache_coherence.System.{MesiSystem, enable_race_injection}
use mesi_cache_coherence.System
use mesi_cache_coherence.Coherence.Defs.{Coherent, state_at, owns}
use mesi_cache_coherence.Coherence.Lines.{frame-Coherent}
use mesi_cache_coherence.Refinement.Flat.{Request, flat_run}
use mesi_cache_coherence.Refinement.Serve.{run}
use mesi_cache_coherence.Refinement.Locked.{Represents}
use mesi_cache_coherence.Refinement.Runs.{run-Represents, init-Represents}

pub race-Represents :
    ⦃std : RandomEngine⦄ {n : ℕ} {m : ℕ → ℕ} {s : MesiSystem} (seed : ℕ)
    → Represents n m s
    → Represents n m (enable_race_injection seed s)
unfolding enable_race_injection Bus.enable_race_injection
race-Represents seed r = record {
  coherent = frame-Coherent r.coherent _ _ _ _ _;
  n_cores = r.n_cores;
}

module _ ⦃std : RandomEngine⦄ (count : ℕ) (s : MesiSystem) (fresh : System.init (pos count) ≡ ok s)
    (qs : List Request) where
  -- In a fresh system of `count` cores, any sequence of calls, of any core ids, returns exactly the
  -- results and errors of the flat memory that starts as all zeros.
  pub run-refines : (run qs s).1 ≡ (flat_run count qs (λ _. 0)).1
  run-refines = (run-Represents qs (init-Represents fresh)).1

  -- Randomised snoop order, with any seed, changes no result of any sequence of calls from a fresh
  -- system.
  pub run_race : (seed : ℕ) → (run qs (enable_race_injection seed s)).1 ≡ (run qs s).1
  run_race seed =
      (run-Represents qs (race-Represents seed (init-Represents fresh))).1 ∙ sym run-refines

  coherent : Coherent (flat_run count qs (λ _. 0)).0 (run qs s).0.bus
  coherent = (run-Represents qs (init-Represents fresh)).0.coherent

  -- After any sequence of calls on a fresh system, while a core holds a line in M or E no other core
  -- holds it.
  pub single_writer :
      (i j line : ℕ)
      → i ≢ j
      → owns (state_at (run qs s).0.bus i line) ≡ true
      → state_at (run qs s).0.bus j line ≡ I
  single_writer = coherent.exclusive

  -- After any sequence of calls on a fresh system, two cores that hold the line of an address have
  -- the same word there.
  pub copies_agree :
      (i j a : ℕ)
      → state_at (run qs s).0.bus i (line_of a) ≢ I
      → state_at (run qs s).0.bus j (line_of a) ≢ I
      → peek ((run qs s).0.bus.controllers i) a ≡ peek ((run qs s).0.bus.controllers j) a
  copies_agree i j a hi hj = coherent.current i a hi ∙ sym (coherent.current j a hj)

  -- After any sequence of calls on a fresh system, the memory has the word of every core that holds
  -- the line in S or E.
  pub memory_agrees :
      (i a : ℕ)
      → state_at (run qs s).0.bus i (line_of a) ≢ I
      → state_at (run qs s).0.bus i (line_of a) ≢ M
      → Memory.read (run qs s).0.bus.mem a ≡ peek ((run qs s).0.bus.controllers i) a
  memory_agrees i a held clean = elim (coherent.backed a) [
    | inl same ↦ same ∙ sym (coherent.current i a held)
    | inr (k, dirty) ↦ absurd (ground (arith, coherent.exclusive k i (line_of a)))
  ]
