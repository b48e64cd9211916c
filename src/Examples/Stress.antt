-- ===== src/Examples/Stress.antt =====
-- The stress test of two cores.
use mesi_cache_coherence.Common.{ℕ, ◌<◌, ◌≡◌, true, List, [], ◌∷◌, length, count, arith, Returns}
use mesi_cache_coherence.Demo.ScStress.{threads, sc_stress}
use mesi_cache_coherence.Demo.ScStress.Guarantees.{sc_stress_passes}
use mesi_cache_coherence.Examples.Setup.{rotating}

-- Core 1 is past its loop at its last turn.
abbrev turns : List ℕ
turns = 1 ∷ 0 ∷ 1 ∷ 0 ∷ 1 ∷ 0 ∷ []

sc_stress_passes_example :
    Returns
      (threads 2 2 6 true turns)
      (λ (s, workers). ((j : ℕ) → j < 2 → (workers j).i ≡ 2) × (length s.trace ≡ 4))
    × Returns (sc_stress 2 2 6 true turns) (λ r. r.ok ≡ true)
unfolding count
sc_stress_passes_example =
    sc_stress_passes 2 2 6 true turns (omega arith) (omega arith) (λ j lt. ground (arith, lt))
