-- ===== src/Examples/Litmus.antt =====
-- The store-buffering test at one order of the steps, after a call that has used the flags.
use mesi_cache_coherence.Common.{ℕ, ◌≡◌, true, false, List, [], ◌∷◌, pos, arith, Returns}
use mesi_cache_coherence.Refinement.Flat.{Request, write}
use mesi_cache_coherence.Refinement.Serve.{run}
use mesi_cache_coherence.Demo.SbLitmus.{Side, left, right, loaded, litmus, clear_flags}
use mesi_cache_coherence.Demo.SbLitmus.Progress.{turns}
use mesi_cache_coherence.Demo.SbLitmus.Guarantees.{fenced_litmus, unfenced_litmus}
use mesi_cache_coherence.Examples.Setup.{rotating, system_of, init_two}

abbrev flags : Side → ℕ
flags left = 0x2000
flags right = 0x2040

abbrev earlier : List Request
earlier = write (pos 1) 0x2000 1 ∷ []

abbrev order : List Side
order = left ∷ right ∷ right ∷ left ∷ left ∷ right ∷ left ∷ right ∷ []

fenced_litmus_example :
    Returns
      (litmus true flags order (run (clear_flags flags) (run earlier (system_of 2)).0).0)
      (λ st. ¬ ((st.pcs left ≡ loaded 0) × (st.pcs right ≡ loaded 0)))
fenced_litmus_example =
    fenced_litmus 2 (system_of 2) init_two (omega arith) flags (λ e. omega (arith, e)) earlier order

unfenced_litmus_example :
    Returns
      (litmus false flags order (run (clear_flags flags) (run earlier (system_of 2)).0).0)
      (λ st. (st.pcs left ≡ loaded 0) × (st.pcs right ≡ loaded 0))
unfolding turns
unfenced_litmus_example =
    unfenced_litmus 2 (system_of 2) init_two (omega arith) flags (λ e. omega (arith, e)) earlier
      order (omega arith) (omega arith)
