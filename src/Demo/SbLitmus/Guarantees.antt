-- ===== src/Demo/SbLitmus/Guarantees.antt =====
-- What the litmus test shows, in every order of the threads' steps.
use mesi_cache_coherence.Common.{
  ℕ, ◌≤◌, ◌≡◌, ◌≢◌, ◌∙◌, refl, ap, Bool, true, false, List, [], ◌∷◌, pos, arith, ok, Returns,
  Returns-bind, Returns-map,
}
use mesi_cache_coherence.Bus.{RandomEngine}
use mesi_cache_coherence.System.{MesiSystem}
use mesi_cache_coherence.System
use mesi_cache_coherence.StoreBuffer.{create, checked_depth}
use mesi_cache_coherence.Refinement.Flat.{Request, flat_run, flat_step, apply}
use mesi_cache_coherence.Refinement.Serve.{run}
use mesi_cache_coherence.Refinement.Locked.{Represents}
use mesi_cache_coherence.Refinement.Runs.{admitted, run-Represents, init-Represents}
use mesi_cache_coherence.Demo.SbLitmus.{
  Side, left, right, storing, loaded, Litmus, clear_flags, begin, advance, trial, litmus,
}
use mesi_cache_coherence.Demo.SbLitmus.Progress.{turns, loaded_at, unfenced_trial}
use mesi_cache_coherence.Demo.SbLitmus.Stages.{by_side, Stage, Reaches}
use mesi_cache_coherence.Demo.SbLitmus.Turns.{fenced_turn, loaded_zero}

module _ ⦃std : RandomEngine⦄ {flag : Side → ℕ} (distinct : flag left ≢ flag right) {n : ℕ} where
  fenced_trial :
      (cs : List Side) (st : Litmus)
      → Reaches true flag n st
      → Returns (trial true flag cs st) (Reaches true flag n)
  unfolding trial
  fenced_trial [] st h = h
  fenced_trial (c ∷ cs) st (m, inv) =
      Returns-bind _ (Reaches true flag n) (advance true flag c (st.pcs c) st) _
        (fenced_turn distinct c inv (st.pcs c) refl) (fenced_trial cs)

start-Stage :
    (fenced : Bool) (flag : Side → ℕ) (m : ℕ → ℕ)
    → m (flag left) ≡ 0
    → m (flag right) ≡ 0
    → (c : Side) → Stage fenced (flag c) (m (flag c)) [] storing
unfolding Stage
start-Stage true flag m l r c = refl
start-Stage false flag m l r left = (refl, l)
start-Stage false flag m l r right = (refl, r)

start-Reaches :
    ⦃std : RandomEngine⦄ (fenced : Bool) (flag : Side → ℕ) {n : ℕ} {m : ℕ → ℕ} {s : MesiSystem}
    → 2 ≤ n
    → m (flag left) ≡ 0
    → m (flag right) ≡ 0
    → Represents n m s
    → Returns (begin s) (λ st. Reaches fenced flag n st × ((c : Side) → st.pcs c ≡ storing))
unfolding begin create checked_depth
start-Reaches fenced flag {m = m} two l0 r0 r =
    simp (admitted r 0 (ground arith), admitted r 1 (ground arith))
      (
        (
          m,
          record {
            memory = r;
            there = by_side _ (omega (arith, two)) (omega (arith, two));
            room = by_side _ (omega arith) (omega arith);
            stage =
                by_side _ (start-Stage fenced flag m l0 r0 left)
                  (start-Stage fenced flag m l0 r0 right);
            not_both = λ c v w f e. cc;
          },
        ),
        λ c. refl,
      )

module _ ⦃std : RandomEngine⦄ (count : ℕ) (s : MesiSystem) (fresh : System.init (pos count) ≡ ok s)
    (two : 2 ≤ count) (flag : Side → ℕ) (distinct : flag left ≢ flag right)
    (qs : List Request) where
  -- The system before a trial, after any calls.
  abbrev pub cleared : MesiSystem
  cleared = (run (clear_flags flag) (run qs s).0).0

  begun :
      (fenced : Bool)
      → Returns
          (begin cleared)
          (λ st. Reaches fenced flag count st × ((c : Side) → st.pcs c ≡ storing))
  unfolding flat_run flat_step apply
  begun fenced =
      start-Reaches fenced flag two (ground arith) (ground arith)
        (run-Represents (clear_flags flag) (run-Represents qs (init-Represents fresh)).0).0

  -- In the litmus test on a system of at least two cores, with two different flags, after any
  -- earlier calls and in any order of the threads' steps, no call throws, and with fences the
  -- threads do not both load 0.
  pub fenced_litmus :
      (cs : List Side)
      → Returns
          (litmus true flag cs cleared)
          (λ st. ¬ ((st.pcs left ≡ loaded 0) × (st.pcs right ≡ loaded 0)))
  unfolding litmus
  fenced_litmus cs =
      Returns-bind _ (λ st. ¬ ((st.pcs left ≡ loaded 0) × (st.pcs right ≡ loaded 0)))
        (begin cleared) _ (begun true)
        (λ st (h, at).
          Returns-map (trial true flag cs st)
            (λ st' (m, inv) (l, r). inv.not_both left 0 0 refl l r refl refl)
            (fenced_trial distinct cs st h))

  -- Under the same conditions, in the litmus test without fences, in any order that gives each
  -- thread its two steps, no call throws, and both threads load 0.
  pub unfenced_litmus :
      (cs : List Side)
      → 2 ≤ turns left cs
      → 2 ≤ turns right cs
      → Returns
          (litmus false flag cs cleared)
          (λ st. (st.pcs left ≡ loaded 0) × (st.pcs right ≡ loaded 0))
  unfolding litmus
  unfenced_litmus cs l r =
      Returns-bind _ (λ st. (st.pcs left ≡ loaded 0) × (st.pcs right ≡ loaded 0)) (begin cleared) _
        (begun false)
        (λ st (h, at).
          Returns-map (trial false flag cs st)
            (λ st' ((m, inv), ends).
              let (v, e) = loaded_at (st'.pcs left) (ends left (omega (arith, l))) in
              let (w, e') = loaded_at (st'.pcs right) (ends right (omega (arith, r))) in
              (
                e ∙ ap loaded (loaded_zero distinct left inv v e),
                e' ∙ ap loaded (loaded_zero distinct right inv w e'),
              ))
            (unfenced_trial distinct cs st h))
