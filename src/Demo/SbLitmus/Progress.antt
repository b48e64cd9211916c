-- ===== src/Demo/SbLitmus/Progress.antt =====
-- How far the threads come that do not fence.
use mesi_cache_coherence.Common.{
  ℕ, suc, ◌+◌, ◌≤◌, ◌<◌, ◌≡◌, ◌≢◌, refl, ap, false, List, [], ◌∷◌, arith, ok, Returns, Returns-bind,
  Returns-map, Returns-and, ok_of_bind, subst, ok-injective,
}
use mesi_cache_coherence.Bus.{RandomEngine}
use mesi_cache_coherence.System.{MesiSystem}
use mesi_cache_coherence.StoreBuffer.{StoreBuffer, store, load}
use mesi_cache_coherence.Demo.SbLitmus.{
  Side, left, right, other, LitmusPc, storing, fencing, loading, loaded, Litmus, advance, trial,
  go_on,
}
use mesi_cache_coherence.Demo.SbLitmus.Stages.{Reaches}
use mesi_cache_coherence.Demo.SbLitmus.Turns.{unfenced_turn, fencing_absurd}

-- The turns that a schedule gives a thread, and how far a thread without a fence has come.
unfoldable pub turns : Side → List Side → ℕ
turns c [] = 0
turns left (left ∷ cs) = suc (turns left cs)
turns right (right ∷ cs) = suc (turns right cs)
turns c (d ∷ cs) = turns c cs

unfoldable pub position : LitmusPc → ℕ
position storing = 0
position fencing = 0
position loading = 1
position (loaded v) = 2

-- Without a fence a turn takes its thread one place on, and leaves the other where it is.
abbrev Advanced : Side → Litmus → Litmus → Type 0
Advanced c st st' =
    (position (st.pcs c) < 2 → position (st.pcs c) < position (st'.pcs c))
    × (position (st.pcs c) ≤ position (st'.pcs c))
    × (st'.pcs (other c) ≡ st.pcs (other c))

goes_on :
    (c : Side) (p : LitmusPc) (sb : StoreBuffer) (s : MesiSystem) (st : Litmus)
    → position (st.pcs c) < position p
    → Advanced c st (go_on c p sb s st)
unfolding position
goes_on left p sb s st far = (λ _. far, omega (arith, far), refl)
goes_on right p sb s st far = (λ _. far, omega (arith, far), refl)

unfenced-Advanced :
    ⦃std : RandomEngine⦄ (flag : Side → ℕ) (c : Side) (p : LitmusPc) (st st' : Litmus)
    → st.pcs c ≡ p
    → p ≢ fencing
    → advance false flag c p st ≡ ok st'
    → Advanced c st st'
unfolding advance position
unfenced-Advanced flag c storing st st' at fenceless e =
    let (q, same) = ok_of_bind (store (flag c) 1 (st.sb c) st.sys) _ e in
    subst (Advanced c st) same (goes_on c loading q.0 q.1 st (rw at (omega arith)))
unfenced-Advanced flag c fencing st st' at fenceless e = absurd (fenceless refl)
unfenced-Advanced flag c loading st st' at fenceless e =
    let (q, same) = ok_of_bind (load (flag (other c)) (st.sb c) st.sys) _ e in
    subst (Advanced c st) same (goes_on c (loaded q.2) q.0 q.1 st (rw at (omega arith)))
unfenced-Advanced flag c (loaded v) st st' at fenceless e =
    subst (Advanced c st) (ok-injective e)
      (λ small. absurd (omega (arith, ap position at, small)), omega arith, refl)

progress :
    (c d : Side) (cs : List Side) (st st' : Litmus)
    → Advanced d st st'
    → 2 ≤ position (st.pcs c) + turns c (d ∷ cs)
    → 2 ≤ position (st'.pcs c) + turns c cs
unfolding turns
progress left left cs st st' (far, on, same) h = ground (arith, far)
progress left right cs st st' (far, on, same) h = omega (arith, h, ap position same)
progress right left cs st st' (far, on, same) h = omega (arith, h, ap position same)
progress right right cs st st' (far, on, same) h = ground (arith, far)

-- The threads that have had turns enough have loaded.
abbrev pub Ended : (Side → ℕ) → ℕ → List Side → Litmus → Litmus → Type 0
Ended flag n cs st st' =
    Reaches false flag n st'
    × ((c : Side) → 2 ≤ position (st.pcs c) + turns c cs → 2 ≤ position (st'.pcs c))

module _ ⦃std : RandomEngine⦄ {flag : Side → ℕ} (distinct : flag left ≢ flag right) {n : ℕ} where
  pub unfenced_trial :
      (cs : List Side) (st : Litmus)
      → Reaches false flag n st
      → Returns (trial false flag cs st) (Ended flag n cs st)
  unfolding trial turns
  unfenced_trial [] st h = (h, λ c far. omega (arith, far))
  unfenced_trial (d ∷ cs) st (m, inv) =
      Returns-bind (λ st'. Reaches false flag n st' × Advanced d st st') (Ended flag n (d ∷ cs) st)
        (advance false flag d (st.pcs d) st) _
        (Returns-and _ _ (advance false flag d (st.pcs d) st)
          (unfenced_turn distinct d inv (st.pcs d) refl)
          (λ st' e.
            unfenced-Advanced flag d (st.pcs d) st st' refl (fencing_absurd distinct d inv) e))
        (λ st' (h, moved).
          Returns-map (trial false flag cs st')
            (λ st'' (k, ends). (k, λ c far. ends c (progress c d cs st st' moved far)))
            (unfenced_trial cs st' h))

pub loaded_at : (p : LitmusPc) → 2 ≤ position p → (v : ℕ) × (p ≡ loaded v)
unfolding position
loaded_at storing far = absurd (omega (arith, far))
loaded_at fencing far = absurd (omega (arith, far))
loaded_at loading far = absurd (omega (arith, far))
loaded_at (loaded v) far = (v, refl)
