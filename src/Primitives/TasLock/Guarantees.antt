-- ===== src/Primitives/TasLock/Guarantees.antt =====
-- What the test-and-set lock promises to the threads that share it.
use mesi_cache_coherence.Common.{
  ℕ, ◌<◌, ◌≡◌, ◌≢◌, sym, refl, ap, ◌∙◌, true, ltb, List, [], ◌∷◌, arith, pos, ok, eq→beq,
}
use mesi_cache_coherence.Bus.{RandomEngine}
use mesi_cache_coherence.System.{MesiSystem}
use mesi_cache_coherence.System
use mesi_cache_coherence.Refinement.Flat.{apply, flat_step}
use mesi_cache_coherence.Refinement.Locked.{Represents}
use mesi_cache_coherence.Refinement.Runs.{init-Represents}
use mesi_cache_coherence.Threads.{
  Event, turn, all_spare, plays, plays-Agrees, flat_play, flat_plays,
}
use mesi_cache_coherence.Primitives.TasLock.{
  LockPc, trying, spinning, holding, TasLock, request, resume, tas_lock,
}
use mesi_cache_coherence.Primitives.TasLock.Flag.{FlagInv, free, held, plays-Kept}

-- The calls that take a thread of `lock` into a free lock: the cas, after a read that ends the
-- inner loop if the thread is in there.
unfoldable pub attempts : ℕ → LockPc → List Event
attempts core trying = turn core ∷ []
attempts core spinning = turn core ∷ turn core ∷ []
attempts core holding = []

flat_attempts :
    (l : TasLock) (n core : ℕ) (m : ℕ → ℕ) (pcs : ℕ → LockPc) (p : LockPc)
    → m l.flag_addr ≡ 0
    → ltb core n ≡ true
    → pcs core ≡ p
    → (flat_plays (tas_lock l) n (attempts core p) m pcs).1 core ≡ holding
unfolding flat_plays flat_play flat_step apply attempts request resume
flat_attempts l n core m pcs trying e lt at = simp (lt, at, e, eq→beq core core refl) refl
flat_attempts l n core m pcs spinning e lt at = simp (lt, at, e, eq→beq core core refl) refl
flat_attempts l n core m pcs holding e lt at = at

module _ ⦃std : RandomEngine⦄ (l : TasLock) (count : ℕ) (s : MesiSystem)
    (fresh : System.init (pos count) ≡ ok s) (es : List Event)
    (spared : all_spare l.flag_addr es ≡ true) where
  abbrev reached : MesiSystem × (ℕ → LockPc)
  reached = plays (tas_lock l) es s (λ _. trying)

  abbrev flat : (ℕ → ℕ) × (ℕ → LockPc)
  flat = flat_plays (tas_lock l) count es (λ _. 0) (λ _. trying)

  reached-Represents : Represents count flat.0 reached.0 × (reached.1 ≡ flat.1)
  reached-Represents = plays-Agrees (tas_lock l) es (λ _. trying) (init-Represents fresh)

  reached-FlagInv : FlagInv l.flag_addr flat.0 reached.1
  reached-FlagInv =
      rw reached-Represents.1 (plays-Kept l count es spared (free refl (λ i. ground arith)))

  -- Whatever the schedule on a fresh system, with any other calls that do not write the flag, while
  -- a thread is past `lock` and not yet through `unlock`, no other thread is.
  pub mutual_exclusion : (i j : ℕ) → i ≢ j → reached.1 i ≡ holding → reached.1 j ≢ holding
  mutual_exclusion i j differ hi hj = elim reached-FlagInv [
    | free e none_holds ↦ absurd (none_holds i hi)
    | held k e at only ↦ differ (only i hi ∙ sym (only j hj))
  ]

  -- After such a schedule, when no thread holds the lock, every thread of an existing core gets it
  -- in its next call, or in its next two if it is in the inner loop, when these come next.
  pub free_lock :
      ((j : ℕ) → reached.1 j ≢ holding)
      → (i : ℕ) → i < count
      → (plays (tas_lock l) (attempts i (reached.1 i)) reached.0 reached.1).1 i ≡ holding
  free_lock no_holder i lt =
      let (r, p) = reached-Represents in
      let (_, q) = plays-Agrees (tas_lock l) (attempts i (reached.1 i)) reached.1 r in
      ap (λ w. w i) q
      ∙ flat_attempts l count i flat.0 reached.1 (reached.1 i)
          (elim reached-FlagInv [ free e _ ↦ e | held k e at only ↦ absurd (no_holder k at) ])
          (ground arith) refl
