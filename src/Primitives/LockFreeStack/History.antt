-- ===== src/Primitives/LockFreeStack/History.antt =====
-- What a stack promises: its operations, whichever threads call them, act one after the other on a
-- sequence of values.
use mesi_cache_coherence.Common.{
  ℕ, ◌≡◌, refl, List, [], ◌∷◌, ◌++◌, Option, none, some, if◌then◌else◌, ◌==◌, arith, Bool-cases,
  inl, inr, false, Option-cases, ap, eq→beq,
}
use mesi_cache_coherence.Primitives.LockFreeStack.{Outcome, pushed, popped, empty}

-- An operation of a thread, at the moment at which it takes effect.
pub record Entry : Type 0 where
  pub core : ℕ
  pub outcome : Outcome

-- One operation on the sequence, if it can end like this.
unfoldable pub act : Outcome → List ℕ → Option (List ℕ)
act (pushed value) st = some (value ∷ st)
act (popped out) [] = none
act (popped out) (x ∷ st) = if x == out then some st else none
act empty [] = some []
act empty (x ∷ st) = none

abbrev pub and_then : Option (List ℕ) → (List ℕ → Option (List ℕ)) → Option (List ℕ)
and_then none f = none
and_then (some st) f = f st

-- The sequence after a history, if every operation in it can end as it did.
unfoldable pub replay : List Entry → List ℕ → Option (List ℕ)
unfolding act
replay [] st = some st
replay (e ∷ es) st = and_then (act e.outcome st) (replay es)

-- What a history says of one thread.
unfoldable pub of_core : ℕ → List Entry → List Outcome
of_core c [] = []
of_core c (e ∷ es) = let rest = of_core c es in if e.core == c then e.outcome ∷ rest else rest

pub replay-append :
    (es : List Entry) (e : Entry) (st : List ℕ) {st' : List ℕ}
    → replay es st ≡ some st'
    → replay (es ++ e ∷ []) st ≡ act e.outcome st'
unfolding replay
replay-append [] e st {st'} h =
    let same : st ≡ st' = cc in
    rw same (elim (Option-cases (act e.outcome st')) [
      | inl stuck ↦ rw stuck refl
      | inr (next, moves) ↦ rw moves refl
    ])
replay-append (x ∷ es) e st h = elim (Option-cases (act x.outcome st)) [
  | inl stuck ↦ absurd (ground (arith, stuck))
  | inr (next, moves) ↦ rw moves (replay-append es e next (rw moves at h))
]

module _ (c : ℕ) (r : Outcome) where
  abbrev entry : Entry
  entry = record { core = c; outcome = r }

  pub of_core-append_self :
      (es : List Entry) → of_core c (es ++ entry ∷ []) ≡ of_core c es ++ r ∷ []
  unfolding of_core
  of_core-append_self [] = rw (eq→beq c c refl) refl
  of_core-append_self (x ∷ es) = elim (Bool-cases (x.core == c)) [
    | inl mine ↦ rw mine (ap (◌∷◌ x.outcome) (of_core-append_self es))
    | inr other ↦ rw other (of_core-append_self es)
  ]

  pub of_core-append_other :
      (d : ℕ) (es : List Entry) → (c == d) ≡ false → of_core d (es ++ entry ∷ []) ≡ of_core d es
  unfolding of_core
  of_core-append_other d [] h = rw h refl
  of_core-append_other d (x ∷ es) h = rw (of_core-append_other d es h) refl
