-- ===== src/ScChecker/Sorting.antt =====
-- Sorting by the program index.
use mathlib.Core.List.{Perm, Pairwise, forall_mem-cons, not-mem-nil, mem-cons, mem-cons_self}
use mathlib.Core.List.Perm
use mathlib.Core.Logic.Or
use native.Mathlib.Decide.{ℕ_discrete}
use native.Mathlib.Bridge.{le_prop}
use mesi_cache_coherence.Common.{
  ℕ, ◌≤◌, ◌≡◌, ◌≢◌, sym, ap₂, [], ◌∷◌, leb, Bool-cases, inl, inr, arith,
}
use mesi_cache_coherence.Trace.{OpType, TraceEvent, Trace}
use mesi_cache_coherence.ScChecker.{insert_by, sort_by}

OpType-discrete : Discrete OpType
OpType-discrete = hlevel

pub TraceEvent-discrete : Discrete TraceEvent
TraceEvent-discrete = hlevel (ℕ_discrete, OpType-discrete)

pub TraceEvent-set : IsSet TraceEvent
TraceEvent-set = hlevel (TraceEvent-discrete)

abbrev pub by_index : TraceEvent → ℕ
by_index e = e.program_idx

-- Sorted by the program index.
abbrev pub IsSorted : Trace → Type 0
IsSorted = Pairwise (λ a b. a.program_idx ≤ b.program_idx)

insert_by-Perm :
    (key : TraceEvent → ℕ) (e : TraceEvent) (t : Trace) → Perm (insert_by key e t) (e ∷ t)
unfolding insert_by
insert_by-Perm key e [] = Perm.refl _
insert_by-Perm key e (x ∷ t) = elim (Bool-cases (leb (key e) (key x))) [
  | inl first ↦ simp first (Perm.refl _)
  | inr later ↦ simp later (Perm.trans (Perm.cons x (insert_by-Perm key e t)) (Perm.swap e x t))
]

pub sort_by-Perm : (key : TraceEvent → ℕ) (t : Trace) → Perm (sort_by key t) t
unfolding sort_by
sort_by-Perm key [] = Perm.refl _
sort_by-Perm key (x ∷ t) = Perm.trans (insert_by-Perm key x _) (Perm.cons x (sort_by-Perm key t))

insert_by-IsSorted : (e : TraceEvent) (t : Trace) → IsSorted t → IsSorted (insert_by by_index e t)
unfolding insert_by
insert_by-IsSorted e [] s = Pairwise.cons (λ x m. absurd (not-mem-nil m)) Pairwise.nil
insert_by-IsSorted e (x ∷ t) (Pairwise.cons below s) =
    elim (Bool-cases (leb e.program_idx x.program_idx)) [
      | inl first ↦ simp first (
          Pairwise.cons
            ((forall_mem-cons (λ y. le_prop)).1
              (ground (arith, first), λ y m. ground (arith, first, below y m)))
            (Pairwise.cons below s))
      | inr later ↦ simp later (
          Pairwise.cons
            (λ y m.
              (forall_mem-cons (λ y. le_prop)).1 (ground (arith, later), below) y
                ((Perm.mem_iff (insert_by-Perm by_index e t)).0 m))
            (insert_by-IsSorted e t s))
    ]

pub sort_by-IsSorted : (t : Trace) → IsSorted (sort_by by_index t)
unfolding sort_by
sort_by-IsSorted [] = Pairwise.nil
sort_by-IsSorted (x ∷ t) = insert_by-IsSorted x _ (sort_by-IsSorted t)

-- Two sorted lists of the same events are one list, where no two have the same index.
pub IsSorted-unique :
    {l r : Trace}
    → IsSorted l
    → IsSorted r
    → Pairwise (λ a b. a.program_idx ≢ b.program_idx) l
    → Perm l r
    → l ≡ r
IsSorted-unique {l = []} sl sr apart p = Perm.nil-eq p
IsSorted-unique {l = a ∷ l} {r = []} sl sr apart p = Perm.eq-nil p
IsSorted-unique {l = a ∷ l} {r = b ∷ r} (Pairwise.cons below sl) (Pairwise.cons above sr)
      (Pairwise.cons differ apart) p =
    let b_first : b.program_idx ≤ a.program_idx =
      (forall_mem-cons (λ y. le_prop)).1 (omega arith, above) a
        ((Perm.mem_iff p).0 mem-cons_self) in
    let heads : a ≡ b =
      Or.elim (TraceEvent-set a b) (mem-cons.0 ((Perm.mem_iff p).1 mem-cons_self)) (λ e. sym e)
        (λ m. absurd (differ b m (omega (arith, below b m, b_first)))) in
    let tails = Perm.cons_inv (Perm.trans p (Perm.symm (Perm.cons' heads Perm.rfl))) in
    ap₂ ◌∷◌ heads (IsSorted-unique sl sr apart tails)
