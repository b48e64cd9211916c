-- ===== src/ScChecker/ProgramOrder.antt =====
-- The search of exists_sc_order, against the orders of the recorded events themselves.
use mathlib.Core.List.{
  Mem, Perm, Pairwise, count, perm_iff_count, count-cons_of_ne, filter, mem-filter, Pairwise-cons,
}
use mathlib.Core.List.Pairwise
use mathlib.Core.List.Perm
use mathlib.Core.Logic.{ite, if_pos, if_neg}
use mathlib.Core.Nat as Nat
use native.Mathlib.Decide.{ℕ_discrete}
use mesi_cache_coherence.Common.{
  ℕ, zero, suc, ◌+◌, ◌≤◌, ◌≡◌, ◌≢◌, ◌↔◌, refl, sym, ap, ◌∙◌, subst, true, [], ◌∷◌, ◌==◌, Bool-cases,
  inl, inr, arith, beq→eq,
}
use mesi_cache_coherence.Trace.{TraceEvent, Trace}
use mesi_cache_coherence.ScChecker.{sort_by}
use mesi_cache_coherence.ScChecker.Serial.{ReadsLatest}
use mesi_cache_coherence.ScChecker.Search.{
  events_of, core_bound, program_orders, orders_of, exists_sc_order,
}
use mesi_cache_coherence.ScChecker.Orders.{Interleaving, search_iff}
use mesi_cache_coherence.ScChecker.Buckets.{
  Bucketed, entries, Interleaving-events_of, events_of-Interleaving, events_of_own, events_of_other,
}
use mesi_cache_coherence.ScChecker.Sorting.{
  by_index, IsSorted, sort_by-Perm, sort_by-IsSorted, IsSorted-unique, TraceEvent-discrete,
}

-- No two events of one core have the same program index.
abbrev pub DifferentIndex : TraceEvent → TraceEvent → Type 0
DifferentIndex a b = a.core_id ≡ b.core_id → a.program_idx ≢ b.program_idx

abbrev pub HasOwnIndices : Trace → Type 0
HasOwnIndices = Pairwise DifferentIndex

-- The events of each core stand by their program index.
abbrev pub KeepsProgramOrder : Trace → Type 0
KeepsProgramOrder = Pairwise (λ a b. a.core_id ≡ b.core_id → a.program_idx ≤ b.program_idx)

abbrev on_core : (d : ℕ) (x : TraceEvent) → Dec (x.core_id ≡ d)
on_core d x = ℕ_discrete x.core_id d

events_of_nil : (d : ℕ) → events_of d [] ≡ []
unfolding events_of
events_of_nil d = refl

events_of-filter : (d : ℕ) (t : Trace) → events_of d t ≡ filter (on_core d) t
events_of-filter d [] = events_of_nil d
events_of-filter d (x ∷ t) = elim (on_core d x) [
  | yes e ↦ rw (events_of_own d x t e, if_pos (on_core d x) e) (ap (◌∷◌ x) (events_of-filter d t))
  | no ne ↦
      rw (events_of_other d x t (ground (arith, ne)), if_neg (on_core d x) ne)
        (events_of-filter d t)
]

mem-events_of :
    {x : TraceEvent} (d : ℕ) (t : Trace) → Mem x (events_of d t) ↔ (Mem x t × (x.core_id ≡ d))
mem-events_of {x} d t = rw (events_of-filter d t) (mem-filter (on_core d))

events_of-Perm : (d : ℕ) {t u : Trace} → Perm t u → Perm (events_of d t) (events_of d u)
events_of-Perm d {t} {u} p =
    rw (events_of-filter d t, events_of-filter d u) (Perm.filter (on_core d) p)

-- What holds of any two events of one core, in the order of a trace, holds in its entry.
events_of-Pairwise :
    (R : TraceEvent → TraceEvent → Type 0) (d : ℕ) (t : Trace)
    → Pairwise (λ a b. a.core_id ≡ b.core_id → R a b) t
    → Pairwise R (events_of d t)
events_of-Pairwise R d [] Pairwise.nil = rw (events_of_nil d) Pairwise.nil
events_of-Pairwise R d (x ∷ t) (Pairwise.cons h p) = elim (Bool-cases (x.core_id == d)) [
  | inl own ↦
      let e : x.core_id ≡ d = beq→eq _ _ own in
      rw (events_of_own d x t e) (
        Pairwise.cons (λ y m. let (m', e') = (mem-events_of d t).0 m in h y m' (e ∙ sym e'))
          (events_of-Pairwise R d t p))
  | inr other ↦ rw (events_of_other d x t other) (events_of-Pairwise R d t p)
]

count-events_of :
    (a : TraceEvent) (t : Trace)
    → count TraceEvent-discrete a (events_of a.core_id t) ≡ count TraceEvent-discrete a t
count-events_of a [] = rw (events_of_nil a.core_id) refl
count-events_of a (x ∷ t) = elim (Bool-cases (x.core_id == a.core_id)) [
  | inl own ↦
      rw (events_of_own a.core_id x t (beq→eq _ _ own))
        (ap (λ k. ite (TraceEvent-discrete x a) (Nat.suc k) k) (count-events_of a t))
  | inr other ↦
      let ne : x ≢ a = λ e. ground (arith, ap (λ y. y.core_id) e, other) in
      rw (events_of_other a.core_id x t other)
        (count-events_of a t ∙ sym (count-cons_of_ne TraceEvent-discrete ne t))
]

Perm_of_entries : (t u : Trace) → ((d : ℕ) → Perm (events_of d t) (events_of d u)) → Perm t u
Perm_of_entries t u h = (perm_iff_count TraceEvent-discrete).1 (λ a.
    sym (count-events_of a t)
    ∙ Perm.count-eq TraceEvent-discrete (h a.core_id) a
    ∙ count-events_of a u)

entries_in_order : (t : Trace) → ((d : ℕ) → IsSorted (events_of d t)) → KeepsProgramOrder t
entries_in_order [] h = Pairwise.nil
entries_in_order (x ∷ t) h =
    Pairwise.cons
      (λ y m same.
        let s : IsSorted (x ∷ events_of x.core_id t) =
          subst IsSorted (events_of_own x.core_id x t refl) (h x.core_id) in
        (Pairwise-cons.0 s).0 y ((mem-events_of x.core_id t).1 (m, sym same)))
      (entries_in_order t (λ d. elim (Bool-cases (x.core_id == d)) [
        | inl own ↦
            let s : IsSorted (x ∷ events_of d t) =
              subst IsSorted (events_of_own d x t (beq→eq _ _ own)) (h d) in
            Pairwise.of_cons s
        | inr other ↦ subst IsSorted (events_of_other d x t other) (h d)
      ]))

events_of-bound : (d : ℕ) (trace : Trace) → core_bound trace ≤ d → events_of d trace ≡ []
unfolding core_bound
events_of-bound d [] h = events_of_nil d
events_of-bound d (x ∷ t) h =
    events_of_other d x t (ground (arith, h)) ∙ events_of-bound d t (ground (arith, h))

-- The events of a core as `exists_sc_order` sorts them.
abbrev entry : Trace → ℕ → Trace
entry trace d = sort_by by_index (events_of d trace)

entry-Bucketed : (trace : Trace) → Bucketed (core_bound trace) (entry trace)
entry-Bucketed trace = record {
  own = λ d x m. ((mem-events_of d trace).0 ((Perm.mem_iff (sort_by-Perm by_index _)).0 m)).1;
  bound = λ d le.
      Perm.eq-nil
        (subst (Perm (entry trace d)) (events_of-bound d trace le) (sort_by-Perm by_index _));
}

program_orders-entries :
    (k c : ℕ) (trace : Trace) → program_orders k c trace ≡ entries k c (entry trace)
unfolding program_orders entries
program_orders-entries zero c trace = refl
program_orders-entries (suc k) c trace =
    ap (◌∷◌ (entry trace c)) (program_orders-entries k (c + 1) trace)

DifferentIndex-symm : (a b : TraceEvent) → DifferentIndex a b → DifferentIndex b a
DifferentIndex-symm a b h same e = h (sym same) (sym e)

module _ (trace : Trace) (distinct : HasOwnIndices trace) where
  Perm-Interleaving :
      (t : Trace) → Perm t trace → KeepsProgramOrder t → Interleaving (orders_of trace) t
  Perm-Interleaving t p keeps = rw (program_orders-entries (core_bound trace) 0 trace) (
      events_of-Interleaving (core_bound trace) (entry trace) t (entry-Bucketed trace) (λ d.
        IsSorted-unique (events_of-Pairwise (λ a b. a.program_idx ≤ b.program_idx) d t keeps)
          (sort_by-IsSorted (events_of d trace))
          (events_of-Pairwise (λ a b. a.program_idx ≢ b.program_idx) d t
            (Perm.pairwise (λ a b. hlevel) DifferentIndex-symm (Perm.symm p) distinct))
          (Perm.trans (events_of-Perm d p) (Perm.symm (sort_by-Perm by_index _)))))

-- In an interleaving of the sorted entries, every core's events stand by their index.
Interleaving-Perm :
    (trace t : Trace) → Interleaving (orders_of trace) t → Perm t trace × KeepsProgramOrder t
Interleaving-Perm trace t order =
    let shown : (d : ℕ) → events_of d t ≡ entry trace d =
      Interleaving-events_of (core_bound trace) (entry trace) (entry-Bucketed trace)
        (program_orders-entries (core_bound trace) 0 trace) order in
    (
      Perm_of_entries t trace (λ d. rw (shown d) (sort_by-Perm by_index _)),
      entries_in_order t (λ d. rw (shown d) (sort_by-IsSorted _)),
    )

-- For a trace in which no two events of one core have the same program index, `exists_sc_order`
-- returns true exactly when the events of the trace, each as often as it is recorded, can be put in
-- an order that has the events of each core by their program index and in which every read returns
-- the value of the last write before it, or 0.
pub exists_sc_order_iff :
    (trace : Trace)
    → HasOwnIndices trace
    → (exists_sc_order trace ≡ true)
      ↔ ((t : Trace) × Perm t trace × KeepsProgramOrder t × ReadsLatest t)
exists_sc_order_iff trace distinct = (
  λ found.
      let (t, order, latest) = (search_iff trace).0 found in
      let (p, keeps) = Interleaving-Perm trace t order in (t, p, keeps, latest),
  λ (t, p, keeps, latest).
      (search_iff trace).1 (t, Perm-Interleaving trace distinct t p keeps, latest),
)
