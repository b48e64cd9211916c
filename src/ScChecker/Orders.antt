-- ===== src/ScChecker/Orders.antt =====
-- The search finds an order exactly when there is one.
use mathlib.Core.List.{append_assoc}
use mesi_cache_coherence.Common.{
  ℕ, zero, suc, ◌<◌, ◌≡◌, ◌↔◌, ◌⊎◌, inl, inr, refl, sym, ap, ◌∙◌, subst, Bool, true, false, not,
  ◌&&◌, List, [], ◌∷◌, ◌++◌, none, Map, arith, ◌==◌, length, Bool-cases, beq→eq,
}
use mesi_cache_coherence.Trace.{TraceEvent, Trace}
use mesi_cache_coherence.ScChecker.{after_event, violates, check_events}
use mesi_cache_coherence.ScChecker.Serial.{ReadsLatest, check_events_iff}
use mesi_cache_coherence.ScChecker.Search.{
  try_cores, dfs, core_bound, program_orders, orders_of, total_events, exists_sc_order,
}

abbrev pub AllDone : List Trace → Type 0
AllDone [] = Unit {0}
AllDone ([] ∷ rest) = AllDone rest
AllDone ((e ∷ es) ∷ rest) = ⊥

-- An order of all events that keeps the order of each core.
pub data Interleaving : List Trace → Trace → Type 0 where
  finished : {cores : List Trace} → AllDone cores → Interleaving cores []
  place :
      (before : List Trace) (e : TraceEvent) (es : Trace) (after : List Trace) {cores : List Trace}
      {t : Trace}
      → cores ≡ before ++ (e ∷ es) ∷ after
      → Interleaving (before ++ es ∷ after) t
      → Interleaving cores (e ∷ t)

-- A core whose next event may be placed, after which the search succeeds.
record Placed (next : List Trace → Map ℕ → Bool) (cores : List Trace) (mem : Map ℕ) : Type 0 where
  before : List Trace
  e : TraceEvent
  es : Trace
  after : List Trace
  split : cores ≡ before ++ (e ∷ es) ∷ after
  fits : violates e mem ≡ false
  found : next (before ++ es ∷ after) (after_event e mem) ≡ true

try_cores-Placed :
    (next : List Trace → Map ℕ → Bool) (before after : List Trace) (mem : Map ℕ) (all_done : Bool)
    → try_cores next before after mem all_done ≡ true
    → ((all_done ≡ true) × AllDone after) ⊎ Placed next (before ++ after) mem
unfolding try_cores
try_cores-Placed next before [] mem all_done h = inl (h, tt)
try_cores-Placed next before ([] ∷ after) mem all_done h =
    subst (λ cores. ((all_done ≡ true) × AllDone after) ⊎ Placed next cores mem)
      (append_assoc before ([] ∷ []) after)
      (try_cores-Placed next (before ++ [] ∷ []) after mem all_done h)
try_cores-Placed next before ((e ∷ es) ∷ after) mem all_done h =
    elim (Bool-cases (not (violates e mem) && next (before ++ es ∷ after) (after_event e mem))) [
      | inl placed ↦ inr (record {
        before = before;
        e = e;
        es = es;
        after = after;
        split = refl;
        fits = ground arith;
        found = ground arith;
      })
      | inr skipped ↦
          elim (try_cores-Placed next (before ++ (e ∷ es) ∷ []) after mem false (ground arith)) [
            | inl (undone, _) ↦ cc
            | inr later ↦ inr (
                subst (λ cores. Placed next cores mem) (append_assoc before ((e ∷ es) ∷ []) after)
                  later)
          ]
    ]

dfs-Interleaving :
    (fuel : ℕ) (cores : List Trace) (mem : Map ℕ)
    → dfs fuel cores mem ≡ true
    → (t : Trace) × Interleaving cores t × (check_events t mem ≡ none)
unfolding dfs check_events
dfs-Interleaving zero cores mem h = cc
dfs-Interleaving (suc fuel) cores mem h = elim (try_cores-Placed (dfs fuel) [] cores mem true h) [
  | inl (_, done) ↦ ([], finished done, refl)
  | inr p ↦
      let (t, order, clean) =
        dfs-Interleaving fuel (p.before ++ p.es ∷ p.after) (after_event p.e mem) p.found in
      (p.e ∷ t, place p.before p.e p.es p.after p.split order, rw p.fits clean)
]

-- Conversely, a core whose next event may be placed is tried, wherever it stands.
try_cores-placed :
    (next : List Trace → Map ℕ → Bool) (before pre : List Trace) (e : TraceEvent) (es : Trace)
    (post : List Trace) (mem : Map ℕ) (all_done : Bool)
    → violates e mem ≡ false
    → next (before ++ (pre ++ es ∷ post)) (after_event e mem) ≡ true
    → try_cores next before (pre ++ (e ∷ es) ∷ post) mem all_done ≡ true
unfolding try_cores
try_cores-placed next before [] e es post mem all_done v h = ground (arith, v, h)
try_cores-placed next before ([] ∷ pre) e es post mem all_done v h =
    try_cores-placed next (before ++ [] ∷ []) pre e es post mem all_done v (rw append_assoc h)
try_cores-placed next before ((x ∷ xs) ∷ pre) e es post mem all_done v h =
    let ih =
      try_cores-placed next (before ++ (x ∷ xs) ∷ []) pre e es post mem false v
        (rw append_assoc h) in
    ground (arith, ih)

try_cores-AllDone :
    (next : List Trace → Map ℕ → Bool) (before after : List Trace) (mem : Map ℕ)
    → AllDone after
    → try_cores next before after mem true ≡ true
unfolding try_cores
try_cores-AllDone next before [] mem h = refl
try_cores-AllDone next before ([] ∷ after) mem h =
    try_cores-AllDone next (before ++ [] ∷ []) after mem h
try_cores-AllDone next before ((e ∷ es) ∷ after) mem h = absurd h

-- Enough fuel: one round for each event, and one more.
Interleaving-dfs :
    (fuel : ℕ) (mem : Map ℕ) {cores : List Trace} {t : Trace}
    → Interleaving cores t
    → check_events t mem ≡ none
    → length t < fuel
    → dfs fuel cores mem ≡ true
unfolding dfs check_events
Interleaving-dfs zero mem order clean h = absurd (omega arith)
Interleaving-dfs (suc fuel) mem (finished done) clean h = try_cores-AllDone (dfs fuel) [] _ mem done
Interleaving-dfs (suc fuel) mem (place before e es after split order) clean h = rw split (
    try_cores-placed (dfs fuel) [] before e es after mem true (ground arith)
      (Interleaving-dfs fuel (after_event e mem) order (ground arith) (omega arith)))

total_events-AllDone : (cores : List Trace) → AllDone cores → total_events cores ≡ 0
unfolding total_events
total_events-AllDone [] h = refl
total_events-AllDone ([] ∷ rest) h = omega (arith, total_events-AllDone rest h)
total_events-AllDone ((e ∷ es) ∷ rest) h = absurd h

total_events-place :
    (before : List Trace) (e : TraceEvent) (es : Trace) (after : List Trace)
    → total_events (before ++ (e ∷ es) ∷ after) ≡ suc (total_events (before ++ es ∷ after))
unfolding total_events
total_events-place [] e es after = omega arith
total_events-place (x ∷ before) e es after = omega (arith, total_events-place before e es after)

-- An order has all the events.
pub length-Interleaving :
    {cores : List Trace} {t : Trace} → Interleaving cores t → length t ≡ total_events cores
length-Interleaving (finished done) = sym (total_events-AllDone _ done)
length-Interleaving (place before e es after split order) =
    ap suc (length-Interleaving order)
    ∙ sym (total_events-place before e es after)
    ∙ ap total_events (sym split)

no_cores : (trace : Trace) → Interleaving (program_orders 0 0 trace) []
unfolding program_orders
no_cores trace = finished tt

nothing : check_events [] (λ _. none) ≡ none
unfolding check_events
nothing = refl

-- The search succeeds exactly when some interleaving of the lists of the cores lets every read return
-- the value of the last write before it, or 0.
pub search_iff :
    (trace : Trace)
    → (exists_sc_order trace ≡ true)
      ↔ ((t : Trace) × Interleaving (orders_of trace) t × ReadsLatest t)
unfolding exists_sc_order
search_iff trace = elim (Bool-cases (core_bound trace == 0)) [
  | inl empty ↦ simp empty (
    λ _. ([], rw (beq→eq _ _ empty) (no_cores trace), (check_events_iff []).0 nothing),
    λ _. refl,
  )
  | inr some_core ↦ simp some_core (
    λ h.
        let (t, order, clean) = dfs-Interleaving _ _ _ h in
        (t, order, (check_events_iff t).0 clean),
    λ (t, order, latest).
        Interleaving-dfs _ _ order ((check_events_iff t).1 latest)
          (omega (arith, length-Interleaving order)),
  )
]
