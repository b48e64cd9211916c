-- ===== src/ScChecker/Search.antt =====
-- model/sc_checker.cpp, exists_sc_order: the search for some order of the events. The place `idx[c]`
-- in the events of a core is modelled by the events from there on; what the source undoes on
-- backtracking is never overwritten here.
use mesi_cache_coherence.Common.{
  ℕ, zero, suc, ◌+◌, Bool, true, false, not, ◌&&◌, List, [], ◌∷◌, ◌++◌, none, Map, if◌then◌else◌,
  ◌==◌, ltb, length,
}
use mesi_cache_coherence.Trace.{Trace}
use mesi_cache_coherence.ScChecker.{sort_by, after_event, violates}

-- The loop of `dfs` over the cores, with those before the current one, and `all_done` so far. An
-- event is placed if it is no read of another value than the current one.
unfoldable pub try_cores :
    (List Trace → Map ℕ → Bool) → List Trace → List Trace → Map ℕ → Bool → Bool
try_cores dfs before [] mem all_done = all_done
try_cores dfs before ([] ∷ after) mem all_done =
    try_cores dfs (before ++ [] ∷ []) after mem all_done
try_cores dfs before ((e ∷ es) ∷ after) mem all_done =
    let later = try_cores dfs (before ++ (e ∷ es) ∷ []) after mem false in
    if not (violates e mem) && dfs (before ++ es ∷ after) (after_event e mem) then true else later

-- The search, at most `fuel` events deep.
unfoldable pub dfs : ℕ → List Trace → Map ℕ → Bool
dfs zero cores mem = false
dfs (suc fuel) cores mem = try_cores (dfs fuel) [] cores mem true

-- The events of one core, in the order of the trace.
unfoldable pub events_of : ℕ → Trace → Trace
events_of core [] = []
events_of core (e ∷ rest) =
    let later = events_of core rest in if e.core_id == core then e ∷ later else later

-- `max_core + 1`, or 0 for no event.
unfoldable pub core_bound : Trace → ℕ
core_bound [] = 0
core_bound (e ∷ rest) =
    let bound = core_bound rest in if ltb e.core_id bound then bound else suc e.core_id

-- The events of `k` cores from `core` on, each in program order.
unfoldable pub program_orders : ℕ → ℕ → Trace → List Trace
unfolding events_of
program_orders zero core trace = []
program_orders (suc k) core trace =
    sort_by (λ e. e.program_idx) (events_of core trace) ∷ program_orders k (core + 1) trace

abbrev pub orders_of : Trace → List Trace
orders_of trace = program_orders (core_bound trace) 0 trace

unfoldable pub total_events : List Trace → ℕ
total_events [] = 0
total_events (es ∷ rest) = length es + total_events rest

unfoldable pub exists_sc_order : Trace → Bool
exists_sc_order trace =
    if core_bound trace == 0
    then true
    else dfs (suc (total_events (orders_of trace))) (orders_of trace) (λ _. none)
