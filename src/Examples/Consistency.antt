-- ===== src/Examples/Consistency.antt =====
-- The recorded trace and its check, at concrete calls.
use mesi_cache_coherence.Common.{ℕ, ◌≡◌, refl, true, false, List, [], ◌∷◌, arith, pos}
use mesi_cache_coherence.Trace.{read_op, write_op, TraceEvent, Trace}
use mesi_cache_coherence.System.{enable_tracing, clear_trace, locked_read}
use mesi_cache_coherence.Refinement.Flat.{Request, read, write, fetch_and_add, flat_run}
use mesi_cache_coherence.Refinement.Serve.{run}
use mesi_cache_coherence.ScChecker.{
  sort_by, check_events, check_serial_order, report, violates, after_event,
}
use mesi_cache_coherence.ScChecker.Serial.{ReadsLatest, check_serial_order-ok_iff}
use mesi_cache_coherence.ScChecker.Runs.{run-check_serial_order, tracing-Represents}
use mesi_cache_coherence.Refinement.Runs.{run-Represents, init-Represents}
use mesi_cache_coherence.ScChecker.Search.{
  exists_sc_order, dfs, try_cores, total_events, core_bound, program_orders, events_of,
}
use mathlib.Core.List.{Mem, Perm, Pairwise, forall_mem-cons, not-mem-nil}
use mesi_cache_coherence.ScChecker.ProgramOrder.{
  DifferentIndex, HasOwnIndices, KeepsProgramOrder, exists_sc_order_iff,
}
use mesi_cache_coherence.ScChecker.Cleared.{clear_trace_alarm}
use mesi_cache_coherence.Examples.Setup.{rotating, system_of, after, init_three}

abbrev history : List Request
history = write (pos 0) 0x100 5 ∷ fetch_and_add (pos 1) 0x100 1 ∷ read (pos 2) 0x100 ∷ []

run-check_serial_order_example :
    (check_serial_order (run history (enable_tracing true (system_of 3))).0.trace).ok ≡ true
unfolding after
run-check_serial_order_example =
    run-check_serial_order 3 (system_of 3) init_three history (omega arith)

-- A write of 5 that is recorded second and stamped first, and a read of a value.
abbrev two_events : ℕ → Trace
two_events value =
    record { core_id = 1; op = read_op; addr = 8; value = value; timestamp = 1; program_idx = 0 }
    ∷ record { core_id = 0; op = write_op; addr = 8; value = 5; timestamp = 0; program_idx = 0 }
    ∷ []

check_serial_order-ok_iff_example : ReadsLatest (sort_by (λ e. e.timestamp) (two_events 5))
unfolding check_serial_order report check_events sort_by
check_serial_order-ok_iff_example = (check_serial_order-ok_iff (two_events 5)).0 refl

stale_read : (check_serial_order (two_events 4)).ok ≡ false
unfolding check_serial_order report check_events sort_by
stale_read = refl

-- Core 1 clears the trace after that history and reads what is there.
clear_trace_alarm_example :
    (check_serial_order
      (locked_read 1 0x100
        (clear_trace (run history (enable_tracing true (system_of 3))).0)).0.trace).ok
    ≡ false
unfolding after flat_run
clear_trace_alarm_example =
    clear_trace_alarm 1 0x100
      (run-Represents history (tracing-Represents (init-Represents init_three))).0 refl
      (omega arith) (omega arith)

-- Two cores that each write their flag and then read the other's.
abbrev store_buffering : ℕ → ℕ → Trace
store_buffering r0 r1 =
    record { core_id = 0; op = write_op; addr = 0; value = 1; timestamp = 0; program_idx = 0 }
    ∷ record { core_id = 1; op = write_op; addr = 64; value = 1; timestamp = 1; program_idx = 0 }
    ∷ record { core_id = 1; op = read_op; addr = 0; value = r1; timestamp = 2; program_idx = 1 }
    ∷ record { core_id = 0; op = read_op; addr = 64; value = r0; timestamp = 3; program_idx = 1 }
    ∷ []

abbrev AllDiffer : TraceEvent → Trace → Type 0
AllDiffer a [] = Unit {0}
AllDiffer a (x ∷ t) = DifferentIndex a x × AllDiffer a t

differs_from_all :
    (a : TraceEvent) (t : Trace) → AllDiffer a t → (b : TraceEvent) → Mem b t → DifferentIndex a b
differs_from_all a [] h b m = absurd (not-mem-nil m)
differs_from_all a (x ∷ t) h b m =
    (forall_mem-cons (λ y. hlevel)).1 (h.0, differs_from_all a t h.1) b m

abbrev AllDistinct : Trace → Type 0
AllDistinct [] = Unit {0}
AllDistinct (x ∷ t) = AllDiffer x t × AllDistinct t

own_indices : (t : Trace) → AllDistinct t → HasOwnIndices t
own_indices [] h = Pairwise.nil
own_indices (x ∷ t) h = Pairwise.cons (differs_from_all x t h.0) (own_indices t h.1)

store_buffering-indices : (r0 r1 : ℕ) → HasOwnIndices (store_buffering r0 r1)
store_buffering-indices r0 r1 = own_indices (store_buffering r0 r1) (
  (λ c e. omega (arith, c), (λ c e. omega (arith, c), (λ c e. omega (arith, e), tt))),
  (
    (λ c e. omega (arith, e), (λ c e. omega (arith, c), tt)),
    ((λ c e. omega (arith, c), tt), (tt, tt)),
  ),
)

-- That one misses the other's write has an order.
store_buffering_order : exists_sc_order (store_buffering 0 1) ≡ true
unfolding exists_sc_order dfs try_cores violates after_event total_events core_bound program_orders
    events_of sort_by
store_buffering_order = refl

exists_sc_order_iff_example :
    (t : Trace) × Perm t (store_buffering 0 1) × KeepsProgramOrder t × ReadsLatest t
exists_sc_order_iff_example =
    (exists_sc_order_iff (store_buffering 0 1) (store_buffering-indices 0 1)).0
      store_buffering_order

-- That both miss the other's write has no order.
store_buffering_violation : exists_sc_order (store_buffering 0 0) ≡ false
unfolding exists_sc_order dfs try_cores violates after_event total_events core_bound program_orders
    events_of sort_by
store_buffering_violation = refl
