-- ===== src/ScChecker.antt =====
-- model/sc_checker.hpp and model/sc_checker.cpp: the check of a trace in its recorded order.
-- `std::sort` is an insertion sort here; where all keys differ, every sort gives its result.
-- The text of `detail` is its data.
pub mod Serial
pub mod Recorded
pub mod Runs
pub mod Cleared
pub mod Search
pub mod Orders
pub mod Buckets
pub mod Sorting
pub mod ProgramOrder
use mesi_cache_coherence.Common.{
  ℕ, ◌+◌, Bool, true, false, not, List, [], ◌∷◌, Option, none, some, Map, insert, get_or, length,
  if◌then◌else◌, ◌==◌, leb,
}
use mesi_cache_coherence.Trace.{OpType, read_op, write_op, TraceEvent, Trace}

unfoldable pub insert_by : (TraceEvent → ℕ) → TraceEvent → Trace → Trace
insert_by key e [] = e ∷ []
insert_by key e (x ∷ xs) = if leb (key e) (key x) then e ∷ x ∷ xs else x ∷ insert_by key e xs

unfoldable pub sort_by : (TraceEvent → ℕ) → Trace → Trace
unfolding insert_by
sort_by key [] = []
sort_by key (x ∷ xs) = insert_by key x (sort_by key xs)

pub data Detail : Type 0 where
  violation : (event : TraceEvent) (expect : ℕ) → Detail
  consistent : (ops : ℕ) → Detail

pub record ScResult : Type 0 where
  pub ok : Bool
  pub detail : Detail

-- `mem.count(addr) ? mem[addr] : 0u`
abbrev pub current_value : Map ℕ → ℕ → ℕ
current_value mem addr = get_or (mem addr) 0

-- The values after an event: a write stores its value, a read changes nothing.
unfoldable pub after_event : TraceEvent → Map ℕ → Map ℕ
after_event e mem = elim e.op [ write_op ↦ insert mem e.addr e.value | read_op ↦ mem ]

-- Whether an event is a read of another value than the current one.
unfoldable pub violates : TraceEvent → Map ℕ → Bool
violates e mem = elim e.op [
  | write_op ↦ false
  | read_op ↦ not (e.value == current_value mem e.addr)
]

-- The loop over the sorted events: the first violation, with the value that was expected.
unfoldable pub check_events : Trace → Map ℕ → Option (TraceEvent × ℕ)
unfolding after_event violates
check_events [] mem = none
check_events (e ∷ rest) mem =
    let later = check_events rest (after_event e mem) in
    if violates e mem then some (e, current_value mem e.addr) else later

unfoldable pub report : ℕ → Option (TraceEvent × ℕ) → ScResult
report ops none = record { ok = true; detail = consistent ops }
report ops (some (e, expect)) = record { ok = false; detail = violation e expect }

unfoldable pub check_serial_order : Trace → ScResult
check_serial_order trace =
    let t = sort_by (λ e. e.timestamp) trace in report (length t) (check_events t (λ _. none))
