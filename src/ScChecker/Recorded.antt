-- ===== src/ScChecker/Recorded.antt =====
-- The trace that the facade records passes the check.
use mesi_cache_coherence.Common.{
  ℕ, suc, ◌+◌, ◌^◌, ◌≤◌, ◌≡◌, refl, true, false, [], ◌∷◌, ◌++◌, none, Map, arith, length,
  length-append, update, u64,
}
use mesi_cache_coherence.Trace.{OpType, read_op, write_op, TraceEvent, Trace}
use mesi_cache_coherence.Bus.{SnoopingBus}
use mesi_cache_coherence.System.{MesiSystem, log}
use mesi_cache_coherence.ScChecker.{
  sort_by, current_value, after_event, violates, check_events, check_serial_order, report,
}
use mesi_cache_coherence.ScChecker.Serial.{after_events}

check_events-append :
    (t : Trace) (e : TraceEvent) (mem : Map ℕ)
    → check_events t mem ≡ none
    → violates e (after_events t mem) ≡ false
    → check_events (t ++ e ∷ []) mem ≡ none
unfolding check_events after_events
check_events-append [] e mem h g = rw g
check_events-append (x ∷ rest) e mem h g =
    ground (arith, check_events-append rest e (after_event x mem))

after_events-append :
    (t : Trace) (e : TraceEvent) (mem : Map ℕ)
    → after_events (t ++ e ∷ []) mem ≡ after_event e (after_events t mem)
unfolding after_events
after_events-append [] e mem = refl
after_events-append (x ∷ rest) e mem = after_events-append rest e (after_event x mem)

-- The time stamps count up from `k`, modulo 2^64.
abbrev pub Stamped : ℕ → Trace → Type 0
Stamped k [] = Unit {0}
Stamped k (e ∷ rest) = (e.timestamp ≡ u64 k) × Stamped (suc k) rest

Stamped-append :
    (k : ℕ) (t : Trace) (e : TraceEvent)
    → Stamped k t
    → e.timestamp ≡ u64 (k + length t)
    → Stamped k (t ++ e ∷ [])
Stamped-append k [] e h p = (omega arith, tt)
Stamped-append k (x ∷ rest) e h p = (h.0, Stamped-append (suc k) rest e h.1 (omega arith))

-- Such a trace is sorted, until the clock wraps.
sort_by-Stamped :
    (k : ℕ) (t : Trace) → Stamped k t → k + length t ≤ 2 ^ 64 → sort_by (λ e. e.timestamp) t ≡ t
unfolding sort_by
sort_by-Stamped k [] h p = refl
sort_by-Stamped k (x ∷ []) h p = refl
sort_by-Stamped k (x ∷ y ∷ rest) h p =
    rw (sort_by-Stamped (suc k) (y ∷ rest) h.1 (omega arith)) (ground arith)

-- What one event adds to a trace that is on.
pub length-log :
    (core : ℕ) (op : OpType) (addr value : ℕ) (s : MesiSystem)
    → s.tracing ≡ true
    → length (log core op addr value s).trace ≡ length s.trace + 1
unfolding log
length-log core op addr value s on = simp on (length-append s.trace (_ ∷ []))

-- The trace so far, beside the flat memory that the caches stand for.
pub record Recorded (m : ℕ → ℕ) (s : MesiSystem) : Type 0 where
  pub on : s.tracing ≡ true
  pub clean : check_events s.trace (λ _. none) ≡ none
  pub replayed : (a : ℕ) → current_value (after_events s.trace (λ _. none)) a ≡ m a
  pub stamped : Stamped 0 s.trace
  pub clock : s.timestamp ≡ u64 (length s.trace)

module _ {m : ℕ → ℕ} {s : MesiSystem} (r : Recorded m s) (core addr : ℕ) where
  abbrev mem : Map ℕ
  mem = after_events s.trace (λ _. none)

  abbrev event : OpType → ℕ → TraceEvent
  event op value = record {
    core_id = core;
    op = op;
    addr = addr;
    value = value;
    timestamp = s.timestamp;
    program_idx = s.prog_idx core;
  }

  log-Recorded :
      (op : OpType) (value : ℕ) (m' : ℕ → ℕ)
      → violates (event op value) mem ≡ false
      → ((a : ℕ) → current_value (after_event (event op value) mem) a ≡ m' a)
      → Recorded m' (log core op addr value s)
  unfolding log
  log-Recorded op value m' fits becomes = simp r.on (record {
    on = refl;
    clean = check_events-append s.trace (event op value) (λ _. none) r.clean fits;
    replayed = λ a. rw (after_events-append s.trace (event op value) (λ _. none)) (becomes a);
    stamped = Stamped-append 0 s.trace (event op value) r.stamped (omega (arith, r.clock));
    clock = omega (arith, r.clock, length-append s.trace (event op value ∷ []));
  })

  pub log_read-Recorded : (value : ℕ) → value ≡ m addr → Recorded m (log core read_op addr value s)
  unfolding violates after_event
  log_read-Recorded value e =
      log-Recorded read_op value m (ground (arith, r.replayed addr)) r.replayed

  pub log_write-Recorded :
      (value : ℕ) → Recorded (update m addr value) (log core write_op addr value s)
  unfolding violates after_event
  log_write-Recorded value = log-Recorded write_op value _ refl (λ a. ground (arith, r.replayed a))

-- The record does not depend on the bus.
pub bus-Recorded :
    {m : ℕ → ℕ} {s : MesiSystem} (b : SnoopingBus)
    → Recorded m s
    → Recorded m (record s { bus = b })
bus-Recorded b r = record {
  on = r.on;
  clean = r.clean;
  replayed = r.replayed;
  stamped = r.stamped;
  clock = r.clock;
}

pub check-Recorded :
    {m : ℕ → ℕ} {s : MesiSystem}
    → Recorded m s
    → length s.trace ≤ 2 ^ 64
    → (check_serial_order s.trace).ok ≡ true
unfolding check_serial_order report
check-Recorded r bound = rw (sort_by-Stamped 0 _ r.stamped (omega arith), r.clean)
