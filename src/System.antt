-- ===== src/System.antt =====
-- model/mesi_system.hpp: the thread-safe facade. Every operation runs under the bus mutex, so that
-- whatever the threads do is a sequence of these operations; a state is what the mutex guards.
use mesi_cache_coherence.Common.{
  ℕ, ◌+◌, Bool, false, [], ◌∷◌, ◌++◌, update, u32, u64, ℤ, pos, negsuc, Result, ok, err,
  invalid_argument, out_of_range, ◌>>=◌, if◌then◌else◌, ◌==◌, ltb,
}
use mesi_cache_coherence.Trace.{OpType, read_op, write_op, TraceEvent, Trace}
use mesi_cache_coherence.Cache.{put_word}
use mesi_cache_coherence.Bus.{RandomEngine, SnoopingBus, on_controller}
use mesi_cache_coherence.Bus
use mesi_cache_coherence.Controller.{processor_read, processor_write, acquire_exclusive}

pub record CasResult : Type 0 where
  pub old_val : ℕ
  pub success : Bool

pub record MesiSystem : Type 0 where
  pub bus : SnoopingBus
  pub timestamp : ℕ
  pub tracing : Bool
  pub trace : Trace
  pub prog_idx : ℕ → ℕ

unfoldable pub checked_core_count : ℤ → Result ℕ
checked_core_count (negsuc k) = err invalid_argument
checked_core_count (pos n) = if n == 0 then err invalid_argument else ok n

-- The id as an index, once it is known to be one.
unfoldable pub validate_core : ℤ → MesiSystem → Result ℕ
validate_core (negsuc k) s = err out_of_range
validate_core (pos core) s = if ltb core s.bus.n_cores then ok core else err out_of_range

unfoldable pub log : ℕ → OpType → ℕ → ℕ → MesiSystem → MesiSystem
log core op addr value s =
    if s.tracing
    then record s {
      timestamp = u64 (s.timestamp + 1);
      trace = s.trace ++ event ∷ [];
      prog_idx = update s.prog_idx core (u64 (s.prog_idx core + 1));
    }
    else record s { timestamp = u64 (s.timestamp + 1) }
  where
    event : TraceEvent
    event = record {
      core_id = core;
      op = op;
      addr = addr;
      value = value;
      timestamp = s.timestamp;
      program_idx = s.prog_idx core;
    }

abbrev pub enable_tracing : Bool → MesiSystem → MesiSystem
enable_tracing on s = record s { tracing = on }

abbrev pub clear_trace : MesiSystem → MesiSystem
clear_trace s = record s { trace = []; timestamp = 0; prog_idx = λ _. 0 }

unfoldable pub enable_race_injection : ⦃std : RandomEngine⦄ → ℕ → MesiSystem → MesiSystem
enable_race_injection seed s = record s { bus = Bus.enable_race_injection seed s.bus }

module _ ⦃std : RandomEngine⦄ where
  unfoldable pub init : ℤ → Result MesiSystem
  init n_cores = do
    n ← checked_core_count n_cores
    ok (record { bus = Bus.init n; timestamp = 0; tracing = false; trace = []; prog_idx = λ _. 0 })

  -- What the operations do once the core is valid and the mutex is held.
  unfoldable pub locked_read : ℕ → ℕ → MesiSystem → MesiSystem × ℕ
  locked_read core addr s =
      let (bus, v) = processor_read core addr s.bus in
      (log core read_op addr v (record s { bus = bus }), v)

  unfoldable pub locked_write : ℕ → ℕ → ℕ → MesiSystem → MesiSystem
  locked_write core addr value s =
      log core write_op addr value (record s { bus = processor_write core addr value s.bus })

  -- `acquire_exclusive`, and the log of the value read.
  unfoldable pub locked_acquire : ℕ → ℕ → MesiSystem → MesiSystem × ℕ
  locked_acquire core addr s =
      let (bus, old) = acquire_exclusive core addr s.bus in
      (log core read_op addr old (record s { bus = bus }), old)

  -- `put_word`, and its log.
  unfoldable pub locked_put : ℕ → ℕ → ℕ → MesiSystem → MesiSystem
  locked_put core addr value s =
      log core write_op addr value
        (record s { bus = on_controller core (put_word addr value) s.bus })

  unfoldable pub locked_cas : ℕ → ℕ → ℕ → ℕ → MesiSystem → MesiSystem × CasResult
  locked_cas core addr expected new_val s =
      let (s', old) = locked_acquire core addr s in
      let swap = old == expected in
      (
        if swap then locked_put core addr new_val s' else s',
        record { old_val = old; success = swap },
      )

  unfoldable pub locked_add : ℕ → ℕ → ℕ → MesiSystem → MesiSystem × ℕ
  locked_add core addr delta s =
      let (s', old) = locked_acquire core addr s in
      (locked_put core addr (u32 (old + delta)) s', old)

  unfoldable pub read : ℤ → ℕ → MesiSystem → Result (MesiSystem × ℕ)
  read core addr s = do c ← validate_core core s; ok (locked_read c addr s)

  unfoldable pub write : ℤ → ℕ → ℕ → MesiSystem → Result MesiSystem
  write core addr value s = do c ← validate_core core s; ok (locked_write c addr value s)

  unfoldable pub cas : ℤ → ℕ → ℕ → ℕ → MesiSystem → Result (MesiSystem × CasResult)
  cas core addr expected new_val s = do
    c ← validate_core core s
    ok (locked_cas c addr expected new_val s)

  unfoldable pub fetch_and_add : ℤ → ℕ → ℕ → MesiSystem → Result (MesiSystem × ℕ)
  fetch_and_add core addr delta s = do c ← validate_core core s; ok (locked_add c addr delta s)

unfoldable pub fence : ℤ → MesiSystem → Result MesiSystem
fence core s = do c ← validate_core core s; ok s
