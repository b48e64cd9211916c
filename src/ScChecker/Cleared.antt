-- ===== src/ScChecker/Cleared.antt =====
-- The check of a trace that begins in the middle of the system's life.
use mesi_cache_coherence.Common.{ℕ, ◌<◌, ◌≡◌, ◌≢◌, true, false, arith}
use mesi_cache_coherence.Bus.{RandomEngine}
use mesi_cache_coherence.System.{MesiSystem, clear_trace, locked_read, log}
use mesi_cache_coherence.Refinement.Locked.{Represents, read-Represents}
use mesi_cache_coherence.ScChecker.{check_serial_order, sort_by, check_events, report, violates}

clear_trace-Represents :
    {n : ℕ} {m : ℕ → ℕ} {s : MesiSystem} → Represents n m s → Represents n m (clear_trace s)
clear_trace-Represents r = record { coherent = r.coherent; n_cores = r.n_cores }

-- After `clear_trace` on a coherent system that traces, the trace of one correct read, by a core
-- that exists, of any word that is not 0 fails the check: the check takes every word to start at 0.
pub clear_trace_alarm :
    ⦃std : RandomEngine⦄ {n : ℕ} {m : ℕ → ℕ} {s : MesiSystem} (core addr : ℕ)
    → Represents n m s
    → s.tracing ≡ true
    → core < n
    → m addr ≢ 0
    → (check_serial_order (locked_read core addr (clear_trace s)).0.trace).ok ≡ false
unfolding locked_read log check_serial_order sort_by check_events report violates
clear_trace_alarm {s} core addr r on lt n =
    let value = (read-Represents (clear_trace-Represents r) core addr lt).1 in ground (arith, value)
