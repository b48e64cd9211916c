-- ===== src/Perf.antt =====
-- model/perf.hpp: the performance counters, 64-bit words that wrap.
use mesi_cache_coherence.Common.{ℕ, ◌+◌, u64, update}

pub record PerfCounters : Type 0 where
  pub bus_cycles_busy : ℕ
  pub bus_rd_count : ℕ
  pub bus_rdx_count : ℕ
  pub bus_upgr_count : ℕ
  pub bus_wb_count : ℕ
  pub inv_count : ℕ → ℕ
  pub l1_hit : ℕ → ℕ
  pub l1_miss : ℕ → ℕ
  pub stall_cycles : ℕ → ℕ
  pub sb_drain_cycles : ℕ → ℕ

-- A fresh block of counters after `resize(n)`: all are 0.
abbrev pub init : PerfCounters
init = record {
  bus_cycles_busy = 0;
  bus_rd_count = 0;
  bus_rdx_count = 0;
  bus_upgr_count = 0;
  bus_wb_count = 0;
  inv_count = λ _. 0;
  l1_hit = λ _. 0;
  l1_miss = λ _. 0;
  stall_cycles = λ _. 0;
  sb_drain_cycles = λ _. 0;
}

-- `counter++` and `counter[id]++`
abbrev pub inc : ℕ → ℕ
inc c = u64 (c + 1)

abbrev pub inc_at : (ℕ → ℕ) → ℕ → ℕ → ℕ
inc_at f id = update f id (inc (f id))

unfoldable pub total_bus_txns : PerfCounters → ℕ
total_bus_txns p = u64 (p.bus_rd_count + p.bus_rdx_count + p.bus_upgr_count + p.bus_wb_count)
