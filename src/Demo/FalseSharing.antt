-- ===== src/Demo/FalseSharing.antt =====
-- `emit_false_sharing_csv`: the traffic of `false_sharing` by the distance of its two words.
pub mod Guarantees
use mesi_cache_coherence.Common.{ℕ, zero, suc, ◌+◌, List, [], ◌∷◌, pos, u32, u64, Result, ok, ◌>>=◌}
use mesi_cache_coherence.Perf.{total_bus_txns}
use mesi_cache_coherence.Bus.{RandomEngine}
use mesi_cache_coherence.System.{MesiSystem}
use mesi_cache_coherence.System
use mesi_cache_coherence.Refinement.Serve.{run}
use mesi_cache_coherence.Workloads.{false_sharing}

pub record CsvRow : Type 0 where
  pub offset_bytes : ℕ
  pub total_bus_txns : ℕ
  pub bus_rdx : ℕ
  pub inv_total : ℕ

unfoldable pub row_of : ℕ → MesiSystem → CsvRow
row_of off s = record {
  offset_bytes = off;
  total_bus_txns = total_bus_txns s.bus.perf;
  bus_rdx = s.bus.perf.bus_rdx_count;
  inv_total = u64 (s.bus.perf.inv_count 0 + s.bus.perf.inv_count 1);
}

module _ ⦃std : RandomEngine⦄ where
  -- The body of the loop: a fresh system of two cores for each offset.
  unfoldable pub measure : ℕ → ℕ → ℕ → Result CsvRow
  unfolding row_of
  measure a0 iters off = do
    s ← System.init (pos 2)
    ok (row_of off (run (false_sharing a0 (u32 (a0 + off)) iters) s).0)

  -- The loop, `k` rounds from offset `off`.
  unfoldable pub rows_from : ℕ → ℕ → Result (List CsvRow)
  unfolding measure
  rows_from zero off = ok []
  rows_from (suc k) off = do
    row ← measure 0x4000 100 off
    rows ← rows_from k (off + 4)
    ok (row ∷ rows)

  abbrev pub rows : Result (List CsvRow)
  rows = rows_from 32 4
