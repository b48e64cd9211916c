-- ===== src/Demo/FalseSharing/Guarantees.antt =====
-- Where the traffic collapses.
use mesi_cache_coherence.Common.{
  ℕ, zero, suc, ◌+◌, ◌*◌, ◌%◌, ◌^◌, ◌<◌, ◌≤◌, ◌≡◌, refl, ap, ltb, if◌then◌else◌, pos, u32, u64,
  false, List, [], ◌∷◌, map, ap₂, Returns-bind, ok, Returns, arith,
}
use mesi_cache_coherence.Types.{line_of}
use mesi_cache_coherence.Bus.{RandomEngine}
use mesi_cache_coherence.Bus
use mesi_cache_coherence.System.{MesiSystem}
use mesi_cache_coherence.System
use mesi_cache_coherence.Workloads.Guarantees.{false_sharing_traffic}
use mesi_cache_coherence.Demo.FalseSharing.{CsvRow, measure, row_of, rows_from}

abbrev pub offset_and_rdx : CsvRow → ℕ × ℕ
offset_and_rdx row = (row.offset_bytes, row.bus_rdx)

module _ ⦃std : RandomEngine⦄ where
  abbrev two_cores : MesiSystem
  two_cores = record {
    bus = Bus.init 2;
    timestamp = 0;
    tracing = false;
    trace = [];
    prog_idx = λ _. 0;
  }

  init-two_cores : System.init (pos 2) ≡ ok two_cores
  unfolding System.init System.checked_core_count
  init-two_cores = refl

  -- If the first word is at the start of a line, one round or more makes the row's count of reads for
  -- ownership `2 * iters`, in 64 bits, while the offset is less than 64 bytes, and 2 from there on.
  pub sharing_cliff :
      (a0 iters off : ℕ)
      → a0 % 64 ≡ 0
      → a0 + off < 2 ^ 32
      → Returns
          (measure a0 (suc iters) off)
          (λ row. offset_and_rdx row ≡ (off, if ltb off 64 then u64 (2 * suc iters) else 2))
  unfolding measure row_of line_of
  sharing_cliff a0 iters off start small = simp init-two_cores (
      ap (λ k. (off, k))
        (ground (
          arith,
          false_sharing_traffic 2 two_cores init-two_cores (omega arith) a0 (u32 (a0 + off))
              (suc iters),
        )))

row_of_measure :
    ⦃std : RandomEngine⦄ (off : ℕ)
    → 0x4000 + off < 2 ^ 32
    → Returns
        (measure 0x4000 100 off)
        (λ row. offset_and_rdx row ≡ (off, if ltb off 64 then 200 else 2))
row_of_measure off small = sharing_cliff 0x4000 99 off refl small

-- The offsets, with the count that each should show.
unfoldable pub cliff_from : ℕ → ℕ → List (ℕ × ℕ)
cliff_from zero off = []
cliff_from (suc k) off = (off, if ltb off 64 then 200 else 2) ∷ cliff_from k (off + 4)

-- The table is written without an error, and the rows, from any offset on and while addresses do not
-- wrap, have the offsets in steps of 4, with 200 reads for ownership in each row below 64 bytes and 2
-- in each other row.
pub false_sharing_table :
    ⦃std : RandomEngine⦄ (k off : ℕ)
    → 0x4000 + off + 4 * k ≤ 2 ^ 32
    → Returns (rows_from k off) (λ rows. map offset_and_rdx rows ≡ cliff_from k off)
unfolding rows_from cliff_from
false_sharing_table zero off small = refl
false_sharing_table (suc k) off small =
    Returns-bind _ (λ rows. map offset_and_rdx rows ≡ cliff_from (suc k) off)
      (measure 0x4000 100 off) _ (row_of_measure off (omega (arith, small)))
      (λ row e.
        Returns-bind _ (λ rows. map offset_and_rdx rows ≡ cliff_from (suc k) off)
          (rows_from k (off + 4)) _ (false_sharing_table k (off + 4) (omega (arith, small)))
          (λ rows e'. ap₂ ◌∷◌ e e'))
