-- ===== src/Examples/Cliff.antt =====
-- The table as the program writes it.
use mesi_cache_coherence.Common.{◌≡◌, map, arith, Returns}
use mesi_cache_coherence.Demo.FalseSharing.{rows}
use mesi_cache_coherence.Demo.FalseSharing.Guarantees.{
  cliff_from, offset_and_rdx, false_sharing_table,
}
use mesi_cache_coherence.Examples.Setup.{rotating}

false_sharing_table_example : Returns rows (λ table. map offset_and_rdx table ≡ cliff_from 32 4)
false_sharing_table_example = false_sharing_table 32 4 (omega arith)
