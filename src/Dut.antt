-- ===== src/Dut.antt =====
-- primitives/dut.hpp: the handle of a core onto the coherent memory, as the calls it makes.
use mesi_cache_coherence.Common.{ℕ, pos}
use mesi_cache_coherence.Refinement.Flat.{Request}
use mesi_cache_coherence.Refinement.Flat

pub record Dut : Type 0 where
  pub core : ℕ

abbrev pub read : Dut → ℕ → Request
read d addr = Flat.read (pos d.core) addr

abbrev pub write : Dut → ℕ → ℕ → Request
write d addr v = Flat.write (pos d.core) addr v

abbrev pub cas : Dut → ℕ → ℕ → ℕ → Request
cas d addr expected new_val = Flat.cas (pos d.core) addr expected new_val

abbrev pub faa : Dut → ℕ → ℕ → Request
faa d addr delta = Flat.fetch_and_add (pos d.core) addr delta

abbrev pub fence : Dut → Request
fence d = Flat.fence (pos d.core)
