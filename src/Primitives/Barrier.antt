-- ===== src/Primitives/Barrier.antt =====
-- primitives/barrier.hpp: the sense-reversing barrier, as the calls that its threads make.
pub mod Episodes
pub mod Moves
pub mod Calls
pub mod Guarantees
use mesi_cache_coherence.Common.{ℕ, ◌+◌, ◌-◌, ◌%◌, ◌^◌, List, [], ◌∷◌, if◌then◌else◌, ◌==◌}
use mesi_cache_coherence.Dut.{Dut}
use mesi_cache_coherence.Dut
use mesi_cache_coherence.Refinement.Flat.{Request, Answer, done, word}
use mesi_cache_coherence.Threads.{Client}

-- `n` is taken to be at least 0.
pub record Barrier : Type 0 where
  pub count_addr : ℕ
  pub sense_addr : ℕ
  pub n : ℕ

-- `init`, as the calls that it makes.
unfoldable pub init : Barrier → Dut → List Request
init b d = Dut.write d b.count_addr b.n ∷ Dut.write d b.sense_addr 0 ∷ []

-- Where a thread stands that calls `wait` again and again, before its call `episode`, counted from
-- 0, or in it. The names are for the call that comes next; `local_sense` is the thread's own word.
pub data BarrierPc : Type 0 where
  arriving : (episode local_sense : ℕ) → BarrierPc
  waiting : (episode local_sense : ℕ) → BarrierPc
  resetting : (episode local_sense : ℕ) → BarrierPc
  fencing : (episode local_sense : ℕ) → BarrierPc
  releasing : (episode local_sense : ℕ) → BarrierPc

-- `local_sense ^= 1u`
unfoldable pub flip : ℕ → ℕ
flip local_sense = if local_sense % 2 == 0 then local_sense + 1 else local_sense - 1

unfoldable pub request : Barrier → Dut → BarrierPc → Request
request b d (arriving episode local_sense) = Dut.faa d b.count_addr (2 ^ 32 - 1)
request b d (waiting episode local_sense) = Dut.read d b.sense_addr
request b d (resetting episode local_sense) = Dut.write d b.count_addr b.n
request b d (fencing episode local_sense) = Dut.fence d
request b d (releasing episode local_sense) = Dut.write d b.sense_addr local_sense

-- The flip of the sense stands with the fetch-and-add that follows it: both are the thread's own
-- until then. A read or a fetch-and-add answers with a word, a write or a fence with `done`; no
-- other answer comes.
unfoldable pub resume : BarrierPc → Answer → BarrierPc
unfolding flip
resume (arriving episode local_sense) (word prev) =
    if prev == 1 then resetting episode (flip local_sense) else waiting episode (flip local_sense)
resume (waiting episode local_sense) (word sense) =
    if sense == local_sense then arriving (episode + 1) local_sense else waiting episode local_sense
resume (resetting episode local_sense) done = fencing episode local_sense
resume (fencing episode local_sense) done = releasing episode local_sense
resume (releasing episode local_sense) done = arriving (episode + 1) local_sense
resume p _ = p

abbrev pub barrier : Barrier → Client BarrierPc
barrier b = record { request = request b; resume = resume }
