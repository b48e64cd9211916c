-- ===== src/Primitives/TasLock.antt =====
-- primitives/spinlock.hpp: the test-and-set lock, as the calls that its threads make.
use mesi_cache_coherence.Common.{ℕ, false, if◌then◌else◌, ◌==◌}
use mesi_cache_coherence.Dut.{Dut}
use mesi_cache_coherence.Dut
use mesi_cache_coherence.Refinement.Flat.{Request, Answer, done, word, swapped}
use mesi_cache_coherence.Threads.{Client}
pub mod Flag
pub mod Guarantees

-- Where a thread stands that locks and unlocks again and again: before the cas of `lock`, before a
-- read of its inner loop, or past `lock`, so that its next call is the write of `unlock`.
pub data LockPc : Type 0 where
  trying spinning holding : LockPc

pub record TasLock : Type 0 where
  pub flag_addr : ℕ

unfoldable pub request : TasLock → Dut → LockPc → Request
request l d trying = Dut.cas d l.flag_addr 0 1
request l d spinning = Dut.read d l.flag_addr
request l d holding = Dut.write d l.flag_addr 0

-- The last clause: `unlock` returns, and the thread locks again. No other answer comes.
unfoldable pub resume : LockPc → Answer → LockPc
resume trying (swapped old_val success) = if success then holding else spinning
resume spinning (word v) = if v == 1 then spinning else trying
resume trying _ = trying
resume spinning _ = spinning
resume holding _ = trying

abbrev pub tas_lock : TasLock → Client LockPc
tas_lock l = record { request = request l; resume = resume }
