-- ===== src/Demo/LockCounter.antt =====
-- The worker of `emit_lock_scalability_csv`: it adds 1 to a shared word, again and again, under a
-- test-and-set lock.
pub mod Counting
pub mod Guarantees
use mesi_cache_coherence.Common.{ℕ, zero, suc, ◌+◌, List, [], ◌∷◌, pos, u32}
use mesi_cache_coherence.Dut.{Dut}
use mesi_cache_coherence.Dut
use mesi_cache_coherence.Refinement.Flat.{Request, Answer, word}
use mesi_cache_coherence.Refinement.Flat
use mesi_cache_coherence.Threads.{Client}
use mesi_cache_coherence.Primitives.TasLock.{TasLock, LockPc, trying, spinning, holding}
use mesi_cache_coherence.Primitives.TasLock

-- Where a worker stands, with the rounds that it has left after this one: in `lock`, before its read,
-- before the write of the word it has read, before `unlock`, or past its loop.
pub data WorkerPc : Type 0 where
  locking : LockPc → ℕ → WorkerPc
  reading : ℕ → WorkerPc
  writing : (k v : ℕ) → WorkerPc
  unlocking : ℕ → WorkerPc
  finished : WorkerPc

-- The head of the loop, with `k` rounds to go.
unfoldable pub start : ℕ → WorkerPc
start zero = finished
start (suc k) = locking trying k

-- `lock` returns once the thread holds the lock.
unfoldable pub entered : LockPc → ℕ → WorkerPc
entered holding k = reading k
entered p k = locking p k

-- A worker past its loop makes no call; for its turn it has a fence, which changes nothing.
unfoldable pub request : TasLock → ℕ → Dut → WorkerPc → Request
request l ctr d (locking p k) = TasLock.request l d p
request l ctr d (reading k) = Dut.read d ctr
request l ctr d (writing k v) = Dut.write d ctr (u32 (v + 1))
request l ctr d (unlocking k) = TasLock.request l d holding
request l ctr d finished = Dut.fence d

unfoldable pub resume : WorkerPc → Answer → WorkerPc
unfolding start entered
resume (locking p k) a = entered (TasLock.resume p a) k
resume (reading k) (word v) = writing k v
resume (reading k) _ = reading k
resume (writing k v) a = unlocking k
resume (unlocking k) a = start k
resume finished a = finished

abbrev pub worker : TasLock → ℕ → Client WorkerPc
worker l ctr = record { request = request l ctr; resume = resume }

-- The writes before the threads start.
abbrev pub prepare : TasLock → ℕ → List Request
prepare l ctr = Flat.write (pos 0) l.flag_addr 0 ∷ Flat.write (pos 0) ctr 0 ∷ []
