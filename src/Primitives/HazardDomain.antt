-- ===== src/Primitives/HazardDomain.antt =====
-- primitives/hazard_ptr.hpp: hazard pointers, as the calls that the threads make.
pub mod Slots
pub mod Scan
pub mod Guarantees
use mesi_cache_coherence.Common.{
  ℕ, ◌+◌, ◌*◌, Bool, true, false, u32, if◌then◌else◌, ◌==◌, ltb, ℤ, pos, negsuc, Result, ok, err,
  invalid_argument, out_of_range,
}
use mesi_cache_coherence.Dut.{Dut}
use mesi_cache_coherence.Dut
use mesi_cache_coherence.Refinement.Flat.{Request, Answer, done, word}
use mesi_cache_coherence.Threads.{Client}

pub record HazardDomain : Type 0 where
  pub hazard_base : ℕ
  pub n_threads : ℕ

-- The constructor.
unfoldable pub create : ℕ → ℤ → Result HazardDomain
create base (negsuc k) = err invalid_argument
create base (pos threads) =
    if threads == 0
    then err invalid_argument
    else ok (record { hazard_base = base; n_threads = threads })

-- The thread id as an index, once it is known to be one.
unfoldable pub validate_tid : HazardDomain → ℤ → Result ℕ
validate_tid h (negsuc k) = err out_of_range
validate_tid h (pos tid) = if ltb tid h.n_threads then ok tid else err out_of_range

unfoldable pub slot : HazardDomain → ℕ → ℕ
slot h tid = u32 (h.hazard_base + u32 (4 * tid))

-- Where a thread stands. A reader calls `protect` and `release` in turn, with a valid id `tid`; in
-- `guarding` it has the pointer that `protect` returned. A reclaimer calls `is_hazarded` for `ptr`
-- again and again; in `scanned` it has its answer.
pub data HazardPc : Type 0 where
  loading : (tid : ℕ) → HazardPc
  publishing : (tid p : ℕ) → HazardPc
  fencing : (tid p : ℕ) → HazardPc
  checking : (tid p : ℕ) → HazardPc
  guarding : (tid p : ℕ) → HazardPc
  scanning : (ptr t : ℕ) → HazardPc
  scanned : (ptr : ℕ) (hazarded : Bool) → HazardPc

module _ (h : HazardDomain) (ptr_addr : ℕ) where
  unfoldable pub request : Dut → HazardPc → Request
  unfolding slot
  request d (loading tid) = Dut.read d ptr_addr
  request d (publishing tid p) = Dut.write d (slot h tid) p
  request d (fencing tid p) = Dut.fence d
  request d (checking tid p) = Dut.read d ptr_addr
  request d (guarding tid p) = Dut.write d (slot h tid) 0
  request d (scanning ptr t) = Dut.read d (slot h t)
  request d (scanned ptr hazarded) = Dut.read d (slot h 0)

  -- The loop of `is_hazarded`, once slot `t` has been read.
  unfoldable pub scan_on : ℕ → ℕ → ℕ → HazardPc
  scan_on ptr t v =
      if v == ptr
      then scanned ptr true
      else if ltb (t + 1) h.n_threads
      then scanning ptr (t + 1)
      else scanned ptr false

  -- A read answers with a word, a write or a fence with `done`; no other answer comes.
  unfoldable pub resume : HazardPc → Answer → HazardPc
  unfolding scan_on
  resume (loading tid) (word p) = publishing tid p
  resume (publishing tid p) done = fencing tid p
  resume (fencing tid p) done = checking tid p
  resume (checking tid p) (word v) = if v == p then guarding tid p else loading tid
  resume (guarding tid p) done = loading tid
  resume (scanning ptr t) (word v) = scan_on ptr t v
  resume (scanned ptr hazarded) (word v) = scan_on ptr 0 v
  resume p _ = p

  abbrev pub hazard_pointers : Client HazardPc
  hazard_pointers = record { request = request; resume = resume }
