-- ===== src/Demo/ScStress.antt =====
-- `sc_stress`: threads that read and write a few words at random, with tracing on, and the check of
-- their trace.
pub mod Steps
pub mod Guarantees
use mesi_cache_coherence.Common.{
  ℕ, zero, suc, ◌+◌, ◌*◌, ◌%◌, ◌^◌, Bool, true, List, map, pos, u32, u64, if◌then◌else◌, ltb, ◌==◌,
  Result, ok, ◌>>=◌,
}
use Prim.Native.Nat.{bit_and, bit_or, bit_xor}
use mesi_cache_coherence.Bus.{RandomEngine, SnoopingBus, register_addr}
use mesi_cache_coherence.System.{MesiSystem, enable_tracing, enable_race_injection}
use mesi_cache_coherence.System
use mesi_cache_coherence.Dut.{Dut}
use mesi_cache_coherence.Refinement.Flat.{Request, Answer}
use mesi_cache_coherence.Refinement.Flat
use mesi_cache_coherence.Threads.{Client, turn, plays}
use mesi_cache_coherence.ScChecker.{ScResult, check_serial_order}

-- The loop counter of a worker, and its engine.
pub record Worker : Type 0 where
  pub i : ℕ
  pub rng : ℕ

abbrev pub address : ℕ → ℕ
address i = 0x100 + 4 * i

-- The registration of `k` words from the `i`-th on.
unfoldable pub register_from : ℕ → ℕ → SnoopingBus → SnoopingBus
register_from zero i b = b
register_from (suc k) i b = register_from k (i + 1) (register_addr (address i) b)

-- The call of round `i` from two random numbers.
unfoldable pub call : ℕ → ℕ → ℕ × ℕ → Request
call core i (pick, coin) =
    if bit_and coin 1 == 0
    then Flat.read (pos core) (address (pick % 8))
    else Flat.write (pos core) (address (pick % 8)) (u32 (bit_or (core * 2 ^ 16) i))

module _ ⦃std : RandomEngine⦄ where
  -- The two numbers that a round draws, and the engine after them.
  abbrev pub drawn : ℕ → (ℕ × ℕ) × ℕ
  drawn rng = let (pick, g) = std.next rng in let (coin, g') = std.next g in ((pick, coin), g')

  -- A worker past its loop makes no call; for its turn it has a fence, which changes nothing.
  unfoldable pub request : ℕ → Dut → Worker → Request
  unfolding call
  request ops d w = if ltb w.i ops then call d.core w.i (drawn w.rng).0 else Flat.fence (pos d.core)

  unfoldable pub resume : ℕ → Worker → Answer → Worker
  resume ops w a = if ltb w.i ops then record { i = w.i + 1; rng = (drawn w.rng).1 } else w

  abbrev pub worker : ℕ → Client Worker
  worker ops = record { request = request ops; resume = resume ops }

  abbrev pub start : ℕ → ℕ → Worker
  start seed core = record { i = 0; rng = std.seeded (u64 (seed + core * 1000 + 7)) }

  abbrev pub traced : ℕ → Bool → MesiSystem → MesiSystem
  traced seed race s =
      let t = enable_tracing true s in
      if race then enable_race_injection (bit_xor seed 0x9e3779b97f4a7c15) t else t

  unfoldable pub prepare : ℕ → Bool → MesiSystem → MesiSystem
  prepare seed race s = let t = traced seed race s in record t { bus = register_from 8 0 t.bus }

  -- The system and the workers when the threads have had the turns of a schedule.
  unfoldable pub threads : ℕ → ℕ → ℕ → Bool → List ℕ → Result (MesiSystem × (ℕ → Worker))
  threads n ops seed race schedule = do
    s ← System.init (pos n)
    ok (plays (worker ops) (map turn schedule) (prepare seed race s) (start seed))

  unfoldable pub sc_stress : ℕ → ℕ → ℕ → Bool → List ℕ → Result ScResult
  sc_stress n ops seed race schedule = do
    (s, workers) ← threads n ops seed race schedule
    ok (check_serial_order s.trace)
