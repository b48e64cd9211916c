-- ===== src/Examples/Snapshots.antt =====
-- A writer on core 0 and readers on the others of three fresh cores, at a sequence lock of two words.
use mesi_cache_coherence.Common.{ℕ, ◌+◌, ◌*◌, ◌≡◌, refl, List, [], ◌∷◌, ◌++◌, arith}
use mesi_cache_coherence.Threads.{Event, turn, plays, play}
use mesi_cache_coherence.Threads.Protocol.{all_avoid}
use mesi_cache_coherence.Primitives.Seqlock
use mesi_cache_coherence.Primitives.Seqlock.{
  Seqlock, SeqPc, writing, reading, read_first, snapshot, seqlock, write_request, write_resume,
  read_request, read_resume,
}
use mesi_cache_coherence.Primitives.Seqlock.Versions.{IsApart, contents}
use mesi_cache_coherence.Primitives.Seqlock.Guarantees.{starting, consistent_snapshot}
use mesi_cache_coherence.Examples.Setup.{rotating, system_of, init_three, after}

abbrev pair : Seqlock
pair = record { seq_addr = 0x100; data_base = 0x140; n_words = 2 }

pair-IsApart : IsApart pair
pair-IsApart = record { below = omega arith; outside = λ i lt e. omega arith }

abbrev vals : ℕ → ℕ → ℕ
vals round i = 10 * round + i + 1

abbrev turns : ℕ → ℕ → List Event
turns core Prim.Native.Nat.zero = []
turns core (Prim.Native.Nat.suc k) = turn core ∷ turns core k

-- Core 1 reads the sequence and the first word, core 0 writes, core 1 goes on, fails and tries again.
abbrev interrupted : List Event
interrupted = turns 1 3 ++ turns 0 7 ++ turns 1 3 ++ turns 1 6

unfoldable threads : List Event → ℕ → SeqPc
unfolding after plays play Seqlock.request Seqlock.resume write_request write_resume read_request
    read_resume starting
threads es = (plays (seqlock pair vals) es (system_of 3) (starting 0)).1

first_try_fails : threads (turns 1 3 ++ turns 0 7 ++ turns 1 3) 1 ≡ reading read_first
unfolding threads
first_try_fails = refl

second_try : threads interrupted 1 ≡ reading (snapshot (1 ∷ 2 ∷ []))
unfolding threads
second_try = refl

consistent_snapshot_example : (k : ℕ) × (1 ∷ 2 ∷ [] ≡ contents vals k 2)
unfolding threads all_avoid
consistent_snapshot_example =
    consistent_snapshot pair pair-IsApart vals 0 3 (system_of 3) init_three interrupted
      (omega arith) refl 1 (1 ∷ 2 ∷ []) (λ e. ground arith) refl
