-- ===== src/Examples/Counting.antt =====
-- Two workers that add 1 to a word once each, under a test-and-set lock.
use mesi_cache_coherence.Common.{ℕ, zero, suc, ◌<◌, ◌≡◌, refl, List, [], ◌∷◌, pos, ok, arith}
use mesi_cache_coherence.Refinement.Flat.{read, word}
use mesi_cache_coherence.Refinement.Serve.{run}
use mesi_cache_coherence.Threads.{Event, turn, plays, play}
use mesi_cache_coherence.Threads.Protocol.{all_avoid}
use mesi_cache_coherence.Primitives.TasLock.{TasLock}
use mesi_cache_coherence.Primitives.TasLock
use mesi_cache_coherence.Demo.LockCounter.{
  WorkerPc, finished, start, request, resume, worker, prepare,
}
use mesi_cache_coherence.Demo.LockCounter.Guarantees.{exact_count}
use mesi_cache_coherence.Examples.Setup.{rotating, system_of, init_two, after}

abbrev lock : TasLock
lock = record { flag_addr = 0x100 }

-- Core 1 tries to lock while core 0 counts, waits, and counts after it.
abbrev contended : List Event
contended =
    turn 0
    ∷ turn 1
    ∷ turn 0
    ∷ turn 1
    ∷ turn 0
    ∷ turn 0
    ∷ turn 1
    ∷ turn 1
    ∷ turn 1
    ∷ turn 1
    ∷ turn 1
    ∷ []

unfoldable workers : ℕ → WorkerPc
unfolding after plays play request resume TasLock.request TasLock.resume start
workers =
    (plays (worker lock 0x200) contended (run (prepare lock 0x200) (system_of 2)).0
      (λ _. start 1)).1

all_finished : (i : ℕ) → i < 2 → workers i ≡ finished
unfolding workers
all_finished zero lt = refl
all_finished (suc zero) lt = refl
all_finished (suc (suc i)) lt = absurd (omega (arith, lt))

exact_count_example :
    let s =
      (plays
        (worker lock 0x200)
        contended
        (run (prepare lock 0x200) (system_of 2)).0
        (λ _. start 1)).0 in
    (run (read (pos 0) 0x200 ∷ []) s).1 ≡ ok (word 2) ∷ []
unfolding workers all_avoid
exact_count_example =
    exact_count lock 0x200 (λ e. ground arith) 2 1 (system_of 2) init_two contended refl
      all_finished (omega arith)
