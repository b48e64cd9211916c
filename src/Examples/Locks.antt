-- ===== src/Examples/Locks.antt =====
-- Two threads at a test-and-set lock and at a ticket lock, on the first two of three fresh cores.
use mesi_cache_coherence.Common.{◌≡◌, ◌≢◌, refl, List, [], ◌∷◌, pos, arith, false, ◌++◌, ℕ}
use mesi_cache_coherence.Refinement.Flat
use mesi_cache_coherence.Threads.{Event, turn, other, plays, play, all_spare}
use mesi_cache_coherence.Primitives.TasLock.{
  TasLock, LockPc, trying, spinning, holding, tas_lock, request, resume,
}
use mesi_cache_coherence.Primitives.TasLock.Guarantees.{attempts, mutual_exclusion, free_lock}
use mesi_cache_coherence.Primitives.TicketLock.{
  TicketLock, TicketPc, arriving, waiting, serving, ticket_lock,
}
use mesi_cache_coherence.Primitives.TicketLock
use mesi_cache_coherence.Primitives.TicketLock.Tickets.{is_serving, ticket}
use mesi_cache_coherence.Primitives.TicketLock.Guarantees.{one_served, tickets_differ, first_come}
use mesi_cache_coherence.Primitives.TicketLock.Fifo.{keeps_waiting}
use mesi_cache_coherence.Examples.Setup.{rotating, system_of, init_three, after}

abbrev lock : TasLock
lock = record { flag_addr = 0x100 }

-- Core 0 takes the lock, core 1 fails and spins, core 0 writes a word.
abbrev contended : List Event
contended = turn 0 ∷ turn 1 ∷ turn 1 ∷ other (Flat.write (pos 0) 0x200 7) ∷ []

-- Then core 0 unlocks.
abbrev released : List Event
released = contended ++ turn 0 ∷ []

unfoldable threads : List Event → ℕ → LockPc
unfolding after plays play request resume
threads es = (plays (tas_lock lock) es (system_of 3) (λ _. trying)).1

-- Core 1 is in the inner loop, before and after the unlock.
threads_waiting :
    (threads contended 0 ≡ holding)
    × (threads contended 1 ≡ spinning)
    × (threads released 0 ≡ trying)
    × (threads released 1 ≡ spinning)
unfolding threads
threads_waiting = (refl, refl, refl, refl)

mutual_exclusion_example :
    (plays (tas_lock lock) contended (system_of 3) (λ _. trying)).1 1 ≢ holding
unfolding threads all_spare
mutual_exclusion_example =
    mutual_exclusion lock 3 (system_of 3) init_three contended refl 0 1 (λ e. ground arith) refl

free_lock_example :
    let (s, pcs) = plays (tas_lock lock) released (system_of 3) (λ _. trying) in
    (plays (tas_lock lock) (attempts 1 (pcs 1)) s pcs).1 1 ≡ holding
unfolding threads all_spare
free_lock_example =
    free_lock lock 3 (system_of 3) init_three released refl (λ j. ground arith) 1 (omega arith)

abbrev tickets : TicketLock
tickets = record { next_ticket_addr = 0x100; now_serving_addr = 0x140 }

-- Core 0 takes a ticket and is served, core 1 takes one and waits.
abbrev queued : List Event
queued = turn 0 ∷ turn 0 ∷ turn 1 ∷ turn 1 ∷ []

-- Core 0 unlocks, and core 1 sees it.
abbrev passed_on : List Event
passed_on = queued ++ turn 0 ∷ turn 1 ∷ []

unfoldable queue_after : List Event → ℕ → TicketPc
unfolding after plays play TicketLock.request TicketLock.resume
queue_after es = (plays (ticket_lock tickets) es (system_of 3) (λ _. arriving)).1

queue_after_runs :
    (queue_after queued 0 ≡ serving 0)
    × (queue_after queued 1 ≡ waiting 1)
    × (queue_after passed_on 0 ≡ arriving)
    × (queue_after passed_on 1 ≡ serving 1)
unfolding queue_after
queue_after_runs = (refl, refl, refl, refl)

one_served_example :
    is_serving ((plays (ticket_lock tickets) queued (system_of 3) (λ _. arriving)).1 1) ≡ false
unfolding queue_after all_spare
one_served_example =
    one_served tickets (λ e. ground arith) 3 (omega arith) (system_of 3) init_three queued refl refl
      0 1 (λ e. ground arith) refl

tickets_differ_example :
    let pcs = (plays (ticket_lock tickets) queued (system_of 3) (λ _. arriving)).1 in
    ticket (pcs 0) ≢ ticket (pcs 1)
unfolding queue_after all_spare
tickets_differ_example =
    tickets_differ tickets (λ e. ground arith) 3 (omega arith) (system_of 3) init_three queued refl
      refl 0 1 (λ e. ground arith) refl refl

-- Core 0 is served and core 1 waits; then core 2 comes and reads twice.
abbrev late : List Event
late = turn 2 ∷ turn 2 ∷ turn 2 ∷ []

first_come_example :
    let (s, pcs) = plays (ticket_lock tickets) queued (system_of 3) (λ _. arriving) in
    is_serving ((plays (ticket_lock tickets) late s pcs).1 2) ≡ false
unfolding queue_after all_spare keeps_waiting
first_come_example =
    first_come tickets (λ e. ground arith) 3 (omega arith) (system_of 3) init_three queued refl refl
      1 2 1 late refl refl refl refl refl
