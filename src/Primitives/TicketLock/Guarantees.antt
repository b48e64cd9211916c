-- ===== src/Primitives/TicketLock/Guarantees.antt =====
-- What the ticket lock promises to the threads that share it.
use mesi_cache_coherence.Common.{ℕ, ◌^◌, ◌≤◌, ◌≡◌, ◌≢◌, true, false, List, arith, pos, ok}
use mesi_cache_coherence.Bus.{RandomEngine}
use mesi_cache_coherence.System.{MesiSystem}
use mesi_cache_coherence.System
use mesi_cache_coherence.Refinement.Locked.{Represents}
use mesi_cache_coherence.Refinement.Runs.{init-Represents}
use mesi_cache_coherence.Threads.{Event, all_spare, plays, plays-Agrees, flat_plays}
use mesi_cache_coherence.Primitives.TicketLock.{
  TicketPc, arriving, waiting, TicketLock, ticket_lock,
}
use mesi_cache_coherence.Primitives.TicketLock.Tickets.{is_in, is_serving, ticket, busy-arriving}
use mesi_cache_coherence.Primitives.TicketLock.Queue.{Queue, same_ticket}
use mesi_cache_coherence.Primitives.TicketLock.Schedules.{Queued, plays-Queued}
use mesi_cache_coherence.Primitives.TicketLock.Fifo.{keeps_waiting, plays-not_overtaken}

arriving-Queue : (n : ℕ) → Queue n 0 0 (λ _. arriving)
arriving-Queue n = record {
  first = 0;
  taken = λ _. 0;
  now_serving = omega arith;
  next_ticket = rw (busy-arriving n) (omega arith);
  lower = λ i h. ground arith;
  upper = λ i h. ground arith;
  shown = λ i h. ground arith;
  served = λ i h. ground arith;
  distinct = λ i j hi hj e. ground arith;
}

module _ ⦃std : RandomEngine⦄ (l : TicketLock) (apart : l.next_ticket_addr ≢ l.now_serving_addr)
    (count : ℕ) (small : count ≤ 2 ^ 32) (s : MesiSystem) (fresh : System.init (pos count) ≡ ok s)
    (es : List Event) (now_spared : all_spare l.now_serving_addr es ≡ true)
    (next_spared : all_spare l.next_ticket_addr es ≡ true) where
  abbrev reached : MesiSystem × (ℕ → TicketPc)
  reached = plays (ticket_lock l) es s (λ _. arriving)

  abbrev flat : (ℕ → ℕ) × (ℕ → TicketPc)
  flat = flat_plays (ticket_lock l) count es (λ _. 0) (λ _. arriving)

  reached-Represents : Represents count flat.0 reached.0 × (reached.1 ≡ flat.1)
  reached-Represents = plays-Agrees (ticket_lock l) es (λ _. arriving) (init-Represents fresh)

  reached-Queued : Queued l count (flat.0, reached.1)
  reached-Queued =
      rw reached-Represents.1
        (plays-Queued l count es (λ _. 0) apart small now_spared next_spared (arriving-Queue count))

  -- Whatever the schedule on a fresh system of at most 2 ^ 32 cores, for a lock whose two words are
  -- different, with any other calls that write neither word of the lock, and however often the
  -- tickets wrap: while a thread is past `lock` and not yet through `unlock`, no other thread is.
  pub one_served :
      (i j : ℕ) → i ≢ j → is_serving (reached.1 i) ≡ true → is_serving (reached.1 j) ≡ false
  one_served i j differ hi =
      ground (arith, reached-Queued.distinct i j, reached-Queued.served i, reached-Queued.served j)

  -- Under the same conditions, two threads that wait or are served never have the same ticket.
  pub tickets_differ :
      (i j : ℕ)
      → i ≢ j
      → is_in (reached.1 i) ≡ true
      → is_in (reached.1 j) ≡ true
      → ticket (reached.1 i) ≢ ticket (reached.1 j)
  tickets_differ i j differ hi hj e = differ (same_ticket reached-Queued i j small hi hj e)

  -- Under the same conditions, a thread that waits is not overtaken by one that has not come yet:
  -- through whatever further schedule, as long as the first still waits, the second is not past
  -- `lock`.
  pub first_come :
      (i j my : ℕ) (later : List Event)
      → reached.1 i ≡ waiting my
      → reached.1 j ≡ arriving
      → all_spare l.now_serving_addr later ≡ true
      → all_spare l.next_ticket_addr later ≡ true
      → keeps_waiting l i later reached.0 reached.1 ≡ true
      → is_serving ((plays (ticket_lock l) later reached.0 reached.1).1 j) ≡ false
  first_come i j my later hi hj hn hs still =
      plays-not_overtaken l i apart count small j later flat.0 reached.0 reached.1
        reached-Represents.0
        (reached-Queued, record { my = my; waits = hi; after = λ h. ground arith }) hn hs still
