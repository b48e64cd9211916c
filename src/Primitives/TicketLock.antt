-- ===== src/Primitives/TicketLock.antt =====
-- primitives/ticket_lock.hpp: the ticket lock, as the calls that its threads make.
use mesi_cache_coherence.Common.{ℕ, if◌then◌else◌, ◌==◌}
use mesi_cache_coherence.Dut.{Dut}
use mesi_cache_coherence.Dut
use mesi_cache_coherence.Refinement.Flat.{Request, Answer, word}
use mesi_cache_coherence.Threads.{Client}
pub mod Tickets
pub mod Queue
pub mod Order
pub mod Schedules
pub mod Fifo
pub mod Guarantees

-- Where a thread stands that locks and unlocks again and again: before the fetch-and-add of `lock`,
-- before a read of its loop, or past `lock`, so that its next call is that of `unlock`. `my` is the
-- local variable of `lock`.
pub data TicketPc : Type 0 where
  arriving : TicketPc
  waiting : (my : ℕ) → TicketPc
  serving : (my : ℕ) → TicketPc

pub record TicketLock : Type 0 where
  pub next_ticket_addr : ℕ
  pub now_serving_addr : ℕ

unfoldable pub request : TicketLock → Dut → TicketPc → Request
request l d arriving = Dut.faa d l.next_ticket_addr 1
request l d (waiting my) = Dut.read d l.now_serving_addr
request l d (serving my) = Dut.faa d l.now_serving_addr 1

-- A fetch-and-add and a read answer with a word; no other answer comes.
unfoldable pub resume : TicketPc → Answer → TicketPc
resume arriving (word v) = waiting v
resume (waiting my) (word v) = if v == my then serving my else waiting my
resume (serving my) (word v) = arriving
resume p _ = p

abbrev pub ticket_lock : TicketLock → Client TicketPc
ticket_lock l = record { request = request l; resume = resume }
