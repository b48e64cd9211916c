-- ===== src/Primitives/LockFreeStack.antt =====
-- primitives/lockfree_stack.hpp: the Treiber stack, as the calls that its threads make.
pub mod History
pub mod Nodes
pub mod Frames
pub mod Step
pub mod Writes
pub mod Moves
pub mod Effects
pub mod Calls
pub mod Guarantees
use mesi_cache_coherence.Common.{ℕ, ◌+◌, ◌*◌, true, List, [], ◌∷◌, ◌++◌, u32, if◌then◌else◌, ◌==◌}
use mesi_cache_coherence.Dut.{Dut}
use mesi_cache_coherence.Dut
use mesi_cache_coherence.Refinement.Flat.{Request, Answer, done, word, swapped}
use mesi_cache_coherence.Threads.{Client}

pub record LockFreeStack : Type 0 where
  pub top_addr : ℕ
  pub alloc_addr : ℕ
  pub node_base : ℕ

-- `init`, as the calls that it makes.
unfoldable pub init : LockFreeStack → Dut → List Request
init l d = Dut.write d l.top_addr 0 ∷ Dut.write d l.alloc_addr 0 ∷ []

-- A call of `push` or `pop`, and how it ended.
pub data StackOp : Type 0 where
  push : (value : ℕ) → StackOp
  pop : StackOp

pub data Outcome : Type 0 where
  pushed : (value : ℕ) → Outcome
  popped : (out : ℕ) → Outcome
  empty : Outcome

-- What a thread will call after the operation at hand, and how its operations ended so far.
pub record Task : Type 0 where
  pub rest : ℕ → StackOp
  pub results : List Outcome

-- A program counter is named for the call that comes next, and carries the local variables.
pub data StackPc : Type 0 where
  push_alloc : (task : Task) (value : ℕ) → StackPc
  push_value : (task : Task) (value naddr : ℕ) → StackPc
  push_read : (task : Task) (value naddr : ℕ) → StackPc
  push_link : (task : Task) (value naddr old_top : ℕ) → StackPc
  push_cas : (task : Task) (value naddr old_top : ℕ) → StackPc
  pop_read : (task : Task) → StackPc
  pop_next : (task : Task) (old_top : ℕ) → StackPc
  pop_cas : (task : Task) (old_top next : ℕ) → StackPc
  pop_value : (task : Task) (old_top : ℕ) → StackPc

-- The thread calls its next operation.
unfoldable pub begin : StackOp → Task → StackPc
begin (push value) task = push_alloc task value
begin pop task = pop_read task

-- An operation ends, and the next begins.
unfoldable pub finish : Outcome → Task → StackPc
unfolding begin
finish r task =
    begin (task.rest 0) (record { rest = λ k. task.rest (k + 1); results = task.results ++ r ∷ [] })

module _ (l : LockFreeStack) where
  unfoldable pub request : Dut → StackPc → Request
  request d (push_alloc task value) = Dut.faa d l.alloc_addr 1
  request d (push_value task value naddr) = Dut.write d (u32 (naddr + 4)) value
  request d (push_read task value naddr) = Dut.read d l.top_addr
  request d (push_link task value naddr old_top) = Dut.write d naddr old_top
  request d (push_cas task value naddr old_top) = Dut.cas d l.top_addr old_top naddr
  request d (pop_read task) = Dut.read d l.top_addr
  request d (pop_next task old_top) = Dut.read d old_top
  request d (pop_cas task old_top next) = Dut.cas d l.top_addr old_top next
  request d (pop_value task old_top) = Dut.read d (u32 (old_top + 4))

  -- The node that an allocation gave, by the counter's old value.
  unfoldable pub node_addr : ℕ → ℕ
  node_addr counter = u32 (l.node_base + u32 (counter + 1) * 8)

  -- Each call has an answer of one kind; no other comes.
  unfoldable pub resume : StackPc → Answer → StackPc
  unfolding node_addr finish
  resume (push_alloc task value) (word counter) = push_value task value (node_addr counter)
  resume (push_value task value naddr) done = push_read task value naddr
  resume (push_read task value naddr) (word old_top) = push_link task value naddr old_top
  resume (push_link task value naddr old_top) done = push_cas task value naddr old_top
  resume (push_cas task value naddr old_top) (swapped old_val success) =
      if success then finish (pushed value) task else push_read task value naddr
  resume (pop_read task) (word old_top) =
      if old_top == 0 then finish empty task else pop_next task old_top
  resume (pop_next task old_top) (word next) = pop_cas task old_top next
  resume (pop_cas task old_top next) (swapped old_val success) =
      if success then pop_value task old_top else pop_read task
  resume (pop_value task old_top) (word out) = finish (popped out) task
  resume p _ = p

  abbrev pub lockfree_stack : Client StackPc
  lockfree_stack = record { request = request; resume = resume }
