-- ===== src/Examples/Stacks.antt =====
-- Three threads at a Treiber stack: two push, the third pops.
use mesi_cache_coherence.Common.{
  ℕ, ◌+◌, ◌*◌, ◌≡◌, refl, List, [], ◌∷◌, ◌++◌, arith, some, ◌==◌, if◌then◌else◌,
}
use mesi_cache_coherence.System.{MesiSystem}
use mesi_cache_coherence.Threads.{Event, turn, plays, play}
use mesi_cache_coherence.Threads.Protocol.{all_avoid}
use mesi_cache_coherence.Refinement.Serve.{run}
use mesi_cache_coherence.Primitives.LockFreeStack
use mesi_cache_coherence.Primitives.LockFreeStack.{
  LockFreeStack, StackPc, StackOp, push, pop, popped, empty, pushed, Outcome, lockfree_stack, begin,
  finish, node_addr, push_alloc, push_cas,
}
use mesi_cache_coherence.Primitives.LockFreeStack.Nodes.{IsApart, results}
use mesi_cache_coherence.Primitives.LockFreeStack.History.{Entry, replay}
use mesi_cache_coherence.Primitives.LockFreeStack.Guarantees.{starting, IsRecorded, one_history}
use mesi_cache_coherence.Examples.Setup.{rotating, system_of, init_three, after}

abbrev shared : LockFreeStack
shared = record { top_addr = 0x100; alloc_addr = 0x140; node_base = 0x1000 }

-- Core 2 pops again and again, the others push their numbers.
abbrev ops : ℕ → ℕ → StackOp
ops core k = if core == 2 then pop else push (10 * core + k)

abbrev turns : ℕ → ℕ → List Event
turns core Prim.Native.Nat.zero = []
turns core (Prim.Native.Nat.suc k) = turn core ∷ turns core k

-- Core 2 finds the stack empty. Core 0 is before its cas when core 1 pushes, so that it tries again;
-- then core 2 pops what core 0 pushed.
abbrev contended : List Event
contended = turns 2 1 ++ turns 0 4 ++ turns 1 5 ++ turns 0 4 ++ turns 2 4

abbrev started : MesiSystem
started = (run (LockFreeStack.init shared (record { core = 0 })) (system_of 3)).0

unfoldable threads : List Event → ℕ → StackPc
unfolding after plays play LockFreeStack.request LockFreeStack.resume LockFreeStack.init begin
    finish node_addr starting
threads es = (plays (lockfree_stack shared) es started (starting ops)).1

told :
    (results (threads contended 0) ≡ pushed 0 ∷ [])
    × (results (threads contended 1) ≡ pushed 10 ∷ [])
    × (results (threads contended 2) ≡ empty ∷ popped 0 ∷ [])
unfolding threads
told = (refl, refl, refl)

shared-IsApart : IsApart shared 18
shared-IsApart = record {
  top_below = omega arith;
  alloc_below = omega arith;
  two = λ e. omega arith;
  fits = omega arith;
}

one_history_example :
    (history : List Entry) × (st : List ℕ) × (replay history [] ≡ some st)
    × ((c : ℕ)
        → IsRecorded c history
            ((plays (lockfree_stack shared) contended started (starting ops)).1 c))
unfolding all_avoid
one_history_example =
    one_history shared contended shared-IsApart refl 3 (system_of 3) init_three
      (record { core = 0 }) ops
