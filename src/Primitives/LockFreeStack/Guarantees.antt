-- ===== src/Primitives/LockFreeStack/Guarantees.antt =====
-- What the stack promises to the threads that share it.
use mesi_cache_coherence.Common.{
  ℕ, ◌+◌, ◌≡◌, refl, List, [], ◌∷◌, ◌++◌, some, ◌∙◌, arith, inl, inr, true, ◌⊎◌, length, pos, ok,
}
use mesi_cache_coherence.Bus.{RandomEngine}
use mesi_cache_coherence.System.{MesiSystem}
use mesi_cache_coherence.System
use mesi_cache_coherence.Dut.{Dut}
use mesi_cache_coherence.Refinement.Flat.{apply, flat_step, flat_run}
use mesi_cache_coherence.Refinement.Runs.{init-Represents, run-Represents}
use mesi_cache_coherence.Refinement.Serve.{run}
use mathlib.Core.List.{append-nil}
use mesi_cache_coherence.Threads.{Event, plays}
use mesi_cache_coherence.Threads.Protocol.{Reached, plays-Reached, all_avoid}
use mesi_cache_coherence.Primitives.LockFreeStack.{
  LockFreeStack, StackPc, StackOp, popped, init, begin, lockfree_stack, push_alloc, push_value,
  push_read, push_link, push_cas, pop_read, pop_next, pop_cas, pop_value,
}
use mesi_cache_coherence.Primitives.LockFreeStack.History.{Entry, replay, of_core}
use mesi_cache_coherence.Primitives.LockFreeStack.Nodes.{
  region, IsApart, results, pending, values, StackInv,
}
use mesi_cache_coherence.Primitives.LockFreeStack.Writes.{
  owned-begin, results-begin, pending-begin, PcOk-begin,
}
use mesi_cache_coherence.Primitives.LockFreeStack.Calls.{stack-Protocol}

-- Each thread at the start of its operations.
unfoldable pub starting : (ℕ → ℕ → StackOp) → ℕ → StackPc
unfolding begin
starting ops c = begin (ops c 0) (record { rest = λ k. ops c (k + 1); results = [] })

starting-StackInv :
    (l : LockFreeStack) (ops : ℕ → ℕ → StackOp) (m : ℕ → ℕ)
    → m l.top_addr ≡ 0
    → m l.alloc_addr ≡ 0
    → StackInv l 0 m (starting ops)
unfolding starting
starting-StackInv l ops m top alloc = record {
  count = 0;
  nodes = [];
  history = [];
  counted = alloc;
  small = omega arith;
  chain = top;
  shared = tt;
  threads = λ c. PcOk-begin l 0 _ m (ops c 0) _;
  exclusive = λ c d x e. absurd (ground (arith, owned-begin (ops c 0) _));
  legal = unfold replay in refl;
  recorded =
      λ c. unfold of_core in rw (results-begin (ops c 0) _, pending-begin (ops c 0) _ m) refl;
}

-- The history has what the thread was told, and perhaps a pop that has not returned yet.
abbrev pub IsRecorded : ℕ → List Entry → StackPc → Type 0
IsRecorded c history p =
    (of_core c history ≡ results p)
    ⊎ ((out : ℕ) × (of_core c history ≡ results p ++ popped out ∷ []))

pending-IsRecorded :
    (c : ℕ) (history : List Entry) (m : ℕ → ℕ) (p : StackPc)
    → of_core c history ≡ results p ++ pending m p
    → IsRecorded c history p
pending-IsRecorded c history m (push_alloc task value) e = inl (e ∙ append-nil _)
pending-IsRecorded c history m (push_value task value naddr) e = inl (e ∙ append-nil _)
pending-IsRecorded c history m (push_read task value naddr) e = inl (e ∙ append-nil _)
pending-IsRecorded c history m (push_link task value naddr old_top) e = inl (e ∙ append-nil _)
pending-IsRecorded c history m (push_cas task value naddr old_top) e = inl (e ∙ append-nil _)
pending-IsRecorded c history m (pop_read task) e = inl (e ∙ append-nil _)
pending-IsRecorded c history m (pop_next task old_top) e = inl (e ∙ append-nil _)
pending-IsRecorded c history m (pop_cas task old_top next) e = inl (e ∙ append-nil _)
pending-IsRecorded c history m (pop_value task old_top) e = inr (m (old_top + 4), e)

module _ ⦃std : RandomEngine⦄ (l : LockFreeStack) (es : List Event) (apart : IsApart l (length es))
    (avoided : all_avoid (region l) es ≡ true) (count : ℕ) (fresh_system : MesiSystem)
    (fresh : System.init (pos count) ≡ ok fresh_system) (d : Dut) (ops : ℕ → ℕ → StackOp) where
  -- The system once `init` has run on some core.
  abbrev initialised : MesiSystem
  initialised = (run (init l d) fresh_system).0

  abbrev reached : MesiSystem × (ℕ → StackPc)
  reached = plays (lockfree_stack l) es initialised (starting ops)

  final-StackInv :
      (t' : ℕ) × Reached (stack-Protocol l count (length es) apart) t' reached.0 reached.1
  unfolding init flat_run flat_step apply
  final-StackInv =
      plays-Reached (stack-Protocol l count (length es) apart) es 0 initialised (starting ops)
        (omega arith) avoided
        (record {
          flat = (flat_run count (init l d) (λ _. 0)).0;
          memory = (run-Represents (init l d) (init-Represents fresh)).0;
          inv = starting-StackInv l ops _ (ground arith) (ground arith);
        })

  -- After `init` on a fresh system, threads on any cores that each push and pop as they like, in
  -- any schedule whose other calls write no word of the stack and for which the address space has
  -- nodes enough, above the two words of the stack, which differ: there is one sequence of
  -- operations, legal for a stack that starts empty, in which each thread finds all its operations
  -- that have returned, in its order and with their results, and besides at most one pop that has
  -- not returned.
  pub one_history :
      (history : List Entry) × (st : List ℕ) × (replay history [] ≡ some st)
      × ((c : ℕ) → IsRecorded c history (reached.1 c))
  one_history =
      let (_, r) = final-StackInv in
      (
        r.inv.history,
        values r.flat r.inv.nodes,
        r.inv.legal,
        λ c. pending-IsRecorded c r.inv.history r.flat (reached.1 c) (r.inv.recorded c),
      )
