-- ===== src/Primitives/LockFreeStack/Nodes.antt =====
-- The nodes of the stack in memory, and who may touch them.
use mesi_cache_coherence.Common.{
  ℕ, ◌+◌, ◌*◌, ◌^◌, ◌≤◌, ◌<◌, ◌≡◌, ◌≢◌, Bool, List, [], ◌∷◌, ◌++◌, Option, none, some, ◌==◌, leb,
  ◌||◌,
}
use mesi_cache_coherence.Primitives.LockFreeStack.{
  LockFreeStack, Outcome, popped, StackPc, push_alloc, push_value, push_read, push_link, push_cas,
  pop_read, pop_next, pop_cas, pop_value,
}
use mesi_cache_coherence.Primitives.LockFreeStack.History.{Entry, replay, of_core}

-- The two words of the stack, and all from its first node on.
abbrev pub region : LockFreeStack → ℕ → Bool
region l a = a == l.top_addr || (a == l.alloc_addr || leb l.node_base a)

-- The words lie below the nodes, and `limit` nodes fit into the address space.
pub record IsApart (l : LockFreeStack) (limit : ℕ) : Type 0 where
  pub top_below : l.top_addr < l.node_base
  pub alloc_below : l.alloc_addr < l.node_base
  pub two : l.top_addr ≢ l.alloc_addr
  pub fits : l.node_base + 8 * limit + 8 ≤ 2 ^ 32

-- One of the first `count` nodes.
abbrev pub IsNode : LockFreeStack → ℕ → ℕ → Type 0
IsNode l count x = (i : ℕ) × (x ≡ l.node_base + 8 * i) × (1 ≤ i) × (i ≤ count)

-- The node that a thread is about to push.
abbrev pub owned : StackPc → Option ℕ
owned (push_alloc task value) = none
owned (push_value task value naddr) = some naddr
owned (push_read task value naddr) = some naddr
owned (push_link task value naddr old_top) = some naddr
owned (push_cas task value naddr old_top) = some naddr
owned (pop_read task) = none
owned (pop_next task old_top) = none
owned (pop_cas task old_top next) = none
owned (pop_value task old_top) = none

abbrev pub results : StackPc → List Outcome
results (push_alloc task value) = task.results
results (push_value task value naddr) = task.results
results (push_read task value naddr) = task.results
results (push_link task value naddr old_top) = task.results
results (push_cas task value naddr old_top) = task.results
results (pop_read task) = task.results
results (pop_next task old_top) = task.results
results (pop_cas task old_top next) = task.results
results (pop_value task old_top) = task.results

-- A node that was pushed at some time; nobody writes it any more.
pub record IsPublished (l : LockFreeStack) (count : ℕ) (pcs : ℕ → StackPc) (x : ℕ) : Type 0 where
  pub node : IsNode l count x
  pub free : (c : ℕ) → owned (pcs c) ≢ some x

-- What the variables of a thread say of the memory.
abbrev pub PcOk : LockFreeStack → ℕ → (ℕ → Type 0) → (ℕ → ℕ) → StackPc → Type 0
PcOk l count Pub m (push_alloc task value) = Unit
PcOk l count Pub m (push_value task value naddr) = IsNode l count naddr
PcOk l count Pub m (push_read task value naddr) = IsNode l count naddr × (m (naddr + 4) ≡ value)
PcOk l count Pub m (push_link task value naddr old_top) =
    IsNode l count naddr × (m (naddr + 4) ≡ value)
PcOk l count Pub m (push_cas task value naddr old_top) =
    IsNode l count naddr × (m (naddr + 4) ≡ value) × (m naddr ≡ old_top)
PcOk l count Pub m (pop_read task) = Unit
PcOk l count Pub m (pop_next task old_top) = Pub old_top
PcOk l count Pub m (pop_cas task old_top next) = Pub old_top × (m old_top ≡ next)
PcOk l count Pub m (pop_value task old_top) = Pub old_top

-- A pop that has taken its node and not yet read the value.
abbrev pub pending : (ℕ → ℕ) → StackPc → List Outcome
pending m (pop_value task old_top) = popped (m (old_top + 4)) ∷ []
pending m (push_alloc task value) = []
pending m (push_value task value naddr) = []
pending m (push_read task value naddr) = []
pending m (push_link task value naddr old_top) = []
pending m (push_cas task value naddr old_top) = []
pending m (pop_read task) = []
pending m (pop_next task old_top) = []
pending m (pop_cas task old_top next) = []

-- The linked list from a pointer on, its nodes and its values.
abbrev pub Chain : (ℕ → ℕ) → ℕ → List ℕ → Type 0
Chain m p [] = p ≡ 0
Chain m p (x ∷ xs) = (p ≡ x) × Chain m (m x) xs

abbrev pub All : (ℕ → Type 0) → List ℕ → Type 0
All P [] = Unit
All P (x ∷ xs) = P x × All P xs

abbrev pub values : (ℕ → ℕ) → List ℕ → List ℕ
values m [] = []
values m (x ∷ xs) = m (x + 4) ∷ values m xs

-- The list at `top` holds what the history leaves, and each thread has had its part of it.
pub record StackInv (l : LockFreeStack) (t : ℕ) (m : ℕ → ℕ) (pcs : ℕ → StackPc) : Type 0 where
  pub count : ℕ
  pub nodes : List ℕ
  pub history : List Entry
  pub counted : m l.alloc_addr ≡ count
  pub small : count ≤ t
  pub chain : Chain m (m l.top_addr) nodes
  pub shared : All (IsPublished l count pcs) nodes
  pub threads : (c : ℕ) → PcOk l count (IsPublished l count pcs) m (pcs c)
  pub exclusive : (c d x : ℕ) → owned (pcs c) ≡ some x → owned (pcs d) ≡ some x → c ≡ d
  pub legal : replay history [] ≡ some (values m nodes)
  pub recorded : (c : ℕ) → of_core c history ≡ results (pcs c) ++ pending m (pcs c)
