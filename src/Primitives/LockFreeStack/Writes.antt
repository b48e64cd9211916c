-- ===== src/Primitives/LockFreeStack/Writes.antt =====
-- The writes of a thread, and the steps that take no effect on the sequence.
use mesi_cache_coherence.Common.{
  ℕ, ◌+◌, ◌<◌, ◌≡◌, ◌≢◌, ◌⊎◌, inl, inr, refl, sym, [], ◌∷◌, ◌++◌, none, some, ap, ◌∙◌, arith,
  update,
}
use mesi_cache_coherence.Primitives.LockFreeStack.{
  LockFreeStack, StackPc, Task, Outcome, StackOp, push, pop, begin, finish,
}
use mesi_cache_coherence.Primitives.LockFreeStack.Nodes.{
  IsApart, owned, results, IsPublished, PcOk, pending, StackInv,
}
use mesi_cache_coherence.Primitives.LockFreeStack.Frames.{
  SameNodes, Chain-frame, values-frame, PcOk-frame, All-map,
}
use mesi_cache_coherence.Primitives.LockFreeStack.Step.{Step, Owns, PcOk-owned, published-later}

-- A thread that starts an operation owns nothing and has no pop pending.
pub owned-begin : (op : StackOp) (task : Task) → owned (begin op task) ≡ none
unfolding begin
owned-begin (push value) task = refl
owned-begin pop task = refl

pub results-begin : (op : StackOp) (task : Task) → results (begin op task) ≡ task.results
unfolding begin
results-begin (push value) task = refl
results-begin pop task = refl

pub pending-begin : (op : StackOp) (task : Task) (m : ℕ → ℕ) → pending m (begin op task) ≡ []
unfolding begin
pending-begin (push value) task m = refl
pending-begin pop task m = refl

pub PcOk-begin :
    (l : LockFreeStack) (count : ℕ) (P : ℕ → Type 0) (m : ℕ → ℕ) (op : StackOp) (task : Task)
    → PcOk l count P m (begin op task)
unfolding begin
PcOk-begin l count P m (push value) task = tt
PcOk-begin l count P m pop task = tt

module _ (r : Outcome) (task : Task) where
  pub owned-finish : owned (finish r task) ≡ none
  unfolding finish
  owned-finish = owned-begin (task.rest 0) _

  pub results-finish : results (finish r task) ≡ task.results ++ r ∷ []
  unfolding finish
  results-finish = results-begin (task.rest 0) _

  pub pending-finish : (m : ℕ → ℕ) → pending m (finish r task) ≡ []
  unfolding finish
  pending-finish m = pending-begin (task.rest 0) _ m

  pub PcOk-finish :
      (l : LockFreeStack) (count : ℕ) (P : ℕ → Type 0) (m : ℕ → ℕ)
      → PcOk l count P m (finish r task)
  unfolding finish
  PcOk-finish l count P m = PcOk-begin l count P m (task.rest 0) _

module _ (l : LockFreeStack) {t : ℕ} {m : ℕ → ℕ} {pcs : ℕ → StackPc} (inv : StackInv l t m pcs)
    (c : ℕ) where
  abbrev Published : ℕ → Type 0
  Published = IsPublished l inv.count pcs

  -- What the other threads need of a changed memory.
  pub record Spares (m' : ℕ → ℕ) : Type 0 where
    pub nodes : SameNodes Published m m'
    pub owners :
        (d x : ℕ) → d ≢ c → owned (pcs d) ≡ some x → (m' x ≡ m x) × (m' (x + 4) ≡ m (x + 4))

  pub idle : Spares m
  idle = record { nodes = λ x h. (refl, refl); owners = λ d x other e. (refl, refl) }

  -- A word below the nodes.
  pub below : {limit : ℕ} → IsApart l limit → (a v : ℕ) → a < l.node_base → Spares (update m a v)
  below apart a v lt = record {
    nodes = λ x h. let (i, e, _, _) = h.node in (ground arith, ground arith);
    owners = λ d x other e.
        let (i, at, _, _) = PcOk-owned l _ m (pcs d) (inv.threads d) x e in
        (ground arith, ground arith);
  }

  -- A word of the thread's own node.
  pub at_own : (n a v : ℕ) → owned (pcs c) ≡ some n → (a ≡ n) ⊎ (a ≡ n + 4) → Spares (update m a v)
  at_own n a v mine which =
      let (j, at_n, _, _) = PcOk-owned l _ m (pcs c) (inv.threads c) n mine in
      record {
        nodes = λ x h.
            let (i, at, _, _) = h.node in
            let apart : x ≢ n = λ e. h.free c (mine ∙ ap some (sym e)) in
            (ground arith, ground arith);
        owners = λ d x other e.
            let (i, at, _, _) = PcOk-owned l _ m (pcs d) (inv.threads d) x e in
            let apart : x ≢ n = λ same. other (inv.exclusive d c n (e ∙ ap some same) mine) in
            (ground arith, ground arith);
      }

  -- A step without effect on the sequence.
  pub quiet :
      (m' : ℕ → ℕ) (p : StackPc)
      → Spares m'
      → m' l.top_addr ≡ m l.top_addr
      → m' l.alloc_addr ≡ m l.alloc_addr
      → (owned p ≡ none) ⊎ (owned p ≡ owned (pcs c))
      → PcOk l inv.count Published m' p
      → results p ++ pending m' p ≡ results (pcs c) ++ pending m (pcs c)
      → Step l inv c m' p
  quiet m' p spares top alloc keeps good same =
      let owns : Owns l inv c inv.count p = elim keeps [ inl e ↦ inl e | inr e ↦ inr (inl e) ] in
      let later = published-later l inv c p inv.count (omega arith) owns in
      record {
        count' = inv.count;
        nodes' = inv.nodes;
        history' = inv.history;
        grows = omega arith;
        counted' = alloc ∙ inv.counted;
        small' = omega (arith, inv.small);
        owns = owns;
        same = spares.nodes;
        same_owned = spares.owners;
        chain' = rw top (Chain-frame spares.nodes (m l.top_addr) inv.nodes inv.shared inv.chain);
        shared' = All-map inv.nodes later inv.shared;
        thread' =
            PcOk-frame l {m = m'} {m' = m'} (omega arith) later (λ x h. (refl, refl)) p
              (λ x e. (refl, refl)) good;
        legal' = rw (values-frame spares.nodes inv.nodes inv.shared) inv.legal;
        recorded' = inv.recorded c ∙ sym same;
        others = λ d other. refl;
      }
