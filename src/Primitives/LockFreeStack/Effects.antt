-- ===== src/Primitives/LockFreeStack/Effects.antt =====
-- The calls at which an operation of the stack takes effect, and those of a pop.
use mesi_cache_coherence.Common.{
  ℕ, ◌+◌, ◌<◌, ◌≡◌, ◌≢◌, inl, inr, refl, sym, List, [], ◌∷◌, ◌++◌, none, some, ◌==◌, ap, ap₂, ◌∙◌,
  arith, update, subst, u32, Bool-cases, eq→beq, ne→beq,
}
use mathlib.Core.List.{append-nil}
use mesi_cache_coherence.Primitives.LockFreeStack.{
  LockFreeStack, StackPc, Task, Outcome, popped, pushed, empty, finish, push_cas, pop_read,
  pop_next, pop_cas, pop_value,
}
use mesi_cache_coherence.Primitives.LockFreeStack.History.{
  act, of_core, replay-append, of_core-append_self, of_core-append_other,
}
use mesi_cache_coherence.Primitives.LockFreeStack.Nodes.{
  IsApart, owned, results, IsPublished, PcOk, pending, Chain, All, values, StackInv,
}
use mesi_cache_coherence.Primitives.LockFreeStack.Frames.{
  Chain-frame, values-frame, PcOk-frame, All-map,
}
use mesi_cache_coherence.Primitives.LockFreeStack.Step.{Step, published-later}
use mesi_cache_coherence.Primitives.LockFreeStack.Writes.{
  Spares, idle, below, quiet, owned-finish, results-finish, pending-finish, PcOk-finish,
}
use mesi_cache_coherence.Primitives.LockFreeStack.Moves.{
  bottom, first, top_view, good, record_so_far, recorded_at, value_addr,
}

taken : (out : ℕ) (st : List ℕ) → act (popped out) (out ∷ st) ≡ some st
unfolding act
taken out st = rw (eq→beq out out refl) refl

module _ (l : LockFreeStack) {limit : ℕ} (apart : IsApart l limit) {t : ℕ} {m : ℕ → ℕ}
    {pcs : ℕ → StackPc} (inv : StackInv l t m pcs) (room : t < limit) (c : ℕ) where
  -- The thread owns nothing afterwards: what was published still is.
  later :
      (p : StackPc)
      → owned p ≡ none
      → (x : ℕ) → IsPublished l inv.count pcs x
      → IsPublished l inv.count (update pcs c p) x
  later p nothing = published-later l inv c p inv.count (omega arith) (inl nothing)

  -- An operation takes effect: the sequence, the list and the history change together.
  effect :
      (r : Outcome) (m' : ℕ → ℕ) (p : StackPc) (nodes' : List ℕ)
      → owned p ≡ none
      → Spares l inv c m'
      → m' l.alloc_addr ≡ m l.alloc_addr
      → Chain m' (m' l.top_addr) nodes'
      → All (IsPublished l inv.count (update pcs c p)) nodes'
      → PcOk l inv.count (IsPublished l inv.count pcs) m' p
      → act r (values m inv.nodes) ≡ some (values m' nodes')
      → of_core c inv.history ++ r ∷ [] ≡ results p ++ pending m' p
      → Step l inv c m' p
  effect r m' p nodes' nothing spares alloc chain shared ok acts recorded = record {
    count' = inv.count;
    nodes' = nodes';
    history' = inv.history ++ (record { core = c; outcome = r }) ∷ [];
    grows = omega arith;
    counted' = alloc ∙ inv.counted;
    small' = omega (arith, inv.small);
    owns = inl nothing;
    same = spares.nodes;
    same_owned = spares.owners;
    chain' = chain;
    shared' = shared;
    thread' =
        PcOk-frame l {m = m'} {m' = m'} (omega arith) (later p nothing) (λ x h. (refl, refl)) p
          (λ x e. (refl, refl)) ok;
    legal' = replay-append inv.history _ [] inv.legal ∙ acts;
    recorded' = of_core-append_self c r inv.history ∙ recorded;
    others = λ d other. of_core-append_other c r d inv.history (ground (arith, other));
  }

  done_recorded :
      (r : Outcome) (task : Task) (m' : ℕ → ℕ)
      → task.results ++ r ∷ [] ≡ results (finish r task) ++ pending m' (finish r task)
  done_recorded r task m' =
      rw (results-finish r task, pending-finish r task m') (sym (append-nil _))

  so_far :
      (task : Task) {p : StackPc}
      → pcs c ≡ p
      → results p ++ pending m p ≡ task.results ++ []
      → of_core c inv.history ≡ task.results
  so_far task at e = recorded_at l apart inv room c at ∙ e ∙ append-nil _

  -- The end of a push or of a failed pop.
  ended :
      (r : Outcome) (task : Task) (m' : ℕ → ℕ) {p : StackPc}
      → pcs c ≡ p
      → results p ++ pending m p ≡ task.results ++ []
      → of_core c inv.history ++ r ∷ [] ≡ results (finish r task) ++ pending m' (finish r task)
  ended r task m' at e = ap (λ h. h ++ r ∷ []) (so_far task at e) ∙ done_recorded r task m'

  pub push-Step :
      (task : Task) (value naddr old_top : ℕ)
      → pcs c ≡ push_cas task value naddr old_top
      → m l.top_addr ≡ old_top
      → Step l inv c (update m l.top_addr naddr) (finish (pushed value) task)
  push-Step task value naddr old_top at same =
      let ((i, place, low, high), stored, link) = good l apart inv room c at in
      let spares = below l inv c apart l.top_addr naddr apart.top_below in
      let nothing = owned-finish (pushed value) task in
      let m' = update m l.top_addr naddr in
      let new : update m l.top_addr naddr naddr ≡ m l.top_addr =
        ground (arith, apart.top_below, link, same) in
      let now : update m l.top_addr naddr (naddr + 4) ≡ value =
        ground (arith, apart.top_below, stored) in
      effect (pushed value) m' (finish (pushed value) task) (naddr ∷ inv.nodes) nothing spares
        (rw (ne→beq l.alloc_addr l.top_addr (λ e. apart.two (sym e))) refl)
        (
          rw (eq→beq l.top_addr l.top_addr refl) refl,
          rw new (Chain-frame spares.nodes (m l.top_addr) inv.nodes inv.shared inv.chain),
        )
        (
          record {
            node = (i, place, low, high);
            free = λ d e. elim (Bool-cases (d == c)) [
              | inl mine ↦ absurd (ground (arith, nothing, rw mine at e))
              | inr other ↦
                  let it = inv.exclusive d c naddr (rw other at e) (ap owned at) in
                  ground (arith, it)
            ];
          },
          All-map inv.nodes (later _ nothing) inv.shared,
        )
        (PcOk-finish (pushed value) task l inv.count (IsPublished l inv.count pcs) m')
        (unfold act in
          ap some (ap₂ ◌∷◌ (sym now) (sym (values-frame spares.nodes inv.nodes inv.shared))))
        (ended (pushed value) task m' at refl)

  pub empty-Step :
      (task : Task) → pcs c ≡ pop_read task → m l.top_addr ≡ 0 → Step l inv c m (finish empty task)
  empty-Step task at none_left = elim (top_view m (m l.top_addr) inv.nodes inv.chain inv.shared) [
    | bottom e none_there ↦
        effect empty m (finish empty task) [] (owned-finish empty task) (idle l inv c) refl
          none_left tt (PcOk-finish empty task l inv.count (IsPublished l inv.count pcs) m)
          (rw none_there (unfold act in refl)) (ended empty task m at refl)
    | first ys e published chain shared ↦
        let (i, place, low, high) = published.node in absurd (omega (arith, apart.top_below))
  ]

  pub top-Step :
      (task : Task)
      → pcs c ≡ pop_read task
      → m l.top_addr ≢ 0
      → Step l inv c m (pop_next task (m l.top_addr))
  top-Step task at some_left = elim (top_view m (m l.top_addr) inv.nodes inv.chain inv.shared) [
    | bottom e none_there ↦ absurd (some_left e)
    | first ys e published chain shared ↦
        quiet l inv c m _ (idle l inv c) refl refl (inl refl) published
          (record_so_far l apart inv room c at)
  ]

  pub next-Step :
      (task : Task) (old_top : ℕ)
      → pcs c ≡ pop_next task old_top
      → Step l inv c m (pop_cas task old_top (m old_top))
  next-Step task old_top at =
      quiet l inv c m _ (idle l inv c) refl refl (inl refl) (good l apart inv room c at, refl)
        (record_so_far l apart inv room c at)

  pub again-Step :
      (task : Task) (old_top next : ℕ)
      → pcs c ≡ pop_cas task old_top next
      → Step l inv c m (pop_read task)
  again-Step task old_top next at =
      quiet l inv c m _ (idle l inv c) refl refl (inl refl) tt (record_so_far l apart inv room c at)

  pub pop-Step :
      (task : Task) (old_top next : ℕ)
      → pcs c ≡ pop_cas task old_top next
      → m l.top_addr ≡ old_top
      → Step l inv c (update m l.top_addr next) (pop_value task old_top)
  pop-Step task old_top next at same =
      let (published, link) = good l apart inv room c at in
      let (i, place, low, high) = published.node in
      let spares = below l inv c apart l.top_addr next apart.top_below in
      let kept : update m l.top_addr next (old_top + 4) ≡ m (old_top + 4) =
        (spares.nodes old_top published).1 in
      elim (top_view m (m l.top_addr) inv.nodes inv.chain inv.shared) [
        | bottom e none_there ↦ absurd (omega (arith, apart.top_below, same))
        | first ys e here chain shared ↦
            effect (popped (m (old_top + 4))) _ (pop_value task old_top) ys refl spares
              (rw (ne→beq l.alloc_addr l.top_addr (λ e. apart.two (sym e))) refl)
              (rw (eq→beq l.top_addr l.top_addr refl) (
                Chain-frame spares.nodes next ys shared
                  (subst (λ p. Chain m p ys) (ap m same ∙ link) chain)))
              (All-map ys (later (pop_value task old_top) refl) shared) published
              (rw (e, same, values-frame spares.nodes ys shared)
                (taken (m (old_top + 4)) (values m ys)))
              (rw kept (ap (λ h. h ++ popped (m (old_top + 4)) ∷ []) (so_far task at refl)))
      ]

  pub out-Step :
      (task : Task) (old_top : ℕ)
      → pcs c ≡ pop_value task old_top
      → Step l inv c m (finish (popped (m (u32 (old_top + 4)))) task)
  out-Step task old_top at =
      let r = popped (m (u32 (old_top + 4))) in
      let published = good l apart inv room c at in
      let value : m (u32 (old_top + 4)) ≡ m (old_top + 4) =
        ap m (value_addr l apart inv room c old_top published.node) in
      quiet l inv c m (finish r task) (idle l inv c) refl refl (inl (owned-finish r task))
        (PcOk-finish r task l inv.count (IsPublished l inv.count pcs) m)
        (sym (done_recorded r task m)
          ∙ ap (λ v. task.results ++ popped v ∷ []) value
          ∙ record_so_far l apart inv room c at)
