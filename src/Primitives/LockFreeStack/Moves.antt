-- ===== src/Primitives/LockFreeStack/Moves.antt =====
-- Each call of a thread of the stack, as a step.
use mesi_cache_coherence.Common.{
  ℕ, ◌+◌, ◌*◌, ◌<◌, ◌≡◌, inl, inr, refl, sym, List, [], ◌∷◌, ◌++◌, some, ap, ◌∙◌, arith, update,
  subst, u32, ne→beq,
}
use mesi_cache_coherence.Primitives.LockFreeStack.{
  LockFreeStack, StackPc, Task, node_addr, push_alloc, push_value, push_read, push_link, push_cas,
}
use mesi_cache_coherence.Primitives.LockFreeStack.History.{of_core}
use mesi_cache_coherence.Primitives.LockFreeStack.Nodes.{
  IsApart, IsNode, owned, results, IsPublished, PcOk, pending, Chain, All, StackInv,
}
use mesi_cache_coherence.Primitives.LockFreeStack.Frames.{Chain-frame, values-frame, All-map}
use mesi_cache_coherence.Primitives.LockFreeStack.Step.{Step, Owns, published-later}
use mesi_cache_coherence.Primitives.LockFreeStack.Writes.{idle, below, at_own, quiet}

-- The list is empty, or its first node is published and the rest is a list.
pub data TopView (P : ℕ → Type 0) (m : ℕ → ℕ) (p : ℕ) (xs : List ℕ) : Type 0 where
  bottom : p ≡ 0 → xs ≡ [] → TopView P m p xs
  first : (ys : List ℕ) → xs ≡ p ∷ ys → P p → Chain m (m p) ys → All P ys → TopView P m p xs

pub top_view :
    {P : ℕ → Type 0} (m : ℕ → ℕ) (p : ℕ) (xs : List ℕ) → Chain m p xs → All P xs → TopView P m p xs
top_view m p [] chain h = bottom chain refl
top_view {P} m p (x ∷ xs) chain h =
    first xs (ap (λ y. y ∷ xs) (sym chain.0)) (subst P (sym chain.0) h.0)
      (subst (λ y. Chain m (m y) xs) (sym chain.0) chain.1) h.1

module _ (l : LockFreeStack) {limit : ℕ} (apart : IsApart l limit) {t : ℕ} {m : ℕ → ℕ}
    {pcs : ℕ → StackPc} (inv : StackInv l t m pcs) (room : t < limit) (c : ℕ) where
  abbrev pub Pub : ℕ → Type 0
  Pub = IsPublished l inv.count pcs

  -- The addresses of a node do not wrap.
  pub value_addr : (x : ℕ) → IsNode l inv.count x → u32 (x + 4) ≡ x + 4
  value_addr x (i, e, low, high) = omega (arith, inv.small, apart.fits, room)

  fresh_addr : node_addr l (m l.alloc_addr) ≡ l.node_base + 8 * (inv.count + 1)
  unfolding node_addr
  fresh_addr = omega (arith, inv.counted, inv.small, apart.fits, room)

  module _ {p : StackPc} (at : pcs c ≡ p) where
    pub good : PcOk l inv.count Pub m p
    good = subst (PcOk l inv.count Pub m) at (inv.threads c)

    pub record_so_far : results p ++ pending m p ≡ results (pcs c) ++ pending m (pcs c)
    record_so_far = ap (λ q. results q ++ pending m q) (sym at)

    pub recorded_at : of_core c inv.history ≡ results p ++ pending m p
    recorded_at = inv.recorded c ∙ sym record_so_far

  pub alloc-Step :
      (task : Task) (value : ℕ)
      → pcs c ≡ push_alloc task value
      → Step l inv c
          (update m l.alloc_addr (u32 (m l.alloc_addr + 1)))
          (push_value task value (node_addr l (m l.alloc_addr)))
  alloc-Step task value at =
      let owns : Owns l inv c (inv.count + 1)
          (push_value task value (node_addr l (m l.alloc_addr))) =
        inr (inr (ap some fresh_addr, omega arith)) in
      let spares = below l inv c apart l.alloc_addr (u32 (m l.alloc_addr + 1)) apart.alloc_below in
      record {
        count' = inv.count + 1;
        nodes' = inv.nodes;
        history' = inv.history;
        grows = omega arith;
        counted' = ground (arith, inv.counted, inv.small, apart.fits, room);
        small' = omega (arith, inv.small);
        owns = owns;
        same = spares.nodes;
        same_owned = spares.owners;
        chain' =
            rw (ne→beq l.top_addr l.alloc_addr apart.two)
              (Chain-frame spares.nodes (m l.top_addr) inv.nodes inv.shared inv.chain);
        shared' =
            All-map inv.nodes (published-later l inv c _ (inv.count + 1) (omega arith) owns)
              inv.shared;
        thread' = (inv.count + 1, fresh_addr, omega arith, omega arith);
        legal' = rw (values-frame spares.nodes inv.nodes inv.shared) inv.legal;
        recorded' = recorded_at at;
        others = λ d other. refl;
      }

  pub value-Step :
      (task : Task) (value naddr : ℕ)
      → pcs c ≡ push_value task value naddr
      → Step l inv c (update m (u32 (naddr + 4)) value) (push_read task value naddr)
  value-Step task value naddr at =
      let (i, e, low, high) = good at in
      rw (value_addr naddr (good at)) (
        quiet l inv c _ (push_read task value naddr)
          (at_own l inv c naddr (naddr + 4) value (ap owned at) (inr refl))
          (ground (arith, apart.top_below)) (ground (arith, apart.alloc_below))
          (inr (ap owned (sym at))) (good at, ground arith) (record_so_far at))

  pub read-Step :
      (task : Task) (value naddr : ℕ)
      → pcs c ≡ push_read task value naddr
      → Step l inv c m (push_link task value naddr (m l.top_addr))
  read-Step task value naddr at =
      quiet l inv c m _ (idle l inv c) refl refl (inr (ap owned (sym at))) (good at)
        (record_so_far at)

  pub link-Step :
      (task : Task) (value naddr old_top : ℕ)
      → pcs c ≡ push_link task value naddr old_top
      → Step l inv c (update m naddr old_top) (push_cas task value naddr old_top)
  link-Step task value naddr old_top at =
      let ((i, e, low, high), stored) = good at in
      quiet l inv c _ (push_cas task value naddr old_top)
        (at_own l inv c naddr naddr old_top (ap owned at) (inl refl))
        (ground (arith, apart.top_below)) (ground (arith, apart.alloc_below))
        (inr (ap owned (sym at))) ((i, e, low, high), ground (arith, stored), ground arith)
        (record_so_far at)

  pub retry-Step :
      (task : Task) (value naddr old_top : ℕ)
      → pcs c ≡ push_cas task value naddr old_top
      → Step l inv c m (push_read task value naddr)
  retry-Step task value naddr old_top at =
      let (node, stored, _) = good at in
      quiet l inv c m _ (idle l inv c) refl refl (inr (ap owned (sym at))) (node, stored)
        (record_so_far at)
