-- ===== src/Primitives/LockFreeStack/Calls.antt =====
-- Every call keeps the invariant of the stack.
use mesi_cache_coherence.Common.{
  ℕ, ◌+◌, ◌<◌, ◌≡◌, refl, sym, ◌++◌, ◌==◌, ap, ◌∙◌, arith, Bool-cases, inl, inr, beq→eq, pos,
}
use mesi_cache_coherence.Dut.{Dut}
use mesi_cache_coherence.Refinement.Flat.{core_of, apply}
use mesi_cache_coherence.Threads.Protocol.{Protocol, SameOn}
use mesi_cache_coherence.Primitives.LockFreeStack.{
  LockFreeStack, StackPc, request, resume, lockfree_stack, push_alloc, push_value, push_read,
  push_link, push_cas, pop_read, pop_next, pop_cas, pop_value,
}
use mesi_cache_coherence.Primitives.LockFreeStack.Nodes.{
  region, IsApart, results, IsPublished, StackInv,
}
use mesi_cache_coherence.Primitives.LockFreeStack.Frames.{
  SameNodes, pending-frame, PcOk-frame, Chain-frame, values-frame,
}
use mesi_cache_coherence.Primitives.LockFreeStack.Step.{Step, stepped, PcOk-owned}
use mesi_cache_coherence.Primitives.LockFreeStack.Moves.{
  alloc-Step, value-Step, read-Step, link-Step, retry-Step,
}
use mesi_cache_coherence.Primitives.LockFreeStack.Effects.{
  push-Step, empty-Step, top-Step, next-Step, again-Step, pop-Step, out-Step,
}

own : (l : LockFreeStack) (d : Dut) (p : StackPc) → core_of (request l d p) ≡ pos d.core
unfolding request
own l d (push_alloc task value) = refl
own l d (push_value task value naddr) = refl
own l d (push_read task value naddr) = refl
own l d (push_link task value naddr old_top) = refl
own l d (push_cas task value naddr old_top) = refl
own l d (pop_read task) = refl
own l d (pop_next task old_top) = refl
own l d (pop_cas task old_top next) = refl
own l d (pop_value task old_top) = refl

module _ (l : LockFreeStack) {limit : ℕ} (apart : IsApart l limit) {t : ℕ} {m : ℕ → ℕ}
    {pcs : ℕ → StackPc} (inv : StackInv l t m pcs) (room : t < limit) (c : ℕ) where
  -- The call of a thread, wherever it stands.
  call-Step :
      (d : Dut) (p : StackPc)
      → pcs c ≡ p
      → let (m', a) = apply (request l d p) m in Step l inv c m' (resume l p a)
  unfolding request resume apply
  call-Step d (push_alloc task value) at = alloc-Step l apart inv room c task value at
  call-Step d (push_value task value naddr) at = value-Step l apart inv room c task value naddr at
  call-Step d (push_read task value naddr) at = read-Step l apart inv room c task value naddr at
  call-Step d (push_link task value naddr old_top) at =
      link-Step l apart inv room c task value naddr old_top at
  call-Step d (push_cas task value naddr old_top) at = elim (Bool-cases (m l.top_addr == old_top)) [
    | inl same ↦
        rw same (push-Step l apart inv room c task value naddr old_top at (beq→eq _ _ same))
    | inr other ↦ rw other (retry-Step l apart inv room c task value naddr old_top at)
  ]
  call-Step d (pop_read task) at = elim (Bool-cases (m l.top_addr == 0)) [
    | inl none_left ↦ rw none_left (empty-Step l apart inv room c task at (beq→eq _ _ none_left))
    | inr some_left ↦ rw some_left (top-Step l apart inv room c task at (λ e. ground (arith, e)))
  ]
  call-Step d (pop_next task old_top) at = next-Step l apart inv room c task old_top at
  call-Step d (pop_cas task old_top next) at = elim (Bool-cases (m l.top_addr == old_top)) [
    | inl same ↦ rw same (pop-Step l apart inv room c task old_top next at (beq→eq _ _ same))
    | inr other ↦ rw other (again-Step l apart inv room c task old_top next at)
  ]
  call-Step d (pop_value task old_top) at = out-Step l apart inv room c task old_top at

StackInv-frame :
    (l : LockFreeStack) {limit : ℕ} (apart : IsApart l limit) {t : ℕ} {m : ℕ → ℕ} (m' : ℕ → ℕ)
    {pcs : ℕ → StackPc}
    → SameOn (region l) m m'
    → StackInv l t m pcs
    → StackInv l (t + 1) m' pcs
StackInv-frame l apart {m = m} m' {pcs} same inv =
    let nodes : SameNodes (IsPublished l inv.count pcs) m m' = λ x h.
      let (i, at, low, high) = h.node in
      (same x (ground (arith, at)), same (x + 4) (ground (arith, at))) in
    record {
      count = inv.count;
      nodes = inv.nodes;
      history = inv.history;
      counted = same l.alloc_addr (ground arith) ∙ inv.counted;
      small = omega (arith, inv.small);
      chain =
          rw (same l.top_addr (ground arith))
            (Chain-frame nodes (m l.top_addr) inv.nodes inv.shared inv.chain);
      shared = inv.shared;
      threads = λ c.
          PcOk-frame l (omega arith) (λ x h. h) nodes (pcs c)
            (λ x e.
              let (i, at, low, high) = PcOk-owned l _ m (pcs c) (inv.threads c) x e in
              (same x (ground (arith, at)), same (x + 4) (ground (arith, at))))
            (inv.threads c);
      exclusive = inv.exclusive;
      legal = rw (values-frame nodes inv.nodes inv.shared) inv.legal;
      recorded = λ c.
          inv.recorded c
          ∙ ap (λ r. results (pcs c) ++ r)
              (sym (
                pending-frame l {count' = inv.count} (omega arith) (λ x h. h) nodes (pcs c)
                  (inv.threads c)));
    }

pub stack-Protocol :
    (l : LockFreeStack) (n limit : ℕ)
    → IsApart l limit
    → Protocol (lockfree_stack l) n limit (region l) (StackInv l)
stack-Protocol l n limit apart = record {
  own = own l;
  frame = λ t m m' pcs same inv. StackInv-frame l apart m' same inv;
  move = λ t m pcs c room lt inv.
      stepped l inv c _ _ (call-Step l apart inv room c (record { core = c }) (pcs c) refl);
}
