-- ===== src/Primitives/LockFreeStack/Frames.antt =====
-- What stays true when another thread moves.
use mesi_cache_coherence.Common.{ℕ, ◌+◌, ◌≤◌, ◌≡◌, refl, List, [], ◌∷◌, some, ap, ap₂, ◌∙◌, arith}
use mesi_cache_coherence.Primitives.LockFreeStack.{
  LockFreeStack, popped, StackPc, push_alloc, push_value, push_read, push_link, push_cas, pop_read,
  pop_next, pop_cas, pop_value,
}
use mesi_cache_coherence.Primitives.LockFreeStack.Nodes.{
  IsNode, owned, PcOk, pending, Chain, All, values,
}

pub All-map : {P Q : ℕ → Type 0} (xs : List ℕ) → ((x : ℕ) → P x → Q x) → All P xs → All Q xs
All-map [] f h = tt
All-map (x ∷ xs) f h = (f x h.0, All-map xs f h.1)

-- `m'` has both words of every node in `P` as `m` has them.
abbrev pub SameNodes : (ℕ → Type 0) → (ℕ → ℕ) → (ℕ → ℕ) → Type 0
SameNodes P m m' = (x : ℕ) → P x → (m' x ≡ m x) × (m' (x + 4) ≡ m (x + 4))

module _ {P : ℕ → Type 0} {m m' : ℕ → ℕ} (same : SameNodes P m m') where
  pub Chain-frame : (p : ℕ) (xs : List ℕ) → All P xs → Chain m p xs → Chain m' p xs
  Chain-frame p [] h chain = chain
  Chain-frame p (x ∷ xs) h chain = (chain.0, rw (same x h.0).0 (Chain-frame (m x) xs h.1 chain.1))

  pub values-frame : (xs : List ℕ) → All P xs → values m' xs ≡ values m xs
  values-frame [] h = refl
  values-frame (x ∷ xs) h = ap₂ ◌∷◌ (same x h.0).1 (values-frame xs h.1)

module _ (l : LockFreeStack) {count count' : ℕ} {P Q : ℕ → Type 0} {m m' : ℕ → ℕ}
    (grows : count ≤ count') (keeps : (x : ℕ) → P x → Q x) (same : SameNodes P m m') where
  pub IsNode-later : (x : ℕ) → IsNode l count x → IsNode l count' x
  IsNode-later x (i, e, low, high) = (i, e, low, omega arith)

  pub PcOk-frame :
      (p : StackPc)
      → ((x : ℕ) → owned p ≡ some x → (m' x ≡ m x) × (m' (x + 4) ≡ m (x + 4)))
      → PcOk l count P m p
      → PcOk l count' Q m' p
  PcOk-frame (push_alloc task value) own h = tt
  PcOk-frame (push_value task value naddr) own h = IsNode-later naddr h
  PcOk-frame (push_read task value naddr) own h = (IsNode-later naddr h.0, (own naddr refl).1 ∙ h.1)
  PcOk-frame (push_link task value naddr old_top) own h =
      (IsNode-later naddr h.0, (own naddr refl).1 ∙ h.1)
  PcOk-frame (push_cas task value naddr old_top) own h =
      (IsNode-later naddr h.0, (own naddr refl).1 ∙ h.1, (own naddr refl).0 ∙ h.2)
  PcOk-frame (pop_read task) own h = tt
  PcOk-frame (pop_next task old_top) own h = keeps old_top h
  PcOk-frame (pop_cas task old_top next) own h = (keeps old_top h.0, (same old_top h.0).0 ∙ h.1)
  PcOk-frame (pop_value task old_top) own h = keeps old_top h

  pub pending-frame : (p : StackPc) → PcOk l count P m p → pending m' p ≡ pending m p
  pending-frame (push_alloc task value) h = refl
  pending-frame (push_value task value naddr) h = refl
  pending-frame (push_read task value naddr) h = refl
  pending-frame (push_link task value naddr old_top) h = refl
  pending-frame (push_cas task value naddr old_top) h = refl
  pending-frame (pop_read task) h = refl
  pending-frame (pop_next task old_top) h = refl
  pending-frame (pop_cas task old_top next) h = refl
  pending-frame (pop_value task old_top) h = ap (λ v. popped v ∷ []) (same old_top h).1
