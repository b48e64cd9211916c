-- ===== src/Primitives/LockFreeStack/Step.antt =====
-- One thread moves: what it has to show for the stack as a whole to stay right.
use mesi_cache_coherence.Common.{
  ℕ, ◌+◌, ◌*◌, ◌≤◌, ◌<◌, ◌≡◌, ◌≢◌, ◌⊎◌, inl, inr, sym, List, [], ◌++◌, none, some, false, ◌==◌, ◌∙◌,
  arith, update, Bool-cases, beq→eq, subst,
}
use mesi_cache_coherence.Primitives.LockFreeStack.{
  LockFreeStack, StackPc, push_alloc, push_value, push_read, push_link, push_cas, pop_read,
  pop_next, pop_cas, pop_value,
}
use mesi_cache_coherence.Primitives.LockFreeStack.History.{Entry, replay, of_core}
use mesi_cache_coherence.Primitives.LockFreeStack.Nodes.{
  IsNode, owned, results, IsPublished, PcOk, pending, Chain, All, values, StackInv,
}
use mesi_cache_coherence.Primitives.LockFreeStack.Frames.{SameNodes, PcOk-frame, pending-frame}

-- An owner knows its node.
pub PcOk-owned :
    (l : LockFreeStack) {count : ℕ} (P : ℕ → Type 0) (m : ℕ → ℕ) (p : StackPc)
    → PcOk l count P m p
    → (x : ℕ) → owned p ≡ some x
    → IsNode l count x
PcOk-owned l P m (push_alloc task value) h x e = absurd (ground arith)
PcOk-owned l {count} P m (push_value task value naddr) h x e =
    let same : naddr ≡ x = cc in subst (IsNode l count) same h
PcOk-owned l {count} P m (push_read task value naddr) h x e =
    let same : naddr ≡ x = cc in subst (IsNode l count) same h.0
PcOk-owned l {count} P m (push_link task value naddr old_top) h x e =
    let same : naddr ≡ x = cc in subst (IsNode l count) same h.0
PcOk-owned l {count} P m (push_cas task value naddr old_top) h x e =
    let same : naddr ≡ x = cc in subst (IsNode l count) same h.0
PcOk-owned l P m (pop_read task) h x e = absurd (ground arith)
PcOk-owned l P m (pop_next task old_top) h x e = absurd (ground arith)
PcOk-owned l P m (pop_cas task old_top next) h x e = absurd (ground arith)
PcOk-owned l P m (pop_value task old_top) h x e = absurd (ground arith)

module _ (l : LockFreeStack) {t : ℕ} {m : ℕ → ℕ} {pcs : ℕ → StackPc}
    (inv : StackInv l t m pcs) where
  -- What a thread owns afterwards: nothing, what it owned, or a new node.
  abbrev pub Owns : ℕ → ℕ → StackPc → Type 0
  Owns c count' p =
      (owned p ≡ none)
      ⊎ ((owned p ≡ owned (pcs c))
          ⊎ ((owned p ≡ some (l.node_base + 8 * count')) × (inv.count < count')))

  pub record Step (c : ℕ) (m' : ℕ → ℕ) (p : StackPc) : Type 0 where
    pub count' : ℕ
    pub nodes' : List ℕ
    pub history' : List Entry
    pub grows : inv.count ≤ count'
    pub counted' : m' l.alloc_addr ≡ count'
    pub small' : count' ≤ t + 1
    pub owns : Owns c count' p
    pub same : SameNodes (IsPublished l inv.count pcs) m m'
    pub same_owned :
        (d x : ℕ) → d ≢ c → owned (pcs d) ≡ some x → (m' x ≡ m x) × (m' (x + 4) ≡ m (x + 4))
    pub chain' : Chain m' (m' l.top_addr) nodes'
    pub shared' : All (IsPublished l count' (update pcs c p)) nodes'
    pub thread' : PcOk l count' (IsPublished l count' (update pcs c p)) m' p
    pub legal' : replay history' [] ≡ some (values m' nodes')
    pub recorded' : of_core c history' ≡ results p ++ pending m' p
    pub others : (d : ℕ) → d ≢ c → of_core d history' ≡ of_core d inv.history

  owned-IsNode : (d x : ℕ) → owned (pcs d) ≡ some x → IsNode l inv.count x
  owned-IsNode d x e = PcOk-owned l _ m (pcs d) (inv.threads d) x e

  module _ (c : ℕ) (p : StackPc) (count' : ℕ) (grows : inv.count ≤ count')
      (owns : Owns c count' p) where
    -- Nobody comes to own a node that was counted before, but its owner.
    not_new : (x : ℕ) → IsNode l inv.count x → owned p ≡ some x → owned (pcs c) ≡ some x
    not_new x node e = elim owns [
      | inl nothing ↦ cc
      | inr (inl old) ↦ sym old ∙ e
      | inr (inr (new, more)) ↦
          let there : l.node_base + 8 * count' ≡ x = cc in
          absurd (omega (arith, there, node.1, node.3, more))
    ]

    -- What is published stays so.
    pub published-later :
        (x : ℕ) → IsPublished l inv.count pcs x → IsPublished l count' (update pcs c p) x
    published-later x h = record {
      node = (h.node.0, h.node.1, h.node.2, omega (arith, h.node.3));
      free = λ d e. elim (Bool-cases (d == c)) [
        | inl mine ↦ h.free c (not_new x h.node (rw mine at e))
        | inr other ↦ h.free d (rw other at e)
      ];
    }

    alone : (d x : ℕ) → (d == c) ≡ false → owned (pcs d) ≡ some x → owned p ≡ some x → ⊥
    alone d x other e mine =
        let same = inv.exclusive d c x e (not_new x (owned-IsNode d x e) mine) in
        ground (arith, same)

    exclusive' :
        (d e x : ℕ) → owned (update pcs c p d) ≡ some x → owned (update pcs c p e) ≡ some x → d ≡ e
    exclusive' d e x hd he = elim (Bool-cases (d == c)) [
      | inl mine ↦ elim (Bool-cases (e == c)) [
        | inl too ↦ beq→eq d c mine ∙ sym (beq→eq e c too)
        | inr other ↦ absurd (alone e x other (rw other at he) (rw mine at hd))
      ]
      | inr not_mine ↦ elim (Bool-cases (e == c)) [
        | inl too ↦ absurd (alone d x not_mine (rw not_mine at hd) (rw too at he))
        | inr other ↦ inv.exclusive d e x (rw not_mine at hd) (rw other at he)
      ]
    ]

  pub stepped :
      (c : ℕ) (m' : ℕ → ℕ) (p : StackPc) → Step c m' p → StackInv l (t + 1) m' (update pcs c p)
  stepped c m' p s = record {
    count = s.count';
    nodes = s.nodes';
    history = s.history';
    counted = s.counted';
    small = s.small';
    chain = s.chain';
    shared = s.shared';
    threads = λ d. elim (Bool-cases (d == c)) [
      | inl mine ↦ rw mine s.thread'
      | inr other ↦ rw other (
          PcOk-frame l s.grows (published-later c p s.count' s.grows s.owns) s.same (pcs d)
            (λ x e. s.same_owned d x (λ h. ground (arith, h)) e) (inv.threads d))
    ];
    exclusive = exclusive' c p s.count' s.grows s.owns;
    legal = s.legal';
    recorded = λ d. elim (Bool-cases (d == c)) [
      | inl mine ↦ rw (mine, beq→eq d c mine) s.recorded'
      | inr other ↦
          rw
            (
              other,
              pending-frame l s.grows (published-later c p s.count' s.grows s.owns) s.same (pcs d)
                  (inv.threads d),
            )
            (s.others d (λ h. ground (arith, h)) ∙ inv.recorded d)
    ];
  }
