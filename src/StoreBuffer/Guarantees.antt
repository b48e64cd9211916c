-- ===== src/StoreBuffer/Guarantees.antt =====
-- What a core may rely on behind its store buffer.
use mesi_cache_coherence.Common.{
  ℕ, ◌≡◌, refl, sym, ap, ◌∙◌, pos, update, get_or, Returns, Returns-bind, Returns-map, Option-cases,
  inl, inr, List, [], ◌∷◌, none, reverse,
}
use mesi_cache_coherence.Bus.{RandomEngine}
use mesi_cache_coherence.System.{MesiSystem}
use mesi_cache_coherence.System
use mesi_cache_coherence.Refinement.Locked.{Represents}
use mesi_cache_coherence.StoreBuffer.{
  SbEntry, StoreBuffer, commit, load, fence_round, fence_entries, mfence, find_entry,
}
use mesi_cache_coherence.StoreBuffer.View.{store_all, find_entry-store_all}
use mesi_cache_coherence.StoreBuffer.Commit.{read-Returns, count_drain-Represents}
use mesi_cache_coherence.StoreBuffer.Operations.{Ready, Leaves, taken-Returns}

module _ ⦃std : RandomEngine⦄ {n : ℕ} {m : ℕ → ℕ} {sb : StoreBuffer} {s : MesiSystem}
    (r : Ready n m sb s) where
  from_memory :
      (addr : ℕ)
      → find_entry addr (reverse sb.buf) ≡ none
      → (a : MesiSystem × ℕ) → Represents n m a.0 × (a.1 ≡ m addr)
      → Leaves n m sb.buf sb (sb, a.0) × (a.1 ≡ store_all sb.buf m addr)
  from_memory addr missing a h = (
    record {
      ready = record { memory = h.0; there = r.there };
      left = refl;
      mode = refl;
      depth = refl;
    },
    h.1 ∙ ap (λ o. get_or o (m addr)) (sym missing) ∙ find_entry-store_all addr sb.buf m,
  )

  -- On a coherent system, a load of a core that exists returns what the core sees, and leaves
  -- buffer and memory as they are.
  pub load-Returns :
      (addr : ℕ)
      → Returns
          (load addr sb s)
          (λ p. Leaves n m sb.buf sb (p.0, p.1) × (p.2 ≡ store_all sb.buf m addr))
  unfolding load
  load-Returns addr = elim (Option-cases (find_entry addr (reverse sb.buf))) [
    | inl missing ↦
        rw (missing, load)
          (Returns-bind _ _ (System.read (pos sb.core) addr s) _
            (read-Returns r.memory sb.core r.there addr) (from_memory addr missing))
    | inr (v, found) ↦
        rw (found, load)
          (
            record {
              ready = record { memory = r.memory; there = r.there };
              left = refl;
              mode = refl;
              depth = refl;
            },
            ap (λ o. get_or o (m addr)) (sym found) ∙ find_entry-store_all addr sb.buf m,
          )
  ]

  -- A round of a fence: the front entry arrives.
  pub fence_round-Returns :
      (e : SbEntry) (rest : List SbEntry)
      → Returns (fence_round e rest sb s) (Leaves n (update m e.addr e.val) rest sb)
  unfolding fence_round
  fence_round-Returns e rest =
      Returns-bind (Leaves n (update m e.addr e.val) rest sb) _
        (commit e (record sb { buf = rest }) s) _ (taken-Returns r e rest sb.rng)
        (λ p l. record {
          ready = record {
            memory = count_drain-Represents sb.core l.ready.memory;
            there = l.ready.there;
          };
          left = l.left;
          mode = l.mode;
          depth = l.depth;
        })

-- The loop of a fence.
fence_entries-Returns :
    ⦃std : RandomEngine⦄ (es : List SbEntry) {n : ℕ} {m : ℕ → ℕ} {sb : StoreBuffer} {s : MesiSystem}
    → Ready n m sb s
    → sb.buf ≡ es
    → Returns (fence_entries es sb s) (Leaves n (store_all es m) [] sb)
unfolding fence_entries store_all
fence_entries-Returns [] r b = record { ready = r; left = b; mode = refl; depth = refl }
fence_entries-Returns (e ∷ rest) {n} {m} {sb} {s} r b =
    Returns-bind (Leaves n (update m e.addr e.val) rest sb)
      (Leaves n (store_all rest (update m e.addr e.val)) [] sb) (fence_round e rest sb s) _
      (fence_round-Returns r e rest)
      (λ p l.
        Returns-map {Q = Leaves n (store_all rest (update m e.addr e.val)) [] sb} _
          (λ q k. record {
            ready = k.ready;
            left = k.left;
            mode = k.mode ∙ l.mode;
            depth = k.depth ∙ l.depth;
          })
          (fence_entries-Returns rest l.ready l.left))

-- On a coherent system, a fence of a core that exists returns without an error and leaves an empty
-- buffer, and the flat memory is what the core saw.
pub mfence-Returns :
    ⦃std : RandomEngine⦄ {n : ℕ} {m : ℕ → ℕ} {sb : StoreBuffer} {s : MesiSystem}
    → Ready n m sb s
    → Returns (mfence sb s) (Leaves n (store_all sb.buf m) [] sb)
unfolding mfence
mfence-Returns {sb} r = fence_entries-Returns sb.buf r refl
