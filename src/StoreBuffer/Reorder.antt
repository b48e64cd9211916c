-- ===== src/StoreBuffer/Reorder.antt =====
-- The relaxed mode: stores to one address may arrive out of order.
use mesi_cache_coherence.Common.{ℕ, ◌%◌, ◌≡◌, ap, arith, update, Returns, [], ◌∷◌, length}
use mesi_cache_coherence.Bus.{RandomEngine}
use mesi_cache_coherence.System.{MesiSystem}
use mesi_cache_coherence.StoreBuffer.{
  SbEntry, StoreBuffer, relaxed, drain_index, drain_entries, drain_all, take_at,
}
use mesi_cache_coherence.StoreBuffer.Operations.{Ready, Leaves, taken-Returns}
use mesi_cache_coherence.StoreBuffer.Drains.{Ends, drain_round, drain_last}

abbrev pub entry : ℕ → ℕ → SbEntry
entry addr val = record { addr = addr; val = val }

-- The buffer is empty, and the flat memory has the given value.
pub record Settled (n addr val : ℕ) (p : StoreBuffer × MesiSystem) : Type 0 where
  pub flat : ℕ → ℕ
  pub ready : Ready n flat p.0 p.1
  pub empty : p.0.buf ≡ []
  pub value : flat addr ≡ val

module _ ⦃std : RandomEngine⦄ where
  drain_index-single :
      (sb : StoreBuffer) (e : SbEntry) → sb.buf ≡ e ∷ [] → drain_index sb ≡ (0, sb.rng)
  unfolding drain_index
  drain_index-single sb e b = ground (arith, ap length b)

  drain_single :
      {n : ℕ} {m : ℕ → ℕ} {sb : StoreBuffer} {s : MesiSystem} (e : SbEntry)
      → Ready n m sb s
      → sb.buf ≡ e ∷ []
      → Returns (drain_entries (e ∷ []) sb s) (Leaves n (update m e.addr e.val) [] sb)
  unfolding drain_entries take_at
  drain_single {sb} e r b = rw (drain_index-single sb e b) (taken-Returns r e [] sb.rng)

  drain_second :
      {n : ℕ} {m : ℕ → ℕ} {sb : StoreBuffer} {s : MesiSystem} (e f : SbEntry) (g : ℕ)
      → Ready n m sb s
      → drain_index sb ≡ (1, g)
      → Returns (drain_entries (e ∷ f ∷ []) sb s) (Leaves n (update m f.addr f.val) (e ∷ []) sb)
  unfolding drain_entries take_at
  drain_second e f g r i = rw i (taken-Returns r f (e ∷ []) g)

  drawn_second :
      (sb : StoreBuffer) (e f : SbEntry)
      → sb.mode ≡ relaxed
      → sb.buf ≡ e ∷ f ∷ []
      → (std.next sb.rng).0 % 2 ≡ 1
      → drain_index sb ≡ (1, (std.next sb.rng).1)
  unfolding drain_index
  drawn_second sb e f mode b odd = simp (mode, b, odd)

  -- A relaxed buffer with two stores to one address, the older first, from which the engine draws the
  -- second: `drain_all` ends with the older value in the flat memory.
  pub drain_all-reorders :
      {n : ℕ} {m : ℕ → ℕ} (sb : StoreBuffer) (s : MesiSystem) (addr old new : ℕ)
      → Ready n m sb s
      → sb.mode ≡ relaxed
      → sb.buf ≡ entry addr old ∷ entry addr new ∷ []
      → (std.next sb.rng).0 % 2 ≡ 1
      → Ends (drain_all sb s) (Settled n addr old)
  unfolding drain_all
  drain_all-reorders {n} {m} sb s addr old new r mode b odd =
      let e = entry addr old in
      let f = entry addr new in
      let m' : ℕ → ℕ = update m addr new in
      simp b (
        drain_round 1 (Settled n addr old) (Leaves n m' (e ∷ []) sb) sb s e (f ∷ []) b
          (drain_second e f _ r (drawn_second sb e f mode b odd))
          (λ p l.
            drain_round 0 (Settled n addr old) (Leaves n (update m' addr old) [] p.0) p.0 p.1 e []
              l.left (drain_single e l.ready l.left)
              (λ q k. drain_last 0 (Settled n addr old) q.0 q.1 k.left (record {
                flat = update m' addr old;
                ready = k.ready;
                empty = k.left;
                value = ground arith;
              }))))
