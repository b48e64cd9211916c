-- ===== src/StoreBuffer/Operations.antt =====
-- The operations of a buffer with entries in program order, against the view of its core.
use mesi_cache_coherence.Common.{
  ℕ, ◌<◌, ◌≡◌, refl, ap, pos, arith, update, Returns, Returns-bind, Returns-map, List, ◌∷◌, length,
}
use native.Mathlib.Nat.{mod-lt}
use mesi_cache_coherence.Bus.{RandomEngine}
use mesi_cache_coherence.System.{MesiSystem}
use mesi_cache_coherence.System
use mesi_cache_coherence.Refinement.Locked.{Represents}
use mesi_cache_coherence.StoreBuffer.{
  SbEntry, StoreBuffer, fifo, commit, drain_index, drain_entries, take_at,
}
use mesi_cache_coherence.StoreBuffer.View.{length-take_at}
use mesi_cache_coherence.StoreBuffer.Commit.{write-Returns}

-- The buffer of a core that exists, and caches that stand for `m`.
pub record Ready (n : ℕ) (m : ℕ → ℕ) (sb : StoreBuffer) (s : MesiSystem) : Type 0 where
  pub memory : Represents n m s
  pub there : sb.core < n

-- The buffer and the system after an operation on `sb`: what is buffered, and the flat memory.
pub record Leaves (n : ℕ) (m : ℕ → ℕ) (buf : List SbEntry) (sb : StoreBuffer)
    (p : StoreBuffer × MesiSystem) : Type 0 where
  pub ready : Ready n m p.0 p.1
  pub left : p.0.buf ≡ buf
  pub mode : p.0.mode ≡ sb.mode
  pub depth : p.0.depth ≡ sb.depth

module _ ⦃std : RandomEngine⦄ {n : ℕ} {m : ℕ → ℕ} {sb : StoreBuffer} {s : MesiSystem}
    (r : Ready n m sb s) where
  pub commit-Returns :
      (e : SbEntry) → Returns (commit e sb s) (Leaves n (update m e.addr e.val) sb.buf sb)
  unfolding commit
  commit-Returns e =
      Returns-bind (Represents n (update m e.addr e.val))
        (Leaves n (update m e.addr e.val) sb.buf sb) (System.write (pos sb.core) e.addr e.val s) _
        (write-Returns r.memory sb.core r.there e.addr e.val)
        (λ s' r'. record {
          ready = record { memory = r'; there = r.there };
          left = refl;
          mode = refl;
          depth = refl;
        })

module _ ⦃std : RandomEngine⦄ {n : ℕ} {m : ℕ → ℕ} {sb : StoreBuffer} {s : MesiSystem}
    (r : Ready n m sb s) where
  -- The entry that is drained arrives; the others stay, in order.
  pub taken-Returns :
      (e : SbEntry) (left : List SbEntry) (g : ℕ)
      → Returns
          (commit e (record sb { buf = left; rng = g }) s)
          (Leaves n (update m e.addr e.val) left sb)
  taken-Returns e left g =
      Returns-map (commit e (record sb { buf = left; rng = g }) s)
        (λ p l. record { ready = l.ready; left = l.left; mode = l.mode; depth = l.depth })
        (commit-Returns {sb = record sb { buf = left; rng = g }}
          (record { memory = r.memory; there = r.there }) e)

  drain_index-fifo : sb.mode ≡ fifo → drain_index sb ≡ (0, sb.rng)
  unfolding drain_index
  drain_index-fifo in_order = ground arith

  pub drain_entries-Returns :
      (e : SbEntry) (rest : List SbEntry)
      → sb.mode ≡ fifo
      → Returns (drain_entries (e ∷ rest) sb s) (Leaves n (update m e.addr e.val) rest sb)
  unfolding drain_entries take_at
  drain_entries-Returns e rest in_order =
      rw (drain_index-fifo in_order) (taken-Returns e rest sb.rng)

  -- In any mode one entry is drained, and the buffer is shorter by one.
  drain_index-lt : 0 < length sb.buf → (drain_index sb).0 < length sb.buf
  unfolding drain_index
  drain_index-lt h = ground (arith, mod-lt (std.next sb.rng).0 h)

  abbrev pub Shorter : List SbEntry → StoreBuffer × MesiSystem → Type 0
  Shorter rest p =
      (m' : ℕ → ℕ) × (left : List SbEntry) × (length left ≡ length rest) × Leaves n m' left sb p

  pub drain_entries-Shorter :
      (e : SbEntry) (rest : List SbEntry)
      → sb.buf ≡ e ∷ rest
      → Returns (drain_entries (e ∷ rest) sb s) (Shorter rest)
  unfolding drain_entries
  drain_entries-Shorter e rest b =
      let idx = (drain_index sb).0 in
      Returns-map (drain_entries (e ∷ rest) sb s)
        (λ p l. (_, _, length-take_at idx e rest (omega (arith, drain_index-lt, ap length b)), l))
        (taken-Returns (take_at idx e rest).0 (take_at idx e rest).1 (drain_index sb).1)
