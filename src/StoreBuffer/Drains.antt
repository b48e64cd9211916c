-- ===== src/StoreBuffer/Drains.antt =====
-- Draining: one entry, all of them, and the store that makes room.
use mesi_cache_coherence.Common.{
  ℕ, zero, suc, ◌≤◌, ◌≡◌, refl, ◌∙◌, ok, err, arith, update, Result, Returns, Returns-map, List, [],
  ◌∷◌, Option, some, none, length,
}
use mesi_cache_coherence.Bus.{RandomEngine}
use mesi_cache_coherence.System.{MesiSystem}
use mesi_cache_coherence.StoreBuffer.{
  SbEntry, StoreBuffer, fifo, drain_entries, drain_one, drain_rounds, drain_all, and_then,
}
use mesi_cache_coherence.StoreBuffer.View.{store_all}
use mesi_cache_coherence.StoreBuffer.Operations.{
  Ready, Leaves, Shorter, drain_entries-Returns, drain_entries-Shorter,
}

-- The rounds suffice, and the call returns, with a value of which `P` holds.
abbrev pub Ends {ℓ} : {A : Type ℓ} → Option (Result A) → (A → Type 0) → Type 0
Ends none P = ⊥
Ends (some r) P = Returns r P

Ends-map {ℓ} :
    {A : Type ℓ} {P Q : A → Type 0} (r : Option (Result A))
    → ((a : A) → P a → Q a)
    → Ends r P
    → Ends r Q
Ends-map none k h = h
Ends-map (some r) k h = Returns-map r k h

next_round {ℓ} :
    {A : Type ℓ} (P Q : A → Type 0) (r : Result A) (next : A → Option (Result A))
    → Returns r Q
    → ((a : A) → Q a → Ends (next a) P)
    → Ends (and_then r next) P
next_round P Q (ok p) next q k = k p q
next_round P Q (err e) next q k = q

module _ ⦃std : RandomEngine⦄ (fuel : ℕ) where
  pub drain_round :
      (P Q : StoreBuffer × MesiSystem → Type 0) (sb : StoreBuffer) (s : MesiSystem) (e : SbEntry)
      (rest : List SbEntry)
      → sb.buf ≡ e ∷ rest
      → Returns (drain_entries (e ∷ rest) sb s) Q
      → ((p : StoreBuffer × MesiSystem) → Q p → Ends (drain_rounds fuel p.0 p.1) P)
      → Ends (drain_rounds (suc fuel) sb s) P
  unfolding drain_rounds drain_one
  drain_round P Q sb s e rest b q k = simp b (next_round P Q _ _ q k)

module _ ⦃std : RandomEngine⦄ where
  pub drain_last :
      (fuel : ℕ) (P : StoreBuffer × MesiSystem → Type 0) (sb : StoreBuffer) (s : MesiSystem)
      → sb.buf ≡ []
      → P (sb, s)
      → Ends (drain_rounds fuel sb s) P
  unfolding drain_rounds
  drain_last zero P sb s b p = simp b p
  drain_last (suc fuel) P sb s b p = simp b p

  drain_rounds-fifo :
      (fuel : ℕ) (es : List SbEntry) {n : ℕ} {m : ℕ → ℕ} (sb : StoreBuffer) (s : MesiSystem)
      → Ready n m sb s
      → sb.buf ≡ es
      → sb.mode ≡ fifo
      → length es ≤ fuel
      → Ends (drain_rounds fuel sb s) (Leaves n (store_all es m) [] sb)
  unfolding store_all
  drain_rounds-fifo fuel [] sb s r b f h =
      drain_last fuel _ sb s b (record { ready = r; left = b; mode = refl; depth = refl })
  drain_rounds-fifo zero (e ∷ rest) sb s r b f h = absurd (omega arith)
  drain_rounds-fifo (suc fuel) (e ∷ rest) {n} {m} sb s r b f h =
      drain_round fuel _ (Leaves n (update m e.addr e.val) rest sb) sb s e rest b
        (drain_entries-Returns r e rest f)
        (λ p l.
          Ends-map (drain_rounds fuel p.0 p.1)
            (λ q k. record {
              ready = k.ready;
              left = k.left;
              mode = k.mode ∙ l.mode;
              depth = k.depth ∙ l.depth;
            })
            (drain_rounds-fifo fuel rest p.0 p.1 l.ready l.left (l.mode ∙ f) (omega arith)))

  abbrev pub Emptied : ℕ → StoreBuffer → StoreBuffer × MesiSystem → Type 0
  Emptied n sb p = (m : ℕ → ℕ) × Leaves n m [] sb p

  drain_rounds-Emptied :
      (fuel : ℕ) (es : List SbEntry) {n : ℕ} {m : ℕ → ℕ} (sb : StoreBuffer) (s : MesiSystem)
      → Ready n m sb s
      → sb.buf ≡ es
      → length es ≤ fuel
      → Ends (drain_rounds fuel sb s) (Emptied n sb)
  drain_rounds-Emptied fuel [] sb s r b h =
      drain_last fuel _ sb s b (_, record { ready = r; left = b; mode = refl; depth = refl })
  drain_rounds-Emptied zero (e ∷ rest) sb s r b h = absurd (omega arith)
  drain_rounds-Emptied (suc fuel) (e ∷ rest) {n} sb s r b h =
      drain_round fuel _ (Shorter r rest) sb s e rest b (drain_entries-Shorter r e rest b)
        (λ p (m', left, shorter, l).
          Ends-map (drain_rounds fuel p.0 p.1)
            (λ q (m'', k). (
              m'',
              record {
                ready = k.ready;
                left = k.left;
                mode = k.mode ∙ l.mode;
                depth = k.depth ∙ l.depth;
              },
            ))
            (drain_rounds-Emptied fuel left p.0 p.1 l.ready l.left (omega arith)))

  -- On a coherent system, `drain_all` of a core that exists ends, without an error, with an empty
  -- buffer, in either mode.
  pub drain_all-Emptied :
      {n : ℕ} {m : ℕ → ℕ} (sb : StoreBuffer) (s : MesiSystem)
      → Ready n m sb s
      → Ends (drain_all sb s) (Emptied n sb)
  unfolding drain_all
  drain_all-Emptied sb s r = drain_rounds-Emptied (length sb.buf) sb.buf sb s r refl (omega arith)

  -- On a coherent system, in FIFO mode, `drain_all` of a core that exists ends, without an error,
  -- with an empty buffer, and the flat memory is what the core saw.
  pub drain_all-fifo :
      {n : ℕ} {m : ℕ → ℕ} (sb : StoreBuffer) (s : MesiSystem)
      → Ready n m sb s
      → sb.mode ≡ fifo
      → Ends (drain_all sb s) (Leaves n (store_all sb.buf m) [] sb)
  unfolding drain_all
  drain_all-fifo sb s r f = drain_rounds-fifo (length sb.buf) sb.buf sb s r refl f (omega arith)
