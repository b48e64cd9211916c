-- ===== src/Demo/SbLitmus/Turns.antt =====
-- A turn of a thread keeps what holds at each place.
use mesi_cache_coherence.Common.{
  ℕ, ◌≤◌, ◌≡◌, ◌≢◌, ◌⊎◌, inl, inr, ◌∙◌, refl, sym, Bool, true, false, List, [], ◌∷◌, update, arith,
  Returns, Returns-bind, ok,
}
use mesi_cache_coherence.Bus.{RandomEngine}
use mesi_cache_coherence.System.{MesiSystem}
use mesi_cache_coherence.StoreBuffer.{StoreBuffer, SbEntry, store, load, fence_round}
use mesi_cache_coherence.StoreBuffer.View.{store_all}
use mesi_cache_coherence.StoreBuffer.Operations.{Ready}
use mesi_cache_coherence.StoreBuffer.Guarantees.{load-Returns, fence_round-Returns}
use mesi_cache_coherence.Demo.SbLitmus.{
  Side, left, right, other, LitmusPc, storing, fencing, loading, loaded, Litmus, fence_step,
  advance,
}
use mesi_cache_coherence.Demo.SbLitmus.Stages.{zero_word, entry, Stage, LitmusInv, Reaches, arrive}

-- What a fence finds is the one entry.
only_entry :
    {a x : ℕ} {buf : List SbEntry} {e : SbEntry} {rest : List SbEntry}
    → buf ≡ e ∷ rest
    → (buf ≡ entry a ∷ []) ⊎ ((buf ≡ []) × (x ≡ 1))
    → (rest ≡ []) × (e ≡ entry a)
only_entry b (inl one) = (cc, cc)
only_entry b (inr (clear, x)) = absurd (cc)

-- A store into an empty buffer stays there.
store_first :
    ⦃std : RandomEngine⦄ (a : ℕ) (sb : StoreBuffer) (s : MesiSystem)
    → sb.buf ≡ []
    → 1 ≤ sb.depth
    → store a 1 sb s ≡ ok (record sb { buf = entry a ∷ [] }, s)
unfolding store
store_first a sb s none_yet room = simp none_yet (ground arith)

apart_from : (flag : Side → ℕ) → flag left ≢ flag right → (c : Side) → flag (other c) ≢ flag c
apart_from flag distinct left e = distinct (sym e)
apart_from flag distinct right e = distinct e

module _ ⦃std : RandomEngine⦄ {flag : Side → ℕ} (distinct : flag left ≢ flag right) {n : ℕ}
    {m : ℕ → ℕ} {st : Litmus} (c : Side) where
  module _ {fenced : Bool} (inv : LitmusInv fenced flag n m st) where
    abbrev ready : Ready n m (st.sb c) st.sys
    ready = record { memory = inv.memory; there = inv.there c }

    -- The load of a thread, with what the loaded word does to its stage.
    load-Reaches :
        ((v : ℕ)
          → v ≡ store_all (st.sb c).buf m (flag (other c))
          → Stage fenced (flag c) (m (flag c)) (st.sb c).buf (loaded v))
        → ((v w : ℕ)
            → v ≡ store_all (st.sb c).buf m (flag (other c))
            → fenced ≡ true
            → st.pcs (other c) ≡ loaded w
            → v ≡ 0
            → w ≢ 0)
        → Returns (advance fenced flag c loading st) (Reaches fenced flag n)
    unfolding advance
    load-Reaches stage apart =
        Returns-bind _ (Reaches fenced flag n) (load (flag (other c)) (st.sb c) st.sys) _
          (load-Returns ready (flag (other c)))
          (λ p (l, e). (
            m,
            arrive inv c (loaded p.2) p.0 p.1 m l.ready l.depth (rw l.left (stage p.2 e)) refl
                (λ v w f here there. apart v w (ground arith) f there),
          ))

  module _ (inv : LitmusInv true flag n m st) where
    fenced_store :
        st.pcs c ≡ storing → Returns (advance true flag c storing st) (Reaches true flag n)
    unfolding advance Stage
    fenced_store at =
        let clear : (st.sb c).buf ≡ [] = rw at at (inv.stage c) in
        rw (store_first (flag c) (st.sb c) st.sys clear (inv.room c)) (
          m,
          arrive inv c fencing _ _ m (record { memory = inv.memory; there = inv.there c }) refl
              (inl refl) refl (λ v w f here. cc),
        )

    fencing_stage :
        st.pcs c ≡ fencing
        → ((st.sb c).buf ≡ entry (flag c) ∷ []) ⊎ (((st.sb c).buf ≡ []) × (m (flag c) ≡ 1))
    unfolding Stage
    fencing_stage at = rw at at (inv.stage c)

    loading_stage : st.pcs c ≡ loading → ((st.sb c).buf ≡ []) × (m (flag c) ≡ 1)
    unfolding Stage
    loading_stage at = rw at at (inv.stage c)

    other_past : (w : ℕ) → st.pcs (other c) ≡ loaded w → m (flag (other c)) ≡ 1
    unfolding Stage
    other_past w at = rw at at (inv.stage (other c))

    fence_turn :
        (es : List SbEntry)
        → (st.sb c).buf ≡ es
        → st.pcs c ≡ fencing
        → Returns (fence_step c es st) (Reaches true flag n)
    unfolding fence_step Stage
    fence_turn [] b at = (
      m,
      arrive inv c loading _ _ m (ready inv) refl
          (b, elim (fencing_stage at) [ inl one ↦ absurd (cc) | inr (clear, x) ↦ x ]) refl
          (λ v w f here. cc),
    )
    fence_turn (e ∷ rest) b at =
        let (no_more, own) = only_entry b (fencing_stage at) in
        Returns-bind _ (Reaches true flag n) (fence_round e rest (st.sb c) st.sys) _
          (fence_round-Returns (ready inv) e rest)
          (λ p l. (
            update m e.addr e.val,
            arrive inv c fencing p.0 p.1 _ l.ready l.depth
                (inr (l.left ∙ no_more, ground (arith, own)))
                (ground (arith, own, apart_from flag distinct c)) (λ v w f here. cc),
          ))

    -- One turn of a thread that fences.
    pub fenced_turn :
        (p : LitmusPc) → st.pcs c ≡ p → Returns (advance true flag c p st) (Reaches true flag n)
    unfolding advance Stage store_all
    fenced_turn storing at = fenced_store at
    fenced_turn fencing at = fence_turn (st.sb c).buf refl at
    fenced_turn loading at =
        let (b, x) = loading_stage at in
        load-Reaches inv (λ v e. x)
          (λ v w e f there zero_v. absurd (ground (arith, b, other_past w there)))
    fenced_turn (loaded v) at = (m, inv)

  module _ (inv : LitmusInv false flag n m st) where
    storing_stage : st.pcs c ≡ storing → ((st.sb c).buf ≡ []) × (m (flag c) ≡ 0)
    unfolding Stage
    storing_stage at = rw at at (inv.stage c)

    loaded_stage : (v : ℕ) → st.pcs c ≡ loaded v → (v ≡ 0) × (m (flag c) ≡ 0)
    unfolding Stage
    loaded_stage v at = rw at at (inv.stage c)

    pub loaded_zero : (v : ℕ) → st.pcs c ≡ loaded v → v ≡ 0
    loaded_zero v at = (loaded_stage v at).0

    parked_stage : st.pcs c ≡ loading → ((st.sb c).buf ≡ entry (flag c) ∷ []) × (m (flag c) ≡ 0)
    unfolding Stage
    parked_stage at = rw at at (inv.stage c)

    pub fencing_absurd : st.pcs c ≢ fencing
    unfolding Stage
    fencing_absurd at = rw at at (inv.stage c)

    other_clear : m (flag (other c)) ≡ 0
    other_clear =
        zero_word (flag (other c)) (m (flag (other c))) (st.sb (other c)).buf (st.pcs (other c))
          (inv.stage (other c))

    -- One turn of a thread that does not fence.
    pub unfenced_turn :
        (p : LitmusPc) → st.pcs c ≡ p → Returns (advance false flag c p st) (Reaches false flag n)
    unfolding advance Stage store_all
    unfenced_turn storing at =
        let (clear, x) = storing_stage at in
        rw (store_first (flag c) (st.sb c) st.sys clear (inv.room c)) (
          m,
          arrive inv c loading _ _ m (record { memory = inv.memory; there = inv.there c }) refl
              (refl, x) refl (λ v w f. cc),
        )
    unfenced_turn fencing at = absurd (fencing_absurd at)
    unfenced_turn loading at =
        let (b, x) = parked_stage at in
        load-Reaches inv (λ v e. (ground (arith, e, b, other_clear, apart_from flag distinct c), x))
          (λ v w e f. cc)
    unfenced_turn (loaded v) at = (m, inv)
