-- ===== src/StoreBuffer/Programs.antt =====
-- A program on one core, behind a FIFO buffer, against the same program on a flat memory.
use mesi_cache_coherence.Common.{
  ℕ, suc, ◌≤◌, ◌≡◌, refl, ap, ◌∙◌, ok, arith, update, ltb, Result, ◌>>=◌, Returns, Returns-bind,
  Returns-map, Returns-ok, Bool-cases, inl, inr, List, [], ◌∷◌, ◌++◌, Option, some, none, length,
  length-append,
}
use mesi_cache_coherence.Bus.{RandomEngine}
use mesi_cache_coherence.System.{MesiSystem}
use mesi_cache_coherence.StoreBuffer.{
  SbEntry, StoreBuffer, fifo, drain_entries, drain_one, store, load, mfence,
}
use mesi_cache_coherence.StoreBuffer.View.{store_all, store_all-append}
use mesi_cache_coherence.StoreBuffer.Operations.{Ready, drain_entries-Returns}
use mesi_cache_coherence.StoreBuffer.Guarantees.{load-Returns, mfence-Returns}

-- The core sees `v`: the flat memory, after the buffered stores.
pub record Sees (n : ℕ) (v : ℕ → ℕ) (p : StoreBuffer × MesiSystem) : Type 0 where
  pub flat : ℕ → ℕ
  pub ready : Ready n flat p.0 p.1
  pub view : store_all p.0.buf flat ≡ v
  pub bounded : length p.0.buf ≤ p.0.depth
  pub in_order : p.0.mode ≡ fifo

-- Dut calls of a program on one core; `drain` is a drain that happens by itself.
pub data SbOp : Type 0 where
  store_op : (addr val : ℕ) → SbOp
  load_op : (addr : ℕ) → SbOp
  drain fence : SbOp

-- What a program should see: the memory after a call, and what a load returns.
unfoldable pub flat_op : SbOp → (ℕ → ℕ) → (ℕ → ℕ) × Option ℕ
flat_op (store_op addr val) v = (update v addr val, none)
flat_op (load_op addr) v = (v, some (v addr))
flat_op drain v = (v, none)
flat_op fence v = (v, none)

unfoldable pub flat_program : List SbOp → (ℕ → ℕ) → List (Option ℕ)
unfolding flat_op
flat_program [] v = []
flat_program (op ∷ ops) v = (flat_op op v).1 ∷ flat_program ops (flat_op op v).0

module _ ⦃std : RandomEngine⦄ where
  abbrev silent : StoreBuffer × MesiSystem → (StoreBuffer × MesiSystem) × Option ℕ
  silent p = (p, none)

  unfoldable pub sb_op :
      SbOp → StoreBuffer × MesiSystem → Result ((StoreBuffer × MesiSystem) × Option ℕ)
  sb_op (store_op addr val) p = do q ← store addr val p.0 p.1; ok (q, none)
  sb_op (load_op addr) p = do (sb, s, v) ← load addr p.0 p.1; ok ((sb, s), some v)
  sb_op drain p = do q ← drain_one p.0 p.1; ok (q, none)
  sb_op fence p = do q ← mfence p.0 p.1; ok (q, none)

  unfoldable pub sb_program : List SbOp → StoreBuffer × MesiSystem → Result (List (Option ℕ))
  sb_program [] p = ok []
  sb_program (op ∷ ops) p = do (q, a) ← sb_op op p; as' ← sb_program ops q; ok (a ∷ as')

  abbrev Answers : ℕ → (ℕ → ℕ) → SbOp → (StoreBuffer × MesiSystem) × Option ℕ → Type 0
  Answers n v op r = Sees n (flat_op op v).0 r.0 × (r.1 ≡ (flat_op op v).1)

  -- A drain in order leaves what the core sees, and makes room.
  drain_entries-Sees :
      (es : List SbEntry) {n : ℕ} {m : ℕ → ℕ} (sb : StoreBuffer) (s : MesiSystem) (v : ℕ → ℕ)
      → Ready n m sb s
      → sb.buf ≡ es
      → store_all es m ≡ v
      → length es ≤ suc sb.depth
      → sb.mode ≡ fifo
      → Returns (drain_entries es sb s) (Sees n v)
  unfolding store_all drain_entries
  drain_entries-Sees [] sb s v r b e h f = record {
    flat = _;
    ready = r;
    view = rw b e;
    bounded = rw b (omega arith);
    in_order = f;
  }
  drain_entries-Sees (x ∷ rest) {n} sb s v r b e h f =
      Returns-map (drain_entries (x ∷ rest) sb s)
        (λ p l. record {
          flat = _;
          ready = l.ready;
          view = rw l.left e;
          bounded = rw (l.left, l.depth) (omega arith);
          in_order = l.mode ∙ f;
        })
        (drain_entries-Returns r x rest f)

  module _ {n : ℕ} {v : ℕ → ℕ} {p : StoreBuffer × MesiSystem} (k : Sees n v p) where
    store-Sees : (addr val : ℕ) → Returns (store addr val p.0 p.1) (Sees n (update v addr val))
    unfolding store drain_one
    store-Sees addr val =
        let e : SbEntry = record { addr = addr; val = val } in
        let pushed : StoreBuffer = record p.0 { buf = p.0.buf ++ e ∷ [] } in
        let view : store_all pushed.buf k.flat ≡ update v addr val =
          store_all-append p.0.buf e k.flat ∙ ap (λ w. update w addr val) k.view in
        let ready : Ready n k.flat pushed p.1 = record {
          memory = k.ready.memory;
          there = k.ready.there;
        } in
        elim (Bool-cases (ltb p.0.depth (length pushed.buf))) [
          | inl full ↦ simp full (
              drain_entries-Sees pushed.buf pushed p.1 _ ready refl view
                (omega (arith, k.bounded, length-append p.0.buf (e ∷ []))) k.in_order)
          | inr room ↦ simp room (record {
            flat = k.flat;
            ready = ready;
            view = view;
            bounded = ground arith;
            in_order = k.in_order;
          })
        ]

    drain_one-Sees : Returns (drain_one p.0 p.1) (Sees n v)
    unfolding drain_one
    drain_one-Sees =
        drain_entries-Sees p.0.buf p.0 p.1 v k.ready refl k.view (omega (arith, k.bounded))
          k.in_order

    mfence-Sees : Returns (mfence p.0 p.1) (Sees n v)
    unfolding store_all
    mfence-Sees =
        Returns-map (mfence p.0 p.1)
          (λ q l. record {
            flat = _;
            ready = l.ready;
            view = rw l.left k.view;
            bounded = rw l.left (omega arith);
            in_order = l.mode ∙ k.in_order;
          })
          (mfence-Returns k.ready)

    abbrev Loads : ℕ → StoreBuffer × MesiSystem × ℕ → Type 0
    Loads addr q = Sees n v (q.0, q.1) × (q.2 ≡ v addr)

    load-Sees : (addr : ℕ) → Returns (load addr p.0 p.1) (Loads addr)
    load-Sees addr =
        Returns-map (load addr p.0 p.1)
          (λ q h. (
            record {
              flat = k.flat;
              ready = h.0.ready;
              view = rw h.0.left k.view;
              bounded = rw (h.0.left, h.0.depth) k.bounded;
              in_order = h.0.mode ∙ k.in_order;
            },
            h.1 ∙ ap (λ w. w addr) k.view,
          ))
          (load-Returns k.ready addr)

    -- The answer of one call, and what the core sees afterwards.
    sb_op-Sees : (op : SbOp) → Returns (sb_op op p) (Answers n v op)
    unfolding sb_op flat_op
    sb_op-Sees (store_op addr val) =
        Returns-bind (Sees n (update v addr val)) (Answers n v (store_op addr val)) _ _
          (store-Sees addr val) (λ q h. (h, refl))
    sb_op-Sees (load_op addr) =
        Returns-bind (Loads addr) (Answers n v (load_op addr)) _ _ (load-Sees addr)
          (λ q h. (h.0, ap some h.1))
    sb_op-Sees drain =
        Returns-bind (Sees n v) (Answers n v drain) _ _ drain_one-Sees (λ q h. (h, refl))
    sb_op-Sees fence =
        Returns-bind (Sees n v) (Answers n v fence) _ _ mfence-Sees (λ q h. (h, refl))

  -- On a coherent system, a program that runs alone on a core that exists, behind a FIFO buffer,
  -- never throws and loads exactly what it would load from a flat memory that starts as what the
  -- core sees, wherever drains and fences fall.
  pub sb_program-flat :
      (ops : List SbOp) {n : ℕ} {v : ℕ → ℕ} {p : StoreBuffer × MesiSystem}
      → Sees n v p
      → sb_program ops p ≡ ok (flat_program ops v)
  unfolding sb_program flat_program
  sb_program-flat [] k = refl
  sb_program-flat (op ∷ ops) {n} {v} {p} k =
      let (r, returned, (seen, answer)) = Returns-ok (sb_op op p) (sb_op-Sees k op) in
      rw (returned, sb_program-flat ops seen, answer)
