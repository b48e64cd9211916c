-- ===== src/Coherence/Broadcast.antt =====
-- A broadcast, in whatever order the others are visited.
use mesi_cache_coherence.Common.{
  ℕ, zero, suc, ◌+◌, ◌≡◌, ◌≢◌, ◌⊎◌, inl, inr, refl, ◌∙◌, true, false, not, ◌&&◌, List, [], ◌∷◌,
  arith, if◌then◌else◌, ◌==◌, ltb, leb, contains, contains-count, Bool-cases,
}
use mesi_cache_coherence.Types.{State, I, BusTxn, bus_upgr, SnoopResult, line_of, is_I, or_result}
use mesi_cache_coherence.Bus.{RandomEngine, SnoopingBus, others_from, snoop_order}
use mesi_cache_coherence.Controller.{snoop, snoop_each}
use mesi_cache_coherence.Coherence.SnoopEffects.{
  snooped, state-snoop, line_words-snoop, n_cores-snoop, reply-snoop,
}
use mesi_cache_coherence.Coherence.Defs.{state_at, Coherent}
use mesi_cache_coherence.Coherence.SnoopStep.{loses, snoop-Coherent}

snooped-snooped : (txn : BusTxn) (st : State) → snooped txn (snooped txn st) ≡ snooped txn st
snooped-snooped bus_upgr I = refl
snooped-snooped txn st = ground arith

loses-snooped :
    (txn : BusTxn) (st : State) → loses txn st ≡ false → loses txn (snooped txn st) ≡ false
loses-snooped bus_upgr I = ground arith
loses-snooped txn st = ground arith

module _ (txn : BusTxn) (addr : ℕ) where
  -- No listed core would lose a dirty line.
  abbrev pub IsSafe : List ℕ → SnoopingBus → Type 0
  IsSafe order b =
      (i : ℕ) → contains i order ≡ true → loses txn (state_at b i (line_of addr)) ≡ false

  snoop-IsSafe :
      (i : ℕ) (rest : List ℕ) (b : SnoopingBus)
      → IsSafe (i ∷ rest) b
      → IsSafe rest (snoop txn addr i b).0
  unfolding contains
  snoop-IsSafe i rest b safe j h = ground (
    arith,
    state-snoop txn addr i b j (line_of addr),
    safe j,
    loses-snooped txn (state_at b i (line_of addr)),
  )

  pub snoop_each-Coherent :
      {m : ℕ → ℕ} (order : List ℕ) (agg : SnoopResult) (b : SnoopingBus)
      → IsSafe order b
      → Coherent m b
      → Coherent m (snoop_each txn addr order agg b).0
  unfolding snoop_each contains
  snoop_each-Coherent [] agg b safe c = c
  snoop_each-Coherent (i ∷ rest) agg b safe c =
      snoop_each-Coherent rest _ _ (snoop-IsSafe i rest b safe)
        (snoop-Coherent c txn addr i (safe i (ground arith)))

  pub state-snoop_each :
      (order : List ℕ) (agg : SnoopResult) (b : SnoopingBus) (j l : ℕ)
      → state_at (snoop_each txn addr order agg b).0 j l ≡ (
          if contains j order && l == line_of addr
          then snooped txn (state_at b j l)
          else state_at b j l)
  unfolding snoop_each contains
  state-snoop_each [] agg b j l = refl
  state-snoop_each (i ∷ rest) agg b j l = ground (
    arith,
    state-snoop txn addr i b j l,
    state-snoop_each rest (or_result agg (snoop txn addr i b).1) (snoop txn addr i b).0 j l,
    snooped-snooped txn (state_at b j l),
  )

  pub frame-snoop_each :
      (order : List ℕ) (agg : SnoopResult) (b : SnoopingBus)
      → let b' = (snoop_each txn addr order agg b).0 in
        (b'.line_words ≡ b.line_words) × (b'.n_cores ≡ b.n_cores)
  unfolding snoop_each
  frame-snoop_each [] agg b = (refl, refl)
  frame-snoop_each (i ∷ rest) agg b =
      let ih =
        frame-snoop_each rest (or_result agg (snoop txn addr i b).1) (snoop txn addr i b).0 in
      (ih.0 ∙ line_words-snoop txn addr i b, ih.1 ∙ n_cores-snoop txn addr i b)

  -- The aggregated reply has every copy that was met.
  pub had_copy-snoop_each :
      (order : List ℕ) (agg : SnoopResult) (b : SnoopingBus)
      → let r = (snoop_each txn addr order agg b).1 in
        (r.had_copy ≡ false)
        → (agg.had_copy ≡ false)
          × ((j : ℕ) → contains j order ≡ true → state_at b j (line_of addr) ≡ I)
  unfolding snoop_each contains
  had_copy-snoop_each [] agg b h = (h, λ j e. cc)
  had_copy-snoop_each (i ∷ rest) agg b h =
      let (no_copy, none_left) =
        had_copy-snoop_each rest (or_result agg (snoop txn addr i b).1) (snoop txn addr i b).0 h in
      (
        ground (arith, no_copy),
        λ j e. ground (
          arith,
          no_copy,
          none_left j,
          reply-snoop txn addr i b,
          state-snoop txn addr i b j (line_of addr),
        ),
      )

  -- And no other.
  pub copy-snoop_each :
      (order : List ℕ) (agg : SnoopResult) (b : SnoopingBus)
      → (snoop_each txn addr order agg b).1.had_copy ≡ true
      → (agg.had_copy ≡ true)
        ⊎ ((j : ℕ) × (contains j order ≡ true) × (state_at b j (line_of addr) ≢ I))
  unfolding snoop_each contains
  copy-snoop_each [] agg b h = inl h
  copy-snoop_each (i ∷ rest) agg b h = elim (Bool-cases (is_I (state_at b i (line_of addr)))) [
    | inr copy ↦ inr (i, ground arith, ground arith)
    | inl idle ↦ elim (copy-snoop_each rest _ _ h) [
      | inl early ↦ inl (ground (arith, reply-snoop txn addr i b))
      | inr (j, listed, copy) ↦
          inr (j, ground arith, ground (arith, state-snoop txn addr i b j (line_of addr)))
    ]
  ]

contains-others_from :
    (k i issuer j : ℕ)
    → contains j (others_from k i issuer) ≡ (leb i j && (ltb j (i + k) && not (j == issuer)))
unfolding others_from contains
contains-others_from zero i issuer j = ground arith
contains-others_from (suc k) i issuer j = ground (arith, contains-others_from k (i + 1) issuer j)

module _ ⦃std : RandomEngine⦄ (issuer : ℕ) (b : SnoopingBus) where
  -- Every other core is visited, whether or not the order is shuffled.
  pub contains-snoop_order :
      (j : ℕ) → contains j (snoop_order issuer b).0 ≡ (ltb j b.n_cores && not (j == issuer))
  unfolding snoop_order
  contains-snoop_order j =
      let order = others_from b.n_cores 0 issuer in
      ground (
        arith,
        contains-others_from b.n_cores 0 issuer j,
        contains-count j order,
        contains-count j (std.shuffle b.rng order).0,
        std.count-shuffle b.rng order j,
      )

  pub frame-snoop_order :
      let b' = (snoop_order issuer b).1 in
      (b'.controllers ≡ b.controllers) × (b'.line_words ≡ b.line_words) × (b'.n_cores ≡ b.n_cores)
  unfolding snoop_order
  frame-snoop_order = (ground arith, ground arith, ground arith)
