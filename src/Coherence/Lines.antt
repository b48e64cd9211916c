-- ===== src/Coherence/Lines.antt =====
-- Steps of a core on its own line: a registration, bookkeeping, a fill, an upgrade and a store.
use mesi_cache_coherence.Common.{
  ℕ, ◌<◌, ◌≡◌, ◌≢◌, inl, inr, Bool, true, false, ◌&&◌, some, arith, if◌then◌else◌, ◌==◌, contains,
  update, Bool-cases,
}
use mesi_cache_coherence.Types.{State, I, M, BusTxn, line_of}
use mesi_cache_coherence.Memory
use mesi_cache_coherence.Perf.{PerfCounters}
use mesi_cache_coherence.Cache.{set_state, put_word}
use mesi_cache_coherence.Bus.{
  RandomEngine, SnoopingBus, words_in_line, register_addr, on_controller, account, snoop_order,
}
use mesi_cache_coherence.Controller.{fill_line, count_hit, count_miss, count_stall}
use mesi_cache_coherence.Coherence.Effects.{words-register_addr, words-fill_words, state-fill_words}
use mesi_cache_coherence.Coherence.Defs.{state_at, owns, Coherent}

module _ {m : ℕ → ℕ} {b : SnoopingBus} (c : Coherent m b) where
  -- A registration changes the registry alone.
  pub register-Coherent : (addr : ℕ) → Coherent m (register_addr addr b)
  unfolding register_addr
  register-Coherent addr = record {
    absent = c.absent;
    exclusive = c.exclusive;
    current = c.current;
    backed = c.backed;
    unloaded = c.unloaded;
    dropped = c.dropped;
    registered =
        λ i a h. ground (arith, words-register_addr addr a (line_of a) b, c.registered i a);
    stored = λ a h. ground (arith, words-register_addr addr a (line_of a) b, c.stored a);
    within = λ a l h. ground (arith, words-register_addr addr a l b, c.within a l);
  }

  -- The counters, the arbiter and the engine are not part of the invariant.
  pub frame-Coherent :
      (accesses arb_ptr rng : ℕ) (perf : PerfCounters) (race : Bool)
      → Coherent m (record b {
        mem = record b.mem { accesses = accesses };
        perf = perf;
        arb_ptr = arb_ptr;
        race = race;
        rng = rng;
      })
  frame-Coherent accesses arb_ptr rng perf race = record {
    absent = c.absent;
    exclusive = c.exclusive;
    current = c.current;
    backed = c.backed;
    unloaded = c.unloaded;
    dropped = c.dropped;
    registered = c.registered;
    stored = c.stored;
    within = c.within;
  }

  pub account-Coherent : (txn : BusTxn) → Coherent m (account txn b)
  unfolding account
  account-Coherent txn = frame-Coherent _ _ _ _ _

  pub count_miss-Coherent : (id : ℕ) → Coherent m (count_stall id (count_miss id b))
  count_miss-Coherent id = frame-Coherent _ _ _ _ _

  pub count_hit-Coherent : (id : ℕ) → Coherent m (count_hit id b)
  count_hit-Coherent id = frame-Coherent _ _ _ _ _

  pub count_upgrade-Coherent : (id : ℕ) → Coherent m (count_stall id (count_hit id b))
  count_upgrade-Coherent id = frame-Coherent _ _ _ _ _

  pub snoop_order-Coherent : ⦃std : RandomEngine⦄ (id : ℕ) → Coherent m (snoop_order id b).1
  unfolding snoop_order
  snoop_order-Coherent id = elim (Bool-cases b.race) [
    | inl on ↦ simp on (frame-Coherent _ _ _ _ _)
    | inr off ↦ simp off c
  ]

module _ {m : ℕ → ℕ} {b : SnoopingBus} (c : Coherent m b) (id line : ℕ) where
  -- The only copy becomes dirty.
  pub own-Coherent :
      state_at b id line ≢ I
      → ((j : ℕ) → j ≢ id → state_at b j line ≡ I)
      → Coherent m (on_controller id (set_state line M) b)
  own-Coherent held alone = record {
    absent = λ i l h. ground (arith, c.absent i l);
    exclusive = λ i j l n h. ground (arith, c.exclusive i j l, alone j);
    current = λ i a h. ground (arith, c.current i a);
    backed =
        λ a. elim (c.backed a) [ inl clean ↦ inl clean | inr (i, dirty) ↦ inr (i, ground arith) ];
    unloaded = λ i a h e. ground (arith, c.unloaded i a);
    dropped = λ i a h. ground (arith, c.dropped i a);
    registered = λ i a h. ground (arith, c.registered i a);
    stored = c.stored;
    within = c.within;
  }

  abbrev filled : State → SnoopingBus
  filled s = on_controller id (set_state line s) (fill_line id line b)

  state-filled :
      (s : State) (j l : ℕ)
      → state_at (filled s) j l ≡ (if j == id && l == line then s else state_at b j l)
  unfolding fill_line
  state-filled s j l =
      ground (arith, state-fill_words b.mem (words_in_line b line) (b.controllers id))

  words-filled :
      (s : State) (j a : ℕ)
      → ((filled s).controllers j).words a ≡ (
          if j == id && contains a (words_in_line b line)
          then some (Memory.read b.mem a)
          else (b.controllers j).words a)
  unfolding fill_line
  words-filled s j a =
      ground (arith, words-fill_words a b.mem (words_in_line b line) (b.controllers id))

  clean_read :
      ((j : ℕ) → state_at b j line ≢ M) → (a : ℕ) → line_of a ≡ line → Memory.read b.mem a ≡ m a
  clean_read clean a e = elim (c.backed a) [
    | inl same ↦ same
    | inr (i, dirty) ↦ absurd (clean i (ground arith))
  ]

  -- A fill of a line that nobody holds dirty, in a state that agrees with the other copies.
  pub fill-Coherent :
      (s : State)
      → id < b.n_cores
      → s ≢ I
      → state_at b id line ≡ I
      → ((j : ℕ) → state_at b j line ≢ M)
      → ((j : ℕ) → state_at b j line ≢ I → (owns s ≡ false) × (owns (state_at b j line) ≡ false))
      → Coherent m (filled s)
  unfolding fill_line
  fill-Coherent s exists valid empty clean shared = record {
    absent = λ i l h. ground (arith, state-filled s i l, c.absent i l);
    exclusive = λ i j l n h.
        ground
          (arith, state-filled s i l, state-filled s j l, c.exclusive i j l, shared i, shared j);
    current = λ i a h. ground (
      arith,
      clean_read clean a,
      c.within a line,
      words-filled s i a,
      state-filled s i (line_of a),
      c.current i a,
      c.dropped i a,
      c.stored a,
    );
    backed = λ a. elim (c.backed a) [
      | inl clean ↦ inl clean
      | inr (i, dirty) ↦ inr (i, ground (arith, state-filled s i (line_of a), clean i))
    ];
    unloaded = λ i a h e.
        ground
          (arith, words-filled s i a, state-filled s i (line_of a), c.unloaded i a, c.stored a);
    dropped = λ i a h.
        ground
          (arith, c.dropped i a, state-filled s i (line_of a), words-filled s i a, c.within a line);
    registered = λ i a h. ground (arith, c.registered i a, c.within a line, words-filled s i a);
    stored = c.stored;
    within = c.within;
  }

-- A store into a dirty line.
pub put-Coherent :
    {m : ℕ → ℕ} {b : SnoopingBus} (c : Coherent m b) (id addr value : ℕ)
    → state_at b id (line_of addr) ≡ M
    → contains addr (words_in_line b (line_of addr)) ≡ true
    → Coherent (update m addr value) (on_controller id (put_word addr value) b)
put-Coherent c id addr value dirty known = record {
  absent = λ i l h. ground (arith, c.absent i l);
  exclusive = λ i j l n h. ground (arith, c.exclusive i j l);
  current = λ i a h. ground (arith, c.current i a, c.exclusive id i (line_of a));
  backed = λ a. elim (Bool-cases (a == addr)) [
    | inl here ↦ inr (id, ground arith)
    | inr there ↦ elim (c.backed a) [
      | inl clean ↦ inl (ground arith)
      | inr (i, d) ↦ inr (i, ground arith)
    ]
  ];
  unloaded = λ i a h e. ground (arith, c.unloaded i a);
  dropped = λ i a h. ground (arith, c.dropped i a);
  registered = λ i a h. ground (arith, c.registered i a);
  stored = c.stored;
  within = c.within;
}
