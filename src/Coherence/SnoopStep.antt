-- ===== src/Coherence/SnoopStep.antt =====
-- A snoop keeps the invariant, unless it would drop a dirty line unsaved.
use mesi_cache_coherence.Common.{
  ℕ, ◌≤◌, ◌≡◌, ◌≢◌, ◌⊎◌, inl, inr, Bool, true, false, none, get_or, is_some, contains, arith, ap,
  [],
}
use mesi_cache_coherence.Types.{State, I, M, BusTxn, bus_upgr, line_of}
use mesi_cache_coherence.Memory
use mesi_cache_coherence.Cache.{peek}
use mesi_cache_coherence.Bus.{SnoopingBus, words_in_line}
use mesi_cache_coherence.Controller.{snoop}
use mesi_cache_coherence.Coherence.SnoopEffects.{
  snooped, flushes, state-snoop, words-snoop, mem-snoop, line_words-snoop, n_cores-snoop,
}
use mesi_cache_coherence.Coherence.Defs.{state_at, owns, Coherent}

-- An upgrade is only announced while no other core is dirty.
abbrev pub loses : BusTxn → State → Bool
loses bus_upgr M = true
loses txn st = false

snooped_I : (txn : BusTxn) (st : State) → snooped txn st ≢ I → st ≢ I
snooped_I bus_upgr I = ground arith
snooped_I txn st = ground arith

snooped-owns : (txn : BusTxn) (st : State) → owns (snooped txn st) ≡ true → snooped txn st ≡ st
snooped-owns bus_upgr I = ground arith
snooped-owns txn st = ground arith

dirty_saved : (txn : BusTxn) → loses txn M ≡ false → (flushes txn M ≡ true) ⊎ (snooped txn M ≡ M)
dirty_saved bus_upgr = ground arith
dirty_saved txn = ground arith

flushes_M : (txn : BusTxn) (st : State) → flushes txn st ≡ true → st ≡ M
flushes_M bus_upgr I = ground arith
flushes_M txn st = ground arith

flushes_cleans : (txn : BusTxn) (st : State) → flushes txn st ≡ true → snooped txn st ≢ M
flushes_cleans bus_upgr I = ground arith
flushes_cleans txn st = ground arith

module _ {m : ℕ → ℕ} {b : SnoopingBus} (c : Coherent m b) (txn : BusTxn) (addr id : ℕ)
    (safe : loses txn (state_at b id (line_of addr)) ≡ false) where
  abbrev line : ℕ
  line = line_of addr

  abbrev st : State
  st = state_at b id line

  abbrev next : SnoopingBus
  next = (snoop txn addr id b).0

  snoop-absent : (i l : ℕ) → next.n_cores ≤ i → state_at next i l ≡ I
  snoop-absent i l h =
      ground (arith, state-snoop txn addr id b i l, n_cores-snoop txn addr id b, c.absent i l)

  snoop-exclusive : (i j l : ℕ) → i ≢ j → owns (state_at next i l) ≡ true → state_at next j l ≡ I
  snoop-exclusive i j l n h = ground (
    arith,
    state-snoop txn addr id b i l,
    state-snoop txn addr id b j l,
    c.exclusive i j l,
    snooped-owns txn st,
  )

  words_next : (l : ℕ) → words_in_line next l ≡ words_in_line b l
  words_next l = ap (λ ws. get_or (ws l) []) (line_words-snoop txn addr id b)

  -- Where a line stays, its words stay.
  words_kept :
      (i a : ℕ)
      → state_at next i (line_of a) ≢ I
      → ((next.controllers i).words a ≡ (b.controllers i).words a) × (state_at b i (line_of a) ≢ I)
  words_kept i a h = ground (
    arith,
    state-snoop txn addr id b i (line_of a),
    words-snoop txn addr id b i a,
    c.within a line,
    snooped_I txn st,
  )

  snoop-current : (i a : ℕ) → state_at next i (line_of a) ≢ I → peek (next.controllers i) a ≡ m a
  snoop-current i a h = ground (arith, words_kept i a h, c.current i a)

  -- What the memory reads as: the value of the dirty owner, if the snoop flushed it.
  read-next :
      (a : ℕ)
      → (Memory.read next.mem a ≡ Memory.read b.mem a)
        ⊎ ((flushes txn st ≡ true) × (line_of a ≡ line) × (Memory.read next.mem a ≡ m a))
  read-next a = ground (
    arith,
    mem-snoop txn addr id b a,
    c.within a line,
    flushes_M txn st,
    c.current id a,
    c.unloaded id a,
  )

  -- A dirty line is flushed, or stays dirty.
  dirty_next :
      (i a : ℕ)
      → state_at b i (line_of a) ≡ M
      → (Memory.read next.mem a ≡ m a) ⊎ (state_at next i (line_of a) ≡ M)
  dirty_next i a dirty = ground (
    arith,
    state-snoop txn addr id b i (line_of a),
    mem-snoop txn addr id b a,
    dirty_saved txn,
    c.current i a,
    c.unloaded i a,
    c.registered i a,
  )

  snoop-backed :
      (a : ℕ) → (Memory.read next.mem a ≡ m a) ⊎ ((i : ℕ) × (state_at next i (line_of a) ≡ M))
  snoop-backed a = elim (c.backed a) [
    | inl clean ↦ inl (ground (arith, read-next a))
    | inr (i, dirty) ↦ elim (dirty_next i a dirty) [
      | inl saved ↦ inl saved
      | inr kept ↦ inr (i, kept)
    ]
  ]

  snoop-unloaded :
      (i a : ℕ)
      → state_at next i (line_of a) ≢ I
      → (next.controllers i).words a ≡ none
      → Memory.read next.mem a ≡ 0
  snoop-unloaded i a h e =
      ground (arith, words_kept i a h, c.unloaded i a, read-next a, c.current i a)

  snoop-dropped : (i a : ℕ) → state_at next i (line_of a) ≡ I → (next.controllers i).words a ≡ none
  snoop-dropped i a h = ground (
    arith,
    state-snoop txn addr id b i (line_of a),
    words-snoop txn addr id b i a,
    c.registered i a,
    c.dropped i a,
  )

  snoop-registered :
      (i a : ℕ)
      → is_some ((next.controllers i).words a) ≡ true
      → contains a (words_in_line next (line_of a)) ≡ true
  snoop-registered i a h =
      rw (words_next (line_of a)) (ground (arith, words-snoop txn addr id b i a, c.registered i a))

  snoop-stored :
      (a : ℕ)
      → is_some (next.mem.words a) ≡ true
      → contains a (words_in_line next (line_of a)) ≡ true
  snoop-stored a h =
      rw (words_next (line_of a))
        (ground (arith, mem-snoop txn addr id b a, c.stored a, c.registered id a))

  pub snoop-Coherent : Coherent m next
  snoop-Coherent = record {
    absent = snoop-absent;
    exclusive = snoop-exclusive;
    current = snoop-current;
    backed = snoop-backed;
    unloaded = snoop-unloaded;
    dropped = snoop-dropped;
    registered = snoop-registered;
    stored = snoop-stored;
    within = λ a l h. c.within a l (rw (← words_next l) h);
  }
