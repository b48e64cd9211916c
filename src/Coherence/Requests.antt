-- ===== src/Coherence/Requests.antt =====
-- A broadcast of a request, a read miss and the acquisition of a line keep the flat memory.
use mesi_cache_coherence.Common.{
  ℕ, ◌<◌, ◌≡◌, ◌≢◌, inl, inr, refl, true, false, not, ◌&&◌, arith, if◌then◌else◌, ◌==◌, contains,
  List, ◌∙◌,
}
use mesi_cache_coherence.Types.{
  State, I, S, E, M, BusTxn, bus_rd, bus_rdx, bus_upgr, line_of, no_reply,
}
use mesi_cache_coherence.Bus.{RandomEngine, SnoopingBus, account, snoop_order}
use mesi_cache_coherence.Controller.{
  fill_line, count_hit, count_miss, count_stall, broadcast, install, read_miss, own_line,
}
use mesi_cache_coherence.Coherence.SnoopEffects.{snooped}
use mesi_cache_coherence.Coherence.SnoopStep.{loses}
use mesi_cache_coherence.Coherence.Broadcast.{
  snoop_each-Coherent, state-snoop_each, frame-snoop_each, had_copy-snoop_each, copy-snoop_each,
  contains-snoop_order, frame-snoop_order,
}
use mesi_cache_coherence.Coherence.Defs.{state_at, Coherent}
use mesi_cache_coherence.Coherence.Lines.{
  account-Coherent, count_miss-Coherent, count_hit-Coherent, count_upgrade-Coherent,
  snoop_order-Coherent, own-Coherent, fill-Coherent,
}

module _ ⦃std : RandomEngine⦄ (txn : BusTxn) (addr id : ℕ) {m : ℕ → ℕ} {b : SnoopingBus}
    (c : Coherent m b) where
  abbrev line : ℕ
  line = line_of addr

  abbrev order : List ℕ
  order = (snoop_order id b).0

  abbrev drawn : SnoopingBus
  drawn = (snoop_order id b).1

  listed : (j : ℕ) → state_at b j line ≢ I → j ≢ id → contains j order ≡ true
  listed j held n = ground (arith, contains-snoop_order id b j, c.absent j line)

  pub broadcast-Coherent :
      ((j : ℕ) → j ≢ id → loses txn (state_at b j line) ≡ false)
      → Coherent m (broadcast txn addr id b).0
  unfolding broadcast
  broadcast-Coherent safe =
      snoop_each-Coherent txn addr order no_reply drawn
        (λ i h. ground (arith, contains-snoop_order id b i, safe i, frame-snoop_order id b))
        (snoop_order-Coherent c id)

  pub state-broadcast :
      (j l : ℕ)
      → state_at (broadcast txn addr id b).0 j l
        ≡ (if not (j == id) && l == line then snooped txn (state_at b j l) else state_at b j l)
  unfolding broadcast
  state-broadcast j l = ground (
    arith,
    state-snoop_each txn addr order no_reply drawn j l,
    frame-snoop_order id b,
    contains-snoop_order id b j,
    c.absent j l,
  )

  pub frame-broadcast :
      let b' = (broadcast txn addr id b).0 in
      (b'.line_words ≡ b.line_words) × (b'.n_cores ≡ b.n_cores)
  unfolding broadcast
  frame-broadcast =
      let f = frame-snoop_each txn addr order no_reply drawn in
      (f.0 ∙ (frame-snoop_order id b).1, f.1 ∙ (frame-snoop_order id b).2)

  -- The reply says exactly whether another core held a copy.
  pub had_copy-broadcast :
      (j : ℕ) → (broadcast txn addr id b).1.had_copy ≡ false → j ≢ id → state_at b j line ≡ I
  unfolding broadcast
  had_copy-broadcast j h n =
      let (_, none_left) = had_copy-snoop_each txn addr order no_reply drawn h in
      ground (arith, none_left j, frame-snoop_order id b, listed j)

  pub copy-broadcast :
      (broadcast txn addr id b).1.had_copy ≡ true → (j : ℕ) × (j ≢ id) × (state_at b j line ≢ I)
  unfolding broadcast
  copy-broadcast h = elim (copy-snoop_each txn addr order no_reply drawn h) [
    | inl e ↦ absurd (ground arith)
    | inr (j, l, held) ↦
        (j, ground (arith, contains-snoop_order id b j), ground (arith, frame-snoop_order id b))
  ]

module _ ⦃std : RandomEngine⦄ (addr id : ℕ) {m : ℕ → ℕ} {b : SnoopingBus} (c : Coherent m b)
    (exists : id < b.n_cores) where
  -- After the broadcast of a read nobody is dirty or exclusive; the reader installs S or E.
  pub read_miss-Coherent : state_at b id (line_of addr) ≡ I → Coherent m (read_miss id addr b)
  unfolding read_miss install account
  read_miss-Coherent empty =
      fill-Coherent (account-Coherent (broadcast-Coherent bus_rd addr id c₀ (λ j n. refl)) bus_rd)
        id (line_of addr) _ (rw n_cores exists) (ground arith) (ground (arith, states id))
        (λ j. ground (arith, states j))
        (λ j held. ground (arith, states j, had_copy-broadcast bus_rd addr id c₀ j, empty))
    where
      c₀ : Coherent m (count_stall id (count_miss id b))
      c₀ = count_miss-Coherent c id

      n_cores : (broadcast bus_rd addr id (count_stall id (count_miss id b))).0.n_cores ≡ b.n_cores
      n_cores = (frame-broadcast bus_rd addr id c₀).1

      states :
          (j : ℕ)
          → state_at
              (broadcast bus_rd addr id (count_stall id (count_miss id b))).0
              j
              (line_of addr)
            ≡ (if not (j == id) then snooped bus_rd (state_at b j (line_of addr)) else I)
      states j = ground (arith, state-broadcast bus_rd addr id c₀ j (line_of addr))

  -- After an upgrade or a read for ownership every other copy is gone; the writer is dirty.
  pub upgrade-Coherent : state_at b id (line_of addr) ≡ S → Coherent m (own_line S id addr b)
  unfolding own_line account
  upgrade-Coherent shared =
      own-Coherent (account-Coherent (broadcast-Coherent bus_upgr addr id c₀ safe) bus_upgr) id
        (line_of addr) (ground (arith, states id)) (λ j n. ground (arith, states j))
    where
      c₀ : Coherent m (count_stall id (count_hit id b))
      c₀ = count_upgrade-Coherent c id

      safe : (j : ℕ) → j ≢ id → loses bus_upgr (state_at b j (line_of addr)) ≡ false
      safe j n = ground (arith, c.exclusive j id (line_of addr))

      states :
          (j : ℕ)
          → state_at
              (broadcast bus_upgr addr id (count_stall id (count_hit id b))).0
              j
              (line_of addr)
            ≡ (if j == id then S else I)
      states j = ground (arith, state-broadcast bus_upgr addr id c₀ j (line_of addr))

  pub write_miss-Coherent : state_at b id (line_of addr) ≡ I → Coherent m (own_line I id addr b)
  unfolding own_line account
  write_miss-Coherent empty =
      fill-Coherent (account-Coherent (broadcast-Coherent bus_rdx addr id c₀ (λ j n. refl)) bus_rdx)
        id (line_of addr) M (rw n_cores exists) (ground arith) (states id)
        (λ j. ground (arith, states j)) (λ j held. absurd (held (states j)))
    where
      c₀ : Coherent m (count_stall id (count_miss id b))
      c₀ = count_miss-Coherent c id

      n_cores : (broadcast bus_rdx addr id (count_stall id (count_miss id b))).0.n_cores ≡ b.n_cores
      n_cores = (frame-broadcast bus_rdx addr id c₀).1

      states :
          (j : ℕ)
          → state_at
              (broadcast bus_rdx addr id (count_stall id (count_miss id b))).0
              j
              (line_of addr)
            ≡ I
      states j = ground (arith, state-broadcast bus_rdx addr id c₀ j (line_of addr))

  pub own_line-Coherent :
      (st : State) → state_at b id (line_of addr) ≡ st → Coherent m (own_line st id addr b)
  unfolding own_line
  own_line-Coherent M e = count_hit-Coherent c id
  own_line-Coherent E e =
      own-Coherent (count_hit-Coherent c id) id (line_of addr) (ground arith)
        (λ j n. ground (arith, c.exclusive id j (line_of addr)))
  own_line-Coherent S e = upgrade-Coherent e
  own_line-Coherent I e = write_miss-Coherent e

  pub own_line-dirty :
      (st : State)
      → state_at b id (line_of addr) ≡ st
      → state_at (own_line st id addr b) id (line_of addr) ≡ M
  unfolding own_line
  own_line-dirty M e = e
  own_line-dirty st e = ground arith

  pub own_line-registry : (st : State) → (own_line st id addr b).line_words ≡ b.line_words
  unfolding own_line account fill_line
  own_line-registry M = refl
  own_line-registry E = refl
  own_line-registry S = (frame-broadcast bus_upgr addr id (count_upgrade-Coherent c id)).0
  own_line-registry I = (frame-broadcast bus_rdx addr id (count_miss-Coherent c id)).0

  pub own_line-n_cores : (st : State) → (own_line st id addr b).n_cores ≡ b.n_cores
  unfolding own_line account fill_line
  own_line-n_cores M = refl
  own_line-n_cores E = refl
  own_line-n_cores S = (frame-broadcast bus_upgr addr id (count_upgrade-Coherent c id)).1
  own_line-n_cores I = (frame-broadcast bus_rdx addr id (count_miss-Coherent c id)).1

  pub read_miss-n_cores : (read_miss id addr b).n_cores ≡ b.n_cores
  unfolding read_miss install account fill_line
  read_miss-n_cores = (frame-broadcast bus_rd addr id (count_miss-Coherent c id)).1

  pub read_miss-held : state_at (read_miss id addr b) id (line_of addr) ≢ I
  unfolding read_miss install fill_line
  read_miss-held = ground arith
