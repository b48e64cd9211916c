-- ===== src/Transitions/Bus.antt =====
-- The operations of a controller do as the table says.
use mesi_cache_coherence.Common.{
  ℕ, ◌<◌, ◌≡◌, ◌≢◌, ◌∙◌, refl, sym, ap, inl, inr, Bool, true, false, not, ◌&&◌, ◌==◌, ltb,
  Bool-cases, arith, tally_none, tally_some,
}
use mesi_cache_coherence.Types.{
  State, I, S, E, M, bus_rd, bus_rdx, bus_upgr, PrReq, pr_rd, pr_wr, is_I, line_of,
}
use mesi_cache_coherence.Bus.{RandomEngine, SnoopingBus, account, register_addr, words_in_line}
use mesi_cache_coherence.Controller.{
  fill_line, count_hit, count_miss, count_stall, broadcast, install, read_miss, own_line,
  processor_read, acquire_exclusive,
}
use mesi_cache_coherence.Coherence.Defs.{Coherent, state_at}
use mesi_cache_coherence.Coherence.Effects.{state-fill_words}
use mesi_cache_coherence.Coherence.Lines.{
  count_miss-Coherent, count_upgrade-Coherent, register-Coherent,
}
use mesi_cache_coherence.Coherence.Requests.{state-broadcast, had_copy-broadcast, copy-broadcast}
use mesi_cache_coherence.Traffic.Counters.{requests-broadcast}
use mesi_cache_coherence.Transitions.{req_txn, counted, counts, held_elsewhere, next_state, Follows}

state-fill_line :
    (id line : ℕ) (b : SnoopingBus) (j l : ℕ) → state_at (fill_line id line b) j l ≡ state_at b j l
unfolding fill_line
state-fill_line id line b j l =
    ground (arith, state-fill_words b.mem (words_in_line b line) (b.controllers id))

module _ ⦃std : RandomEngine⦄ (id addr : ℕ) {m : ℕ → ℕ} {b : SnoopingBus} (c : Coherent m b) where
  abbrev line : ℕ
  line = line_of addr

  abbrev missed : SnoopingBus
  missed = count_stall id (count_miss id b)

  -- The reply to a read tells whether another core has the line.
  reply : (broadcast bus_rd addr id missed).1.had_copy ≡ held_elsewhere b id line
  unfolding held_elsewhere
  reply =
      let c₀ : Coherent m missed = count_miss-Coherent c id in
      elim (Bool-cases (broadcast bus_rd addr id missed).1.had_copy) [
        | inl copy ↦
            let (j, differs, held) = copy-broadcast bus_rd addr id c₀ copy in
            copy
            ∙ sym (
                positive (
                  tally_some b.n_cores elsewhere j (present j held)
                    (ground (arith, differs, held))))
        | inr none_left ↦
            none_left
            ∙ sym (
                rw
                  (tally_none b.n_cores elsewhere
                    (λ j lt. ground (arith, had_copy-broadcast bus_rd addr id c₀ j none_left)))
                  refl)
      ]
    where
      elsewhere : ℕ → Bool
      elsewhere j = not (j == id) && not (is_I (state_at b j line))

      positive : {k : ℕ} → 0 < k → ltb 0 k ≡ true
      positive h = ground arith

      present : (j : ℕ) → state_at b j line ≢ I → j < b.n_cores
      present j held = ground (arith, c.absent j line)

  state-read_miss :
      state_at b id line ≡ I
      → (j l : ℕ) → state_at (read_miss id addr b) j l ≡ next_state b id line pr_rd j l
  unfolding read_miss install account
  state-read_miss empty j l = ground (
    arith,
    reply,
    state-broadcast bus_rd addr id (count_miss-Coherent c id) j l,
    state-fill_line id line (account bus_rd (broadcast bus_rd addr id missed).0) j l,
  )

  traffic-read_miss :
      state_at b id line ≡ I → counts (read_miss id addr b) ≡ counted bus_rd (counts b)
  unfolding read_miss install fill_line account
  traffic-read_miss empty =
      ap (λ (rd, rdx, upgr, _, _). counted bus_rd (rd, rdx, upgr))
        (requests-broadcast bus_rd addr id missed)

  state-own_line :
      (st : State)
      → state_at b id line ≡ st
      → (j l : ℕ) → state_at (own_line st id addr b) j l ≡ next_state b id line pr_wr j l
  unfolding own_line account
  state-own_line M e j l = ground arith
  state-own_line E e j l = ground arith
  state-own_line S e j l =
      ground (arith, state-broadcast bus_upgr addr id (count_upgrade-Coherent c id) j l)
  state-own_line I e j l = ground (
    arith,
    state-broadcast bus_rdx addr id (count_miss-Coherent c id) j l,
    state-fill_line id line (account bus_rdx (broadcast bus_rdx addr id missed).0) j l,
  )

  traffic-own_line :
      (st : State) → counts (own_line st id addr b) ≡ counted (req_txn st pr_wr) (counts b)
  unfolding own_line fill_line account
  traffic-own_line M = refl
  traffic-own_line E = refl
  traffic-own_line S =
      ap (λ (rd, rdx, upgr, _, _). counted bus_upgr (rd, rdx, upgr))
        (requests-broadcast bus_upgr addr id (count_stall id (count_hit id b)))
  traffic-own_line I =
      ap (λ (rd, rdx, upgr, _, _). counted bus_rdx (rd, rdx, upgr))
        (requests-broadcast bus_rdx addr id missed)

module _ ⦃std : RandomEngine⦄ (id addr : ℕ) {m : ℕ → ℕ} {b : SnoopingBus} (c : Coherent m b) where
  read_miss-Follows :
      state_at b id (line_of addr) ≡ I → Follows b id (line_of addr) pr_rd (read_miss id addr b)
  read_miss-Follows empty = record {
    states = state-read_miss id addr c empty;
    traffic = rw empty (traffic-read_miss id addr c empty);
  }

  count_hit-Follows :
      (st : State)
      → state_at b id (line_of addr) ≡ st
      → is_I st ≡ false
      → Follows b id (line_of addr) pr_rd (count_hit id b)
  count_hit-Follows I e h = cc
  count_hit-Follows st e h = record { states = λ j l. ground arith; traffic = rw e refl }

  own_line-Follows :
      Follows b id (line_of addr) pr_wr (own_line (state_at b id (line_of addr)) id addr b)
  own_line-Follows = record {
    states = state-own_line id addr c _ refl;
    traffic = traffic-own_line id addr c _;
  }

-- To register a word changes no state and no counter.
register-Follows :
    (addr : ℕ) (b : SnoopingBus) {id line : ℕ} {pr : PrReq} {b' : SnoopingBus}
    → Follows (register_addr addr b) id line pr b'
    → Follows b id line pr b'
unfolding register_addr held_elsewhere
register-Follows addr b f = record { states = f.states; traffic = f.traffic }

module _ ⦃std : RandomEngine⦄ (id addr : ℕ) {m : ℕ → ℕ} {b : SnoopingBus} (c : Coherent m b) where
  abbrev r : SnoopingBus
  r = register_addr addr b

  pub read-Follows : Follows b id (line_of addr) pr_rd (processor_read id addr b).0
  unfolding processor_read
  read-Follows = elim (Bool-cases (is_I (state_at r id (line_of addr)))) [
    | inl miss ↦
        register-Follows addr b
          (simp miss (read_miss-Follows id addr (register-Coherent c addr) (ground arith)))
    | inr hit ↦
        register-Follows addr b
          (simp hit (count_hit-Follows id addr (register-Coherent c addr) _ refl hit))
  ]

  pub acquire-Follows : Follows b id (line_of addr) pr_wr (acquire_exclusive id addr b).0
  unfolding acquire_exclusive
  acquire-Follows = register-Follows addr b (own_line-Follows id addr (register-Coherent c addr))
