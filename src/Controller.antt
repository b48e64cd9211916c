-- ===== src/Controller.antt =====
-- model/cache_controller.cpp and the broadcast of model/snooping_bus.cpp: what a controller does
-- for its processor and what it answers on the bus. Every function acts on the whole bus, through
-- which the source's controllers reach the memory, the registry and each other.
use mesi_cache_coherence.Common.{ℕ, true, false, List, [], ◌∷◌, if◌then◌else◌}
use mesi_cache_coherence.Types.{
  State, I, S, E, M, BusTxn, bus_rd, bus_rdx, bus_upgr, bus_wb, SnoopResult, no_reply, or_result,
  line_of, is_I,
}
use mesi_cache_coherence.Memory.{Memory}
use mesi_cache_coherence.Memory
use mesi_cache_coherence.Perf.{inc_at}
use mesi_cache_coherence.Cache.{
  CacheController, line_state, has_word, peek, set_state, put_word, drop_words,
}
use mesi_cache_coherence.Bus.{
  RandomEngine, SnoopingBus, words_in_line, register_addr, on_controller, account, snoop_order,
}

-- `fill_line`, over the words of the line: each is loaded from memory.
unfoldable pub fill_words : Memory → List ℕ → CacheController → CacheController
fill_words m [] c = c
fill_words m (a ∷ rest) c = fill_words m rest (put_word a (Memory.read m a) c)

unfoldable pub fill_line : ℕ → ℕ → SnoopingBus → SnoopingBus
unfolding fill_words
fill_line id line b = on_controller id (fill_words b.mem (words_in_line b line)) b

-- `writeback_line`, over the words of the line: those held go to memory.
unfoldable pub store_words : CacheController → List ℕ → Memory → Memory
store_words c [] m = m
store_words c (a ∷ rest) m =
    store_words c rest (if has_word c a then Memory.write a (peek c a) m else m)

unfoldable pub writeback_line : ℕ → ℕ → SnoopingBus → SnoopingBus
unfolding store_words
writeback_line id line b = record b {
  mem = Memory.served (store_words (b.controllers id) (words_in_line b line) b.mem);
}

unfoldable pub drop_line_words : ℕ → ℕ → SnoopingBus → SnoopingBus
unfolding drop_words
drop_line_words id line b = on_controller id (drop_words (words_in_line b line)) b

-- The counters of one core.
abbrev pub count_hit : ℕ → SnoopingBus → SnoopingBus
count_hit id b = record b { perf = record b.perf { l1_hit = inc_at b.perf.l1_hit id } }

abbrev pub count_miss : ℕ → SnoopingBus → SnoopingBus
count_miss id b = record b { perf = record b.perf { l1_miss = inc_at b.perf.l1_miss id } }

abbrev pub count_stall : ℕ → SnoopingBus → SnoopingBus
count_stall id b = record b {
  perf = record b.perf { stall_cycles = inc_at b.perf.stall_cycles id };
}

abbrev pub count_inv : ℕ → SnoopingBus → SnoopingBus
count_inv id b = record b { perf = record b.perf { inv_count = inc_at b.perf.inv_count id } }

-- The write-back of a dirty line that a snoop forces, with its bus transaction.
unfoldable pub flush : ℕ → ℕ → SnoopingBus → SnoopingBus
unfolding writeback_line account
flush id line b = account bus_wb (writeback_line id line b)

unfoldable pub invalidate : ℕ → ℕ → SnoopingBus → SnoopingBus
unfolding drop_line_words
invalidate id line b =
    count_inv id (drop_line_words id line (on_controller id (set_state line I) b))

abbrev pub held : SnoopResult
held = record { had_copy = true; intervened = false }

abbrev pub supplied : SnoopResult
supplied = record { had_copy = true; intervened = true }

-- The `switch` of `snoop`, for controller `id` whose line is in the given state, not I.
unfoldable pub react : BusTxn → State → ℕ → ℕ → SnoopingBus → SnoopingBus × SnoopResult
unfolding flush invalidate
react txn I id line b = (b, no_reply)
react bus_rd M id line b = (on_controller id (set_state line S) (flush id line b), supplied)
react bus_rd E id line b = (on_controller id (set_state line S) b, held)
react bus_rd S id line b = (b, held)
react bus_rdx M id line b = (invalidate id line (flush id line b), supplied)
react bus_rdx st id line b = (invalidate id line b, held)
react bus_upgr st id line b = (invalidate id line b, held)
react txn st id line b = (b, held)

unfoldable pub snoop : BusTxn → ℕ → ℕ → SnoopingBus → SnoopingBus × SnoopResult
unfolding react
snoop txn addr id b = react txn (line_state (b.controllers id) (line_of addr)) id (line_of addr) b

-- The loop of `broadcast`.
unfoldable pub snoop_each :
    BusTxn → ℕ → List ℕ → SnoopResult → SnoopingBus → SnoopingBus × SnoopResult
snoop_each txn addr [] agg b = (b, agg)
snoop_each txn addr (i ∷ rest) agg b =
    let (b', r) = snoop txn addr i b in snoop_each txn addr rest (or_result agg r) b'

module _ ⦃std : RandomEngine⦄ where
  unfoldable pub broadcast : BusTxn → ℕ → ℕ → SnoopingBus → SnoopingBus × SnoopResult
  broadcast txn addr issuer b =
      let (order, b') = snoop_order issuer b in snoop_each txn addr order no_reply b'

  -- The end of a read miss: fill, and Shared if another cache still holds the line.
  unfoldable pub install : ℕ → ℕ → SnoopResult → SnoopingBus → SnoopingBus
  install id line sr b =
      on_controller id (set_state line (if sr.had_copy then S else E)) (fill_line id line b)

  unfoldable pub read_miss : ℕ → ℕ → SnoopingBus → SnoopingBus
  read_miss id addr b =
      let (b', sr) = broadcast bus_rd addr id (count_stall id (count_miss id b)) in
      install id (line_of addr) sr (account bus_rd b')

  unfoldable pub processor_read : ℕ → ℕ → SnoopingBus → SnoopingBus × ℕ
  processor_read id addr b =
      let r = register_addr addr b in
      let st = line_state (r.controllers id) (line_of addr) in
      let b' = (if is_I st then read_miss id addr r else count_hit id r) in
      (b', peek (b'.controllers id) addr)

  -- The `switch` of `acquire_exclusive`.
  unfoldable pub own_line : State → ℕ → ℕ → SnoopingBus → SnoopingBus
  own_line M id addr b = count_hit id b
  own_line E id addr b = on_controller id (set_state (line_of addr) M) (count_hit id b)
  own_line S id addr b =
      let (b', _) = broadcast bus_upgr addr id (count_stall id (count_hit id b)) in
      on_controller id (set_state (line_of addr) M) (account bus_upgr b')
  own_line I id addr b =
      let (b', _) = broadcast bus_rdx addr id (count_stall id (count_miss id b)) in
      on_controller id (set_state (line_of addr) M)
        (fill_line id (line_of addr) (account bus_rdx b'))

  unfoldable pub acquire_exclusive : ℕ → ℕ → SnoopingBus → SnoopingBus × ℕ
  acquire_exclusive id addr b =
      let r = register_addr addr b in
      let b' = own_line (line_state (r.controllers id) (line_of addr)) id addr r in
      (b', peek (b'.controllers id) addr)

  unfoldable pub processor_write : ℕ → ℕ → ℕ → SnoopingBus → SnoopingBus
  processor_write id addr value b =
      on_controller id (put_word addr value) (acquire_exclusive id addr b).0
