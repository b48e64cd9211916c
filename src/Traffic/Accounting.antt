-- ===== src/Traffic/Accounting.antt =====
-- Every operation of a controller and of the facade keeps the cycles of the bus accounted for.
use mesi_cache_coherence.Common.{ℕ, arith, Bool-cases, Result-cases, inl, inr, List, [], ◌∷◌}
use mesi_cache_coherence.Types.{State, I, S, E, M, bus_rd, bus_rdx, bus_upgr, is_I, line_of}
use mesi_cache_coherence.Bus.{RandomEngine, SnoopingBus, register_addr}
use mesi_cache_coherence.Perf.{total_bus_txns}
use mesi_cache_coherence.Cache.{line_state}
use mesi_cache_coherence.Controller.{
  read_miss, install, fill_line, own_line, processor_read, acquire_exclusive, count_hit, count_miss,
  count_stall,
}
use mesi_cache_coherence.System.{
  MesiSystem, locked_read, locked_write, locked_acquire, locked_put, locked_cas, locked_add,
  validate_core, log,
}
use mesi_cache_coherence.System
use mesi_cache_coherence.Refinement.Flat.{Request, read, write, cas, fetch_and_add, fence}
use mesi_cache_coherence.Refinement.Serve.{serve, settle, run}
use mesi_cache_coherence.Refinement.Steps.{after_read, after_write, after_cas, after_add}
use mesi_cache_coherence.Traffic.Counters.{Accounted, transaction-Accounted}

register-Accounted : (addr : ℕ) (b : SnoopingBus) → Accounted b → Accounted (register_addr addr b)
unfolding register_addr
register-Accounted addr b h = ground (arith, h)

module _ ⦃std : RandomEngine⦄ (id addr : ℕ) (b : SnoopingBus) (h : Accounted b) where
  read_miss-Accounted : Accounted (read_miss id addr b)
  unfolding read_miss install fill_line total_bus_txns
  read_miss-Accounted =
      transaction-Accounted bus_rd addr id (count_stall id (count_miss id b))
        (λ e. ground (arith, e)) h

  own_line-Accounted : (st : State) → Accounted (own_line st id addr b)
  unfolding own_line fill_line total_bus_txns
  own_line-Accounted M = h
  own_line-Accounted E = h
  own_line-Accounted S =
      transaction-Accounted bus_upgr addr id (count_stall id (count_hit id b))
        (λ e. ground (arith, e)) h
  own_line-Accounted I =
      transaction-Accounted bus_rdx addr id (count_stall id (count_miss id b))
        (λ e. ground (arith, e)) h

module _ ⦃std : RandomEngine⦄ (id addr : ℕ) (b : SnoopingBus) (h : Accounted b) where
  acquire-Accounted : Accounted (acquire_exclusive id addr b).0
  unfolding acquire_exclusive
  acquire-Accounted =
      let r = register_addr addr b in
      own_line-Accounted id addr r (register-Accounted addr b h)
        (line_state (r.controllers id) (line_of addr))

  processor_read-Accounted : Accounted (processor_read id addr b).0
  unfolding processor_read register_addr total_bus_txns
  processor_read-Accounted =
      let r = register_addr addr b in
      elim (Bool-cases (is_I (line_state (r.controllers id) (line_of addr)))) [
        | inl miss ↦ simp miss (read_miss-Accounted id addr r (register-Accounted addr b h))
        | inr hit ↦ simp hit (register-Accounted addr b h)
      ]

module _ ⦃std : RandomEngine⦄ where
  pub serve-Accounted :
      (q : Request) (s : MesiSystem) → Accounted s.bus → Accounted (settle s (serve q s)).0.bus
  unfolding serve System.read System.write System.cas System.fetch_and_add System.fence
  serve-Accounted (read core addr) s h = elim (Result-cases (validate_core core s)) [
    | inl (c, e) ↦ simp e (after_read Accounted c addr s (processor_read-Accounted c addr s.bus h))
    | inr (x, e) ↦ simp e h
  ]
  serve-Accounted (write core addr value) s h = elim (Result-cases (validate_core core s)) [
    | inl (c, e) ↦
        simp e
          (after_write Accounted c addr s (λ v b h. h) (acquire-Accounted c addr s.bus h) value)
    | inr (x, e) ↦ simp e h
  ]
  serve-Accounted (cas core addr expected new_val) s h =
      elim (Result-cases (validate_core core s)) [
        | inl (c, e) ↦ simp e (
            after_cas Accounted c addr s (λ v b h. h) (acquire-Accounted c addr s.bus h) expected
              new_val)
        | inr (x, e) ↦ simp e h
      ]
  serve-Accounted (fetch_and_add core addr delta) s h = elim (Result-cases (validate_core core s)) [
    | inl (c, e) ↦
        simp e (after_add Accounted c addr s (λ v b h. h) (acquire-Accounted c addr s.bus h) delta)
    | inr (x, e) ↦ simp e h
  ]
  serve-Accounted (fence core) s h = elim (Result-cases (validate_core core s)) [
    | inl (c, e) ↦ simp e h
    | inr (x, e) ↦ simp e h
  ]

  pub run-Accounted :
      (qs : List Request) (s : MesiSystem) → Accounted s.bus → Accounted (run qs s).0.bus
  unfolding run
  run-Accounted [] s h = h
  run-Accounted (q ∷ qs) s h = run-Accounted qs _ (serve-Accounted q s h)
