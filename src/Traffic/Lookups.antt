-- ===== src/Traffic/Lookups.antt =====
-- Every access of a core counts as one hit or one miss of that core.
use mesi_cache_coherence.Common.{
  ℕ, ◌+◌, ◌≡◌, ◌∙◌, refl, ap, arith, if◌then◌else◌, ◌==◌, u64, Bool-cases, inl, inr,
}
use mesi_cache_coherence.Types.{State, I, S, E, M, BusTxn, bus_rd, bus_rdx, bus_upgr, is_I, line_of}
use mesi_cache_coherence.Bus.{RandomEngine, SnoopingBus, account, register_addr}
use mesi_cache_coherence.Cache.{line_state}
use mesi_cache_coherence.Controller.{
  read_miss, install, fill_line, own_line, processor_read, acquire_exclusive, count_hit, count_miss,
  count_stall, broadcast,
}
use mesi_cache_coherence.System.{MesiSystem, locked_read, locked_write, locked_cas, locked_add}
use mesi_cache_coherence.Refinement.Steps.{after_read, after_write, after_cas, after_add}
use mesi_cache_coherence.Traffic.Counters.{requests-broadcast}

-- The hits and the misses of core `j`.
abbrev pub lookups : ℕ → SnoopingBus → ℕ
lookups j b = u64 (b.perf.l1_hit j + b.perf.l1_miss j)

-- Core `id` has looked up once since.
abbrev pub LookedUp : ℕ → ℕ → SnoopingBus → SnoopingBus → Type 0
LookedUp j id b b' = lookups j b' ≡ u64 (lookups j b + (if id == j then 1 else 0))

lookups-account : (j : ℕ) (txn : BusTxn) (b : SnoopingBus) → lookups j (account txn b) ≡ lookups j b
unfolding account
lookups-account j txn b = ground arith

lookups-register_addr :
    (j addr : ℕ) (b : SnoopingBus) → lookups j (register_addr addr b) ≡ lookups j b
unfolding register_addr
lookups-register_addr j addr b = refl

module _ ⦃std : RandomEngine⦄ (j id addr : ℕ) (b : SnoopingBus) where
  lookups-transaction :
      (txn : BusTxn) → lookups j (account txn (broadcast txn addr id b).0) ≡ lookups j b
  lookups-transaction txn =
      lookups-account j txn _
      ∙ ap (λ (_, _, _, hits, misses). u64 (hits j + misses j)) (requests-broadcast txn addr id b)

module _ ⦃std : RandomEngine⦄ (j id addr : ℕ) (b : SnoopingBus) where
  hit-LookedUp : LookedUp j id b (count_hit id b)
  hit-LookedUp = ground arith

  miss-LookedUp : LookedUp j id b (count_miss id b)
  miss-LookedUp = ground arith

  read_miss-LookedUp : LookedUp j id b (read_miss id addr b)
  unfolding read_miss install fill_line
  read_miss-LookedUp =
      lookups-transaction j id addr (count_stall id (count_miss id b)) bus_rd ∙ miss-LookedUp

  own_line-LookedUp : (st : State) → LookedUp j id b (own_line st id addr b)
  unfolding own_line fill_line
  own_line-LookedUp M = hit-LookedUp
  own_line-LookedUp E = hit-LookedUp
  own_line-LookedUp S =
      lookups-transaction j id addr (count_stall id (count_hit id b)) bus_upgr ∙ hit-LookedUp
  own_line-LookedUp I =
      lookups-transaction j id addr (count_stall id (count_miss id b)) bus_rdx ∙ miss-LookedUp

module _ ⦃std : RandomEngine⦄ (j id addr : ℕ) (b : SnoopingBus) where
  acquire-LookedUp : LookedUp j id b (acquire_exclusive id addr b).0
  unfolding acquire_exclusive register_addr
  acquire-LookedUp =
      let r = register_addr addr b in
      own_line-LookedUp j id addr r (line_state (r.controllers id) (line_of addr))

  read-LookedUp : LookedUp j id b (processor_read id addr b).0
  unfolding processor_read register_addr
  read-LookedUp =
      let r = register_addr addr b in
      elim (Bool-cases (is_I (line_state (r.controllers id) (line_of addr)))) [
        | inl miss ↦ simp miss (read_miss-LookedUp j id addr r)
        | inr hit ↦ simp hit (hit-LookedUp j id addr r)
      ]

module _ ⦃std : RandomEngine⦄ (j core addr : ℕ) (s : MesiSystem) where
  pub locked_read-LookedUp : LookedUp j core s.bus (locked_read core addr s).0.bus
  locked_read-LookedUp =
      after_read (LookedUp j core s.bus) core addr s (read-LookedUp j core addr s.bus)

  pub locked_write-LookedUp :
      (value : ℕ) → LookedUp j core s.bus (locked_write core addr value s).bus
  locked_write-LookedUp =
      after_write (LookedUp j core s.bus) core addr s (λ v b h. h)
        (acquire-LookedUp j core addr s.bus)

  pub cas-LookedUp :
      (expected new_val : ℕ) → LookedUp j core s.bus (locked_cas core addr expected new_val s).0.bus
  cas-LookedUp =
      after_cas (LookedUp j core s.bus) core addr s (λ v b h. h)
        (acquire-LookedUp j core addr s.bus)

  pub add-LookedUp : (delta : ℕ) → LookedUp j core s.bus (locked_add core addr delta s).0.bus
  add-LookedUp =
      after_add (LookedUp j core s.bus) core addr s (λ v b h. h)
        (acquire-LookedUp j core addr s.bus)
