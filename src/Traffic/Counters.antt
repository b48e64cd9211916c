-- ===== src/Traffic/Counters.antt =====
-- What a snoop and a broadcast leave of the counters.
use mesi_cache_coherence.Common.{ℕ, ◌≡◌, ◌≢◌, refl, List, [], ◌∷◌, ◌∙◌, arith}
use mesi_cache_coherence.Types.{
  State, I, BusTxn, no_txn, bus_rd, bus_rdx, bus_upgr, bus_wb, SnoopResult,
}
use mesi_cache_coherence.Perf.{total_bus_txns}
use mesi_cache_coherence.Bus.{RandomEngine, SnoopingBus, account, snoop_order}
use mesi_cache_coherence.Controller.{react, snoop, snoop_each, broadcast}

-- What no snoop counts: reads, reads for ownership, upgrades, and the hits and misses of the cores.
abbrev pub requests : SnoopingBus → ℕ × ℕ × ℕ × (ℕ → ℕ) × (ℕ → ℕ)
requests b = (
  b.perf.bus_rd_count, b.perf.bus_rdx_count, b.perf.bus_upgr_count, b.perf.l1_hit, b.perf.l1_miss,
)

-- Every cycle of the bus is that of one counted transaction.
abbrev pub Accounted : SnoopingBus → Type 0
Accounted b = b.perf.bus_cycles_busy ≡ total_bus_txns b.perf

pub account-Accounted :
    (txn : BusTxn) (b : SnoopingBus) → txn ≢ no_txn → Accounted b → Accounted (account txn b)
unfolding account total_bus_txns
account-Accounted no_txn b some h = absurd (some refl)
account-Accounted bus_rd b some h = omega (arith, h)
account-Accounted bus_rdx b some h = omega (arith, h)
account-Accounted bus_upgr b some h = omega (arith, h)
account-Accounted bus_wb b some h = omega (arith, h)

module _ (id line : ℕ) (b : SnoopingBus) where
  requests-react : (txn : BusTxn) (st : State) → requests (react txn st id line b).0 ≡ requests b
  unfolding react account
  requests-react no_txn I = refl
  requests-react txn st = ground arith

  react-Accounted : (txn : BusTxn) (st : State) → Accounted b → Accounted (react txn st id line b).0
  unfolding react account total_bus_txns
  react-Accounted no_txn I h = h
  react-Accounted txn st h = ground (arith, h)

module _ (txn : BusTxn) (addr : ℕ) where
  requests-snoop_each :
      (order : List ℕ) (agg : SnoopResult) (b : SnoopingBus)
      → requests (snoop_each txn addr order agg b).0 ≡ requests b
  unfolding snoop_each snoop
  requests-snoop_each [] agg b = refl
  requests-snoop_each (i ∷ rest) agg b = requests-snoop_each rest _ _ ∙ requests-react i _ b txn _

  snoop_each-Accounted :
      (order : List ℕ) (agg : SnoopResult) (b : SnoopingBus)
      → Accounted b
      → Accounted (snoop_each txn addr order agg b).0
  unfolding snoop_each snoop
  snoop_each-Accounted [] agg b h = h
  snoop_each-Accounted (i ∷ rest) agg b h =
      snoop_each-Accounted rest _ _ (react-Accounted i _ b txn _ h)

  module _ ⦃std : RandomEngine⦄ (id : ℕ) (b : SnoopingBus) where
    pub requests-broadcast : requests (broadcast txn addr id b).0 ≡ requests b
    unfolding broadcast snoop_order
    requests-broadcast = requests-snoop_each _ _ _ ∙ ground arith

    pub broadcast-Accounted : Accounted b → Accounted (broadcast txn addr id b).0
    unfolding broadcast snoop_order
    broadcast-Accounted h = snoop_each-Accounted _ _ _ (ground (arith, h))

    pub transaction-Accounted :
        txn ≢ no_txn → Accounted b → Accounted (account txn (broadcast txn addr id b).0)
    transaction-Accounted some h = account-Accounted txn _ some (broadcast-Accounted h)
