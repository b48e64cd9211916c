-- ===== src/Bus.antt =====
-- model/snooping_bus.hpp and the parts of model/snooping_bus.cpp that do not snoop: the state that
-- the bus owns, the registry of words, and the accounting. `std::shuffle` over a `std::mt19937_64`
-- is a parameter, `RandomEngine`; the engine's state is coded as a number.
use mesi_cache_coherence.Common.{
  ℕ, zero, suc, ◌+◌, ◌%◌, ◌≡◌, Bool, true, false, List, [], ◌∷◌, Map, none, insert, get_or, update,
  if◌then◌else◌, ◌==◌, contains, count,
}
use mesi_cache_coherence.Types.{BusTxn, no_txn, bus_rd, bus_rdx, bus_upgr, bus_wb, line_of}
use mesi_cache_coherence.Memory.{Memory}
use mesi_cache_coherence.Memory
use mesi_cache_coherence.Perf.{PerfCounters, inc}
use mesi_cache_coherence.Perf
use mesi_cache_coherence.Cache.{CacheController}
use mesi_cache_coherence.Cache

-- The engine fresh and seeded, its next number, and a shuffle. A shuffled list holds what the list held, as often.
pub record RandomEngine : Type 0 where
  pub fresh : ℕ
  pub seeded : ℕ → ℕ
  pub next : ℕ → ℕ × ℕ
  pub shuffle : ℕ → List ℕ → List ℕ × ℕ
  pub count-shuffle : (g : ℕ) (xs : List ℕ) (i : ℕ) → count i (shuffle g xs).0 ≡ count i xs

-- The controllers are a family over their ids, of which the first `n_cores` exist.
pub record SnoopingBus : Type 0 where
  pub n_cores : ℕ
  pub controllers : ℕ → CacheController
  pub mem : Memory
  pub perf : PerfCounters
  pub line_words : Map (List ℕ)
  pub arb_ptr : ℕ
  pub race : Bool
  pub rng : ℕ

abbrev pub words_in_line : SnoopingBus → ℕ → List ℕ
words_in_line b line = get_or (b.line_words line) []

-- `std::unordered_set::insert`
unfoldable pub add_word : ℕ → List ℕ → List ℕ
add_word a ws = if contains a ws then ws else a ∷ ws

unfoldable pub register_addr : ℕ → SnoopingBus → SnoopingBus
register_addr addr b = record b {
  line_words = insert b.line_words (line_of addr) (add_word addr (words_in_line b (line_of addr)));
}

-- What a controller does to itself.
abbrev pub on_controller : ℕ → (CacheController → CacheController) → SnoopingBus → SnoopingBus
on_controller id f b = record b { controllers = update b.controllers id (f (b.controllers id)) }

unfoldable pub advance_arb : SnoopingBus → SnoopingBus
advance_arb b = record b { arb_ptr = (b.arb_ptr + 1) % b.n_cores }

unfoldable pub count_txn : BusTxn → PerfCounters → PerfCounters
count_txn bus_rd p = record p { bus_rd_count = inc p.bus_rd_count }
count_txn bus_rdx p = record p { bus_rdx_count = inc p.bus_rdx_count }
count_txn bus_upgr p = record p { bus_upgr_count = inc p.bus_upgr_count }
count_txn bus_wb p = record p { bus_wb_count = inc p.bus_wb_count }
count_txn no_txn p = p

unfoldable pub account : BusTxn → SnoopingBus → SnoopingBus
unfolding count_txn advance_arb
account txn b = advance_arb (record b { perf = count_txn txn busy })
  where
    busy : PerfCounters
    busy = record b.perf { bus_cycles_busy = inc b.perf.bus_cycles_busy }

-- The loop of `broadcast` that collects the others, `k` rounds from controller `i`.
unfoldable pub others_from : ℕ → ℕ → ℕ → List ℕ
others_from zero i issuer = []
others_from (suc k) i issuer =
    let rest = others_from k (i + 1) issuer in if i == issuer then rest else i ∷ rest

module _ ⦃std : RandomEngine⦄ where
  unfoldable pub init : ℕ → SnoopingBus
  init n_cores = record {
    n_cores = n_cores;
    controllers = λ _. Cache.init;
    mem = Memory.init;
    perf = Perf.init;
    line_words = λ _. none;
    arb_ptr = 0;
    race = false;
    rng = std.fresh;
  }

  unfoldable pub enable_race_injection : ℕ → SnoopingBus → SnoopingBus
  enable_race_injection seed b = record b { race = true; rng = std.seeded seed }

  -- The order of the snoops, and the bus after it has been drawn.
  unfoldable pub snoop_order : ℕ → SnoopingBus → List ℕ × SnoopingBus
  unfolding others_from
  snoop_order issuer b =
      let order = others_from b.n_cores 0 issuer in
      let (shuffled, g) = std.shuffle b.rng order in
      if b.race then (shuffled, record b { rng = g }) else (order, b)
