-- ===== src/Traffic/Guarantees.antt =====
-- What the counters of the bus say after any sequence of calls.
use mesi_cache_coherence.Common.{arith, ◌+◌, ◌<◌, u64, ℕ, ◌≡◌, refl, List, pos, ok}
use mesi_cache_coherence.Perf.{total_bus_txns}
use mesi_cache_coherence.Bus.{RandomEngine}
use mesi_cache_coherence.Bus
use mesi_cache_coherence.System.{MesiSystem}
use mesi_cache_coherence.System
use mesi_cache_coherence.Refinement.Flat.{Request}
use mesi_cache_coherence.Refinement.Serve.{run}
use mesi_cache_coherence.Refinement.Runs.{init-bus, init-Represents}
use mesi_cache_coherence.Traffic.Counters.{Accounted}
use mesi_cache_coherence.Traffic.Lookups.{lookups}
use mesi_cache_coherence.Traffic.Accesses.{accesses, lookups-run}
use mesi_cache_coherence.Traffic.Accounting.{run-Accounted}

init-Accounted :
    ⦃std : RandomEngine⦄ (count : ℕ) (s : MesiSystem)
    → System.init (pos count) ≡ ok s
    → Accounted s.bus
unfolding Bus.init total_bus_txns
init-Accounted count s fresh = rw (init-bus count fresh) refl

module _ ⦃std : RandomEngine⦄ (count : ℕ) (s : MesiSystem) (fresh : System.init (pos count) ≡ ok s)
    (qs : List Request) where
  -- After any sequence of calls on a fresh system, the cycles in which the bus was busy are as many
  -- as the transactions of all kinds, write-backs included, that the counters sum up to.
  pub bus_utilisation : (run qs s).0.bus.perf.bus_cycles_busy ≡ total_bus_txns (run qs s).0.bus.perf
  bus_utilisation = run-Accounted qs s (init-Accounted count s fresh)

  -- After any sequence of calls on a fresh system, the hits and the misses of a core that exists are
  -- together, in 64 bits, the number of the reads, writes, swaps and additions asked of that core.
  pub hits_and_misses :
      (j : ℕ)
      → j < count
      → let perf = (run qs s).0.bus.perf in
        u64 (perf.l1_hit j + perf.l1_miss j) ≡ u64 (accesses j qs)
  unfolding Bus.init
  hits_and_misses j lt = omega (arith, lookups-run j qs (init-Represents fresh) lt, none_yet)
    where
      none_yet : lookups j s.bus ≡ 0
      none_yet = rw (init-bus count fresh) refl
