-- ===== src/Examples/Counters.antt =====
-- The counters after concrete calls.
use mesi_cache_coherence.Common.{◌≡◌, arith, u64, ◌+◌, [], ◌∷◌, ok}
use mesi_cache_coherence.Types.{line_of}
use mesi_cache_coherence.Bus
use mesi_cache_coherence.Perf.{total_bus_txns}
use mesi_cache_coherence.Refinement.Serve.{run}
use mesi_cache_coherence.Traffic.Guarantees.{bus_utilisation, hits_and_misses}
use mesi_cache_coherence.Refinement.Flat.{done, word}
use mesi_cache_coherence.Workloads.Guarantees.{
  producer_consumer_delivery, reader_storm_traffic, ping_pong_traffic, false_sharing_traffic,
}
use mesi_cache_coherence.Workloads.{producer_consumer, reader_storm, ping_pong, false_sharing}
use mesi_cache_coherence.Workloads.Delivery.{written, delivered_from}
use mesi_cache_coherence.Traffic.Accesses.{accesses}
use mesi_cache_coherence.Examples.Setup.{rotating, system_of, init_two}
use mesi_cache_coherence.Examples.Protocol.{calls}

bus_utilisation_example :
    (run calls (system_of 2)).0.bus.perf.bus_cycles_busy
    ≡ total_bus_txns (run calls (system_of 2)).0.bus.perf
bus_utilisation_example = bus_utilisation 2 (system_of 2) init_two calls

-- Core 1 has read a word and swapped another.
hits_and_misses_example :
    let perf = (run calls (system_of 2)).0.bus.perf in u64 (perf.l1_hit 1 + perf.l1_miss 1) ≡ 2
unfolding accesses
hits_and_misses_example = hits_and_misses 2 (system_of 2) init_two calls 1 (omega arith)

ping_pong_traffic_example :
    let perf = (run (ping_pong 0x100 3) (system_of 2)).0.bus.perf in
    (perf.bus_rd_count ≡ 0) × (perf.bus_rdx_count ≡ 6) × (perf.bus_upgr_count ≡ 0)
ping_pong_traffic_example = ping_pong_traffic 2 (system_of 2) init_two (omega arith) 0x100 3

-- Two words of one line.
false_sharing_traffic_example :
    let perf = (run (false_sharing 0x100 0x104 3) (system_of 2)).0.bus.perf in
    (perf.bus_rd_count ≡ 0) × (perf.bus_rdx_count ≡ 6) × (perf.bus_upgr_count ≡ 0)
unfolding line_of
false_sharing_traffic_example =
    false_sharing_traffic 2 (system_of 2) init_two (omega arith) 0x100 0x104 3

reader_storm_traffic_example :
    let perf = (run (reader_storm 2 0x100) (system_of 2)).0.bus.perf in
    (perf.bus_rd_count ≡ 2) × (perf.bus_rdx_count ≡ 0) × (perf.bus_upgr_count ≡ 0)
unfolding Bus.init
reader_storm_traffic_example = reader_storm_traffic 2 (system_of 2) init_two 0x100

producer_consumer_delivery_example :
    (run (producer_consumer 0x100 2 0x200) (system_of 2)).1
    ≡ ok done ∷ ok done ∷ ok done ∷ ok (word 1) ∷ ok (word 0xC0DE0000) ∷ ok (word 0xC0DE0001) ∷ []
unfolding written delivered_from
producer_consumer_delivery_example =
    producer_consumer_delivery 2 (system_of 2) init_two (omega arith) 0x100 2 0x200 (omega arith)
      (λ i lt e. omega (arith, lt, e))
