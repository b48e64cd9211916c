-- ===== src/Examples/Moves.antt =====
-- The state machine, at a core that takes a shared line for itself.
use mesi_cache_coherence.Common.{ℕ, ◌≡◌, refl, arith, pos, [], ◌∷◌, true, false, tally}
use mesi_cache_coherence.Types.{
  I, S, E, M, no_txn, bus_rd, bus_rdx, bus_upgr, pr_rd, pr_wr, line_of,
}
use mesi_cache_coherence.Coherence.Defs.{state_at}
use mesi_cache_coherence.Coherence.SnoopEffects.{snooped}
use mesi_cache_coherence.Refinement.Flat.{write}
use mesi_cache_coherence.Refinement.Serve.{run}
use mesi_cache_coherence.Transitions.{req_txn, pr_next, next_state, counts, counted, held_elsewhere}
use mesi_cache_coherence.Transitions.Guarantees.{transitions}
use mesi_cache_coherence.Examples.Setup.{rotating, system_of, after, init_three}
use mesi_cache_coherence.Examples.Protocol.{sharing}

transitions_example :
    ((j l : ℕ)
      → state_at (run (write (pos 2) 0x108 9 ∷ []) (run sharing (system_of 3)).0).0.bus j l
        ≡ next_state (run sharing (system_of 3)).0.bus 2 0x100 pr_wr j l)
    × (counts (run (write (pos 2) 0x108 9 ∷ []) (run sharing (system_of 3)).0).0.bus
        ≡ counted
            (req_txn (state_at (run sharing (system_of 3)).0.bus 2 0x100) pr_wr)
            (counts (run sharing (system_of 3)).0.bus))
unfolding line_of
transitions_example =
    transitions 3 (system_of 3) init_three sharing (write (pos 2) 0x108 9) 2 (omega arith) refl

-- The line is shared, and the core that asks does not have it: the write puts a read for ownership on
-- the bus, and takes the line away from the others.
moves_in_sharing :
    (req_txn (state_at (after sharing) 2 0x100) pr_wr ≡ bus_rdx)
    × (next_state (after sharing) 2 0x100 pr_wr 1 0x100 ≡ I)
    × (next_state (after sharing) 2 0x100 pr_wr 2 0x100 ≡ M)
    × (next_state (after sharing) 2 0x100 pr_rd 2 0x100 ≡ S)
unfolding after held_elsewhere tally
moves_in_sharing = (refl, refl, refl, refl)

req_txn_rows :
    (req_txn I pr_rd ≡ bus_rd)
    × (req_txn S pr_rd ≡ no_txn)
    × (req_txn E pr_rd ≡ no_txn)
    × (req_txn M pr_rd ≡ no_txn)
    × (req_txn I pr_wr ≡ bus_rdx)
    × (req_txn S pr_wr ≡ bus_upgr)
    × (req_txn E pr_wr ≡ no_txn)
    × (req_txn M pr_wr ≡ no_txn)
req_txn_rows = (refl, refl, refl, refl, refl, refl, refl, refl)

pr_next_rows :
    (pr_next I pr_rd false ≡ E)
    × (pr_next I pr_rd true ≡ S)
    × (pr_next I pr_wr false ≡ M)
    × (pr_next S pr_wr false ≡ M)
    × (pr_next E pr_wr false ≡ M)
pr_next_rows = (refl, refl, refl, refl, refl)

snooped_rows :
    (snooped bus_rd M ≡ S)
    × (snooped bus_rd E ≡ S)
    × (snooped bus_rd S ≡ S)
    × (snooped bus_rdx M ≡ I)
    × (snooped bus_rdx E ≡ I)
    × (snooped bus_rdx S ≡ I)
    × (snooped bus_upgr S ≡ I)
snooped_rows = (refl, refl, refl, refl, refl, refl, refl)
