-- ===== src/Transitions/Guarantees.antt =====
-- The model implements the state machine that the testbench demands of the hardware.
use mesi_cache_coherence.Common.{ℕ, ◌<◌, ◌≡◌, List, [], ◌∷◌, pos, ok}
use mesi_cache_coherence.Types.{line_of}
use mesi_cache_coherence.Bus.{RandomEngine}
use mesi_cache_coherence.System.{MesiSystem}
use mesi_cache_coherence.System
use mesi_cache_coherence.Coherence.Defs.{state_at}
use mesi_cache_coherence.Refinement.Flat.{Request, core_of}
use mesi_cache_coherence.Refinement.Serve.{run}
use mesi_cache_coherence.Refinement.Runs.{run-Represents, init-Represents}
use mesi_cache_coherence.Transitions.{pr_of, addr_of, req_txn, counts, counted, next_state}
use mesi_cache_coherence.Transitions.Calls.{serve-Follows}

-- In a fresh system, after any calls, a call of a core that exists takes every line of every core to
-- the state that the table gives: its own line to the next state of the requester, the same line of
-- each other core to what a snoop of the request's transaction makes of it, all other lines nowhere;
-- and the counters of reads, reads for ownership and upgrades show that transaction and no other.
pub transitions :
    ⦃std : RandomEngine⦄ (count : ℕ) (s : MesiSystem)
    → System.init (pos count) ≡ ok s
    → (qs : List Request) (q : Request) (i : ℕ) → i < count
    → core_of q ≡ pos i
    → let before = (run qs s).0 in
      let b = before.bus in
      let b' = (run (q ∷ []) before).0.bus in
      ((j l : ℕ) → state_at b' j l ≡ next_state b i (line_of (addr_of q)) (pr_of q) j l)
      × (counts b' ≡ counted (req_txn (state_at b i (line_of (addr_of q))) (pr_of q)) (counts b))
unfolding run
transitions count s fresh qs q i there own =
    let f = serve-Follows (run-Represents qs (init-Represents fresh)).0 i there q own in
    (f.states, f.traffic)
