-- ===== src/Transitions.antt =====
-- The MESI state machine, as the table of `test_fsm` in sim/tb_top.cpp demands it of the hardware: what
-- a request of the processor puts on the bus, and the next state of its line.
pub mod Bus
pub mod Calls
pub mod Guarantees
use mesi_cache_coherence.Common.{ℕ, ◌+◌, ◌≡◌, u64, Bool, not, ◌&&◌, ◌==◌, ltb, if◌then◌else◌, tally}
use mesi_cache_coherence.Types.{
  State, I, S, E, M, BusTxn, no_txn, bus_rd, bus_rdx, bus_upgr, bus_wb, PrReq, no_req, pr_rd, pr_wr,
  is_I,
}
use mesi_cache_coherence.Bus.{SnoopingBus}
use mesi_cache_coherence.Refinement.Flat.{Request, read, write, cas, fetch_and_add, fence}
use mesi_cache_coherence.Coherence.Defs.{state_at}
use mesi_cache_coherence.Coherence.SnoopEffects.{snooped}

abbrev pub req_txn : State → PrReq → BusTxn
req_txn I pr_rd = bus_rd
req_txn I pr_wr = bus_rdx
req_txn S pr_wr = bus_upgr
req_txn st pr = no_txn

-- With whether another cache has the line.
abbrev pub pr_next : State → PrReq → Bool → State
pr_next I pr_rd shared = if shared then S else E
pr_next st pr_wr shared = M
pr_next st pr shared = st

-- The counters of reads, reads for ownership and upgrades after a transaction.
abbrev pub counted : BusTxn → ℕ × ℕ × ℕ → ℕ × ℕ × ℕ
counted bus_rd (rd, rdx, upgr) = (u64 (rd + 1), rdx, upgr)
counted bus_rdx (rd, rdx, upgr) = (rd, u64 (rdx + 1), upgr)
counted bus_upgr (rd, rdx, upgr) = (rd, rdx, u64 (upgr + 1))
counted txn counts = counts

abbrev pub counts : SnoopingBus → ℕ × ℕ × ℕ
counts b = (b.perf.bus_rd_count, b.perf.bus_rdx_count, b.perf.bus_upgr_count)

-- A core other than `id` has the line.
unfoldable pub held_elsewhere : SnoopingBus → ℕ → ℕ → Bool
held_elsewhere b id line =
    ltb 0 (tally b.n_cores (λ j. not (j == id) && not (is_I (state_at b j line))))

-- What a request of core `id` for a line makes of line `l` of core `j`.
abbrev pub next_state : SnoopingBus → ℕ → ℕ → PrReq → ℕ → ℕ → State
next_state b id line pr j l =
    if l == line
    then (if j == id
        then pr_next (state_at b id line) pr (held_elsewhere b id line)
        else snooped (req_txn (state_at b id line) pr) (state_at b j l))
    else state_at b j l

-- The bus after the request does as the table says.
pub record Follows (b : SnoopingBus) (id line : ℕ) (pr : PrReq) (b' : SnoopingBus) : Type 0 where
  pub states : (j l : ℕ) → state_at b' j l ≡ next_state b id line pr j l
  pub traffic : counts b' ≡ counted (req_txn (state_at b id line) pr) (counts b)

-- What a call asks of the core's controller, and for which word.
abbrev pub pr_of : Request → PrReq
pr_of (read core addr) = pr_rd
pr_of (write core addr value) = pr_wr
pr_of (cas core addr expected new_val) = pr_wr
pr_of (fetch_and_add core addr delta) = pr_wr
pr_of (fence core) = no_req

abbrev pub addr_of : Request → ℕ
addr_of (read core addr) = addr
addr_of (write core addr value) = addr
addr_of (cas core addr expected new_val) = addr
addr_of (fetch_and_add core addr delta) = addr
addr_of (fence core) = 0
