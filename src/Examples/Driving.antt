-- ===== src/Examples/Driving.antt =====
-- A system that answers core 1 in the third cycle, and one that never answers.
use mesi_cache_coherence.Common.{
  ℕ, ◌+◌, ◌≡◌, ◌<◌, ◌⊎◌, refl, true, false, ◌==◌, if◌then◌else◌, arith, ok, err, runtime_error, suc,
}
use mesi_cache_coherence.Driver.{
  Inputs, Outputs, Verilated, Top, set_bit, get_bit, assert_request, deassert_request, settle,
  posedge, tick, ticks, op, max_cycles,
}
use mesi_cache_coherence.Driver.Cycles.{Silent, FirstAt, rdata_at}
use mesi_cache_coherence.Driver.Guarantees.{bit_roundtrip, op_outcome, op_releases}

-- It counts its rising edges.
unfoldable slow_eval : Inputs → ℕ → Outputs × ℕ
slow_eval i edges = (
  record {
    cpu_done = if edges == 2 then 2 else 0;
    cpu_rdata = λ core. 40 + core + edges;
    dbg_state = 0;
    dbg_data = λ core. 0;
  },
  edges + i.clk,
)

instance abbrev slow : Verilated ℕ
slow = record { eval = slow_eval }

abbrev idle : Top ℕ
idle = record {
  inputs = record {
    clk = 0;
    rst_n = 1;
    cpu_req = 9;
    cpu_we = 0;
    cpu_addr = λ core. 0;
    cpu_wdata = λ core. 0;
    dbg_addr = 0;
    fsm_cur_state = 0;
    fsm_pr_req = 0;
    fsm_shared_in = 0;
    fsm_snoop_txn = 0;
    sb_st_valid = 0;
    sb_st_addr = 0;
    sb_st_data = 0;
    sb_drain_ready = 0;
    sb_bypass_addr = 0;
    sb_fence_req = 0;
    stub_enable = 0;
    stub_base = 0;
    stub_done = 0;
  };
  outputs = record { cpu_done = 0; cpu_rdata = λ core. 0; dbg_state = 0; dbg_data = λ core. 0 };
  hidden = 0;
}

bit_roundtrip_example : get_bit (set_bit 9 1 true) 1 ≡ true
bit_roundtrip_example = bit_roundtrip 9 1 1 true (omega arith) (omega arith) (omega arith)

op_outcome_example :
    let started = assert_request 1 false 0x100 0 idle in
    (Silent 1 max_cycles started × (op 1 false 0x100 0 idle ≡ err runtime_error))
    ⊎ ((k : ℕ) × (k < max_cycles)
        × FirstAt 1 k started
        × (op 1 false 0x100 0 idle
            ≡ ok (settle (deassert_request 1 (ticks (suc k) started)), rdata_at 1 k started)))
op_outcome_example = op_outcome 1 false 0x100 0 idle

abbrev answered : Top ℕ
answered = settle (deassert_request 1 (ticks 3 (assert_request 1 false 0x100 0 idle)))

returned : op 1 false 0x100 0 idle ≡ ok (answered, 43)
unfolding op settle posedge tick get_bit slow_eval ticks
returned = refl

op_releases_example : get_bit answered.inputs.cpu_req 3 ≡ true
unfolding get_bit
op_releases_example =
    op_releases 1 false 0x100 0 idle answered 43 3 (omega arith) (omega arith) (omega arith)
      returned
