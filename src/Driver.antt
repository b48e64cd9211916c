-- ===== src/Driver.antt =====
-- sim/cpu_driver.hpp: the class that drives the Verilated system. The system is generated code, the
-- parameter `Verilated`: from the input ports and what it holds inside, `eval` makes the output ports.
-- As Verilator documents, `eval` leaves the input ports as they were written.
pub mod Bits
pub mod Cycles
pub mod Guarantees
use Prim.Native.Nat.{bit_and, bit_or}
use mesi_cache_coherence.Common.{
  ℕ, zero, suc, ◌-◌, ◌*◌, ◌/◌, ◌%◌, ◌^◌, Bool, true, false, not, ◌==◌, if◌then◌else◌, Option, none,
  some, update, Result, ok, err, runtime_error,
}

pub record Inputs : Type 0 where
  pub clk : ℕ
  pub rst_n : ℕ
  pub cpu_req : ℕ
  pub cpu_we : ℕ
  pub cpu_addr : ℕ → ℕ
  pub cpu_wdata : ℕ → ℕ
  pub dbg_addr : ℕ
  pub fsm_cur_state : ℕ
  pub fsm_pr_req : ℕ
  pub fsm_shared_in : ℕ
  pub fsm_snoop_txn : ℕ
  pub sb_st_valid : ℕ
  pub sb_st_addr : ℕ
  pub sb_st_data : ℕ
  pub sb_drain_ready : ℕ
  pub sb_bypass_addr : ℕ
  pub sb_fence_req : ℕ
  pub stub_enable : ℕ
  pub stub_base : ℕ
  pub stub_done : ℕ

-- The output ports that the driver reads.
pub record Outputs : Type 0 where
  pub cpu_done : ℕ
  pub cpu_rdata : ℕ → ℕ
  pub dbg_state : ℕ
  pub dbg_data : ℕ → ℕ

pub record Verilated (Hidden : Type 0) : Type 0 where
  pub eval : Inputs → Hidden → Outputs × Hidden

pub record Top (Hidden : Type 0) : Type 0 where
  pub inputs : Inputs
  pub outputs : Outputs
  pub hidden : Hidden

-- `v |= 1u << i`, or `v &= ~(1u << i)`, on a byte.
unfoldable pub set_bit : ℕ → ℕ → Bool → ℕ
set_bit v i b =
    if b then bit_or v (2 ^ i) % 2 ^ 8 else bit_and v (2 ^ 32 - 1 - 2 ^ i % 2 ^ 32) % 2 ^ 8

unfoldable pub get_bit : ℕ → ℕ → Bool
get_bit v i = not (bit_and (v / 2 ^ i) 1 == 0)

abbrev pub max_cycles : ℕ
max_cycles = 1000

module _ {Hidden : Type 0} where
  -- The ports as `reset` writes them, `rst_n` at 0.
  unfoldable pub quiet : Top Hidden → Top Hidden
  quiet t = record t {
    inputs = record t.inputs {
      rst_n = 0;
      cpu_req = 0;
      cpu_we = 0;
      dbg_addr = 0;
      fsm_cur_state = 0;
      fsm_pr_req = 0;
      fsm_shared_in = 0;
      fsm_snoop_txn = 0;
      sb_st_valid = 0;
      sb_drain_ready = 0;
      sb_fence_req = 0;
      sb_bypass_addr = 0;
      sb_st_addr = 0;
      sb_st_data = 0;
      stub_enable = 0;
      stub_base = 0;
      stub_done = 0;
    };
  }

  -- The ports as `op` writes them before it waits.
  unfoldable pub assert_request : ℕ → Bool → ℕ → ℕ → Top Hidden → Top Hidden
  unfolding set_bit
  assert_request core we addr wdata t = record t {
    inputs = record t.inputs {
      cpu_req = set_bit t.inputs.cpu_req core true;
      cpu_we = set_bit t.inputs.cpu_we core we;
      cpu_addr = update t.inputs.cpu_addr core addr;
      cpu_wdata = update t.inputs.cpu_wdata core wdata;
    };
  }

  unfoldable pub deassert_request : ℕ → Top Hidden → Top Hidden
  unfolding set_bit
  deassert_request core t = record t {
    inputs = record t.inputs { cpu_req = set_bit t.inputs.cpu_req core false };
  }

  module _ ⦃dut : Verilated Hidden⦄ where
    unfoldable pub evaluate : Top Hidden → Top Hidden
    evaluate t =
        let (out, inside) = dut.eval t.inputs t.hidden in
        record t { outputs = out; hidden = inside }

    unfoldable pub settle : Top Hidden → Top Hidden
    unfolding evaluate
    settle t = evaluate (record t { inputs = record t.inputs { clk = 0 } })

    unfoldable pub posedge : Top Hidden → Top Hidden
    unfolding evaluate
    posedge t = evaluate (record t { inputs = record t.inputs { clk = 1 } })

    unfoldable pub tick : Top Hidden → Top Hidden
    unfolding settle posedge
    tick t = posedge (settle t)

    unfoldable pub ticks : ℕ → Top Hidden → Top Hidden
    ticks zero t = t
    ticks (suc k) t = ticks k (tick t)

    unfoldable pub reset : Top Hidden → Top Hidden
    unfolding quiet ticks tick
    reset t =
        let held = ticks 6 (quiet t) in
        tick (record held { inputs = record held.inputs { rst_n = 1 } })

    -- The loop of `op`, at most `fuel` rounds; `none` if the counter reaches its end.
    unfoldable pub await_done : ℕ → ℕ → Top Hidden → Option (Top Hidden × ℕ)
    unfolding get_bit
    await_done zero core t = none
    await_done (suc fuel) core t =
        let settled = settle t in
        let rest = await_done fuel core (posedge settled) in
        if get_bit settled.outputs.cpu_done core
        then some (posedge settled, settled.outputs.cpu_rdata core)
        else rest

    abbrev pub conclude : ℕ → Option (Top Hidden × ℕ) → Result (Top Hidden × ℕ)
    conclude core none = err runtime_error
    conclude core (some (t, rd)) = ok (settle (deassert_request core t), rd)

    unfoldable pub op : ℕ → Bool → ℕ → ℕ → Top Hidden → Result (Top Hidden × ℕ)
    unfolding await_done assert_request
    op core we addr wdata t =
        conclude core (await_done max_cycles core (assert_request core we addr wdata t))

    unfoldable pub read : ℕ → ℕ → Top Hidden → Result (Top Hidden × ℕ)
    read core addr t = op core false addr 0 t

    unfoldable pub write : ℕ → ℕ → ℕ → Top Hidden → Result (Top Hidden × ℕ)
    write core addr v t = op core true addr v t

    unfoldable pub probe : ℕ → Top Hidden → Top Hidden
    probe addr t = evaluate (record t { inputs = record t.inputs { dbg_addr = addr } })

    -- The state of a line as the debug port shows it, and the word.
    unfoldable pub state : ℕ → ℕ → Top Hidden → Top Hidden × ℕ
    unfolding probe
    state core addr t =
        let t' = probe addr t in (t', bit_and (t'.outputs.dbg_state / 2 ^ (2 * core)) 3)

    unfoldable pub dbg_data : ℕ → ℕ → Top Hidden → Top Hidden × ℕ
    unfolding probe
    dbg_data core addr t = let t' = probe addr t in (t', t'.outputs.dbg_data core)
