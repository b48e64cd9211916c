-- ===== src/Driver/Guarantees.antt =====
-- What a caller of the driver may rely on, whatever the system does.
use mesi_cache_coherence.Common.{
  ℕ, zero, suc, ◌<◌, ◌≡◌, ◌⊎◌, inl, inr, refl, sym, ◌∙◌, ap, Bool, true, false, ◌==◌, if◌then◌else◌,
  ok, err, runtime_error, ok-injective, arith,
}
use mesi_cache_coherence.Driver.{
  Verilated, Top, set_bit, get_bit, assert_request, deassert_request, settle, posedge, tick, ticks,
  max_cycles, op,
}
use mesi_cache_coherence.Driver.Bits.{get_bit-set_bit, set_bit-lt}
use mesi_cache_coherence.Driver.Cycles.{Silent, FirstAt, rdata_at, Outcome, await_done-Outcome}

-- On a byte, a bit that `set_bit` writes is what `get_bit` reads, and each other bit is as before.
pub bit_roundtrip :
    (v i j : ℕ) (b : Bool)
    → v < 256
    → i < 8
    → j < 8
    → get_bit (set_bit v i b) j ≡ (if i == j then b else get_bit v j)
bit_roundtrip = get_bit-set_bit

module _ {Hidden : Type 0} ⦃dut : Verilated Hidden⦄ (core : ℕ) (we : Bool) (addr wdata : ℕ)
    (t : Top Hidden) where
  abbrev started : Top Hidden
  started = assert_request core we addr wdata t

  -- `op` throws exactly if the system does not answer the core in the 1000 cycles after the request;
  -- otherwise it returns the word of the first answer, one clock edge after it, the request withdrawn.
  pub op_outcome :
      (Silent core max_cycles started × (op core we addr wdata t ≡ err runtime_error))
      ⊎ ((k : ℕ) × (k < max_cycles)
          × FirstAt core k started
          × (op core we addr wdata t
              ≡ ok (
                settle (deassert_request core (ticks (suc k) started)),
                rdata_at core k started,
              )))
  unfolding op Outcome
  op_outcome = elim (await_done-Outcome core max_cycles started) [
    | inl (quiet, e) ↦ inl (quiet, rw e refl)
    | inr (k, lt, first, e) ↦ inr (k, lt, first, rw e refl)
  ]

module _ {Hidden : Type 0} ⦃dut : Verilated Hidden⦄ where
  cpu_req-ticks : (k : ℕ) (t : Top Hidden) → (ticks k t).inputs.cpu_req ≡ t.inputs.cpu_req
  unfolding ticks tick settle posedge
  cpu_req-ticks zero t = refl
  cpu_req-ticks (suc k) t = cpu_req-ticks k (tick t)

  -- On any core below 8, an `op` that returns leaves no request of its own core pending, and the
  -- requests of the other cores as they were.
  pub op_releases :
      (core : ℕ) (we : Bool) (addr wdata : ℕ) (t t' : Top Hidden) (rd j : ℕ)
      → core < 8
      → j < 8
      → t.inputs.cpu_req < 256
      → op core we addr wdata t ≡ ok (t', rd)
      → get_bit t'.inputs.cpu_req j ≡ (if core == j then false else get_bit t.inputs.cpu_req j)
  unfolding assert_request deassert_request settle
  op_releases core we addr wdata t t' rd j lc lj small e = elim (op_outcome core we addr wdata t) [
    | inl (quiet, thrown) ↦ cc
    | inr (k, lt, first, returned) ↦
        ap (λ (r : Top Hidden × ℕ). get_bit r.0.inputs.cpu_req j) (ok-injective (sym e ∙ returned))
        ∙ cleared (ticks (suc k) (assert_request core we addr wdata t))
            (cpu_req-ticks (suc k) (assert_request core we addr wdata t))
  ]
    where
      cleared :
          (u : Top Hidden)
          → u.inputs.cpu_req ≡ set_bit t.inputs.cpu_req core true
          → get_bit (set_bit u.inputs.cpu_req core false) j
            ≡ (if core == j then false else get_bit t.inputs.cpu_req j)
      cleared u same = ground (
        arith,
        get_bit-set_bit (set_bit t.inputs.cpu_req core true) core j false
            (set_bit-lt t.inputs.cpu_req core true small lc) lc lj,
        get_bit-set_bit t.inputs.cpu_req core j true small lc lj,
      )
