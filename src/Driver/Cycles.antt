-- ===== src/Driver/Cycles.antt =====
-- How many cycles the driver waits for an answer.
use mesi_cache_coherence.Common.{
  ℕ, zero, suc, ◌<◌, ◌≡◌, ◌⊎◌, inl, inr, refl, Bool, true, false, Bool-cases, none, some, arith,
}
use mesi_cache_coherence.Driver.{Verilated, Top, get_bit, settle, tick, ticks, await_done}

module _ {Hidden : Type 0} ⦃dut : Verilated Hidden⦄ (core : ℕ) where
  -- The system answers in cycle `k` from `t`, and the word that it then shows.
  abbrev pub done_at : ℕ → Top Hidden → Bool
  done_at k t = get_bit (settle (ticks k t)).outputs.cpu_done core

  abbrev pub rdata_at : ℕ → Top Hidden → ℕ
  rdata_at k t = (settle (ticks k t)).outputs.cpu_rdata core

  -- It does not answer in the first `n` cycles.
  abbrev pub Silent : ℕ → Top Hidden → Type 0
  Silent n t = (j : ℕ) → j < n → done_at j t ≡ false

  -- It answers in cycle `k` for the first time.
  abbrev pub FirstAt : ℕ → Top Hidden → Type 0
  FirstAt k t = Silent k t × (done_at k t ≡ true)

  Silent-first :
      (n : ℕ) (t : Top Hidden) → done_at 0 t ≡ false → Silent n (tick t) → Silent (suc n) t
  unfolding ticks
  Silent-first n t now later zero lt = now
  Silent-first n t now later (suc j) lt = later j (omega (arith, lt))

  -- The loop gives up after silence, or returns what the first answer shows.
  unfoldable pub Outcome : ℕ → Top Hidden → Type 0
  Outcome n t =
      (Silent n t × (await_done n core t ≡ none))
      ⊎ ((k : ℕ) × (k < n)
          × FirstAt k t
          × (await_done n core t ≡ some (ticks (suc k) t, rdata_at k t)))

  pub await_done-Outcome : (n : ℕ) (t : Top Hidden) → Outcome n t
  unfolding Outcome await_done ticks tick
  await_done-Outcome zero t = inl ((λ j lt. absurd (omega (arith, lt))), refl)
  await_done-Outcome (suc n) t = elim (Bool-cases (done_at 0 t)) [
    | inl now ↦ inr (0, omega arith, ((λ j lt. absurd (omega (arith, lt))), now), rw now refl)
    | inr wait ↦ elim (await_done-Outcome n (tick t)) [
      | inl (quiet, e) ↦ inl (Silent-first n t wait quiet, rw wait e)
      | inr (k, lt, (quiet, now), e) ↦
          inr (suc k, omega (arith, lt), (Silent-first k t wait quiet, now), rw wait e)
    ]
  ]
