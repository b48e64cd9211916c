-- ===== src/Primitives/Barrier/Guarantees.antt =====
-- What the barrier promises to the threads that share it.
use mesi_cache_coherence.Common.{
  ℕ, ◌+◌, ◌≤◌, ◌<◌, ◌≡◌, refl, true, false, ◌==◌, arith, update, Bool-cases, inl, inr, beq→eq, List,
  length, pos, ok, ◌∙◌, tally_none,
}
use mesi_cache_coherence.Bus.{RandomEngine}
use mesi_cache_coherence.System.{MesiSystem}
use mesi_cache_coherence.System
use mesi_cache_coherence.Dut.{Dut}
use mesi_cache_coherence.Refinement.Flat.{apply, core_of, flat_step, flat_run}
use mesi_cache_coherence.Refinement.Serve.{run}
use mesi_cache_coherence.Refinement.Runs.{init-Represents, run-Represents}
use mesi_cache_coherence.Threads.{Event, plays}
use mesi_cache_coherence.Threads.Protocol.{Protocol, Reached, plays-Reached, all_avoid}
use mesi_cache_coherence.Primitives.Barrier.{
  Barrier, BarrierPc, arriving, waiting, resetting, fencing, releasing, init, request, resume,
  barrier,
}
use mesi_cache_coherence.Primitives.Barrier.Episodes.{
  region, entered, returned, collecting, BarrierInv, returned-le-entered,
}
use mesi_cache_coherence.Primitives.Barrier.Calls.{
  IsApart, last-Inv, wait-Inv, spin-Inv, reset-Inv, fence-Inv, release-Inv,
}

own : (b : Barrier) (d : Dut) (p : BarrierPc) → core_of (request b d p) ≡ pos d.core
unfolding request
own b d (arriving episode s) = refl
own b d (waiting episode s) = refl
own b d (resetting episode s) = refl
own b d (fencing episode s) = refl
own b d (releasing episode s) = refl

call-BarrierInv :
    (b : Barrier) (apart : IsApart b) {t : ℕ} {m : ℕ → ℕ} {pcs : ℕ → BarrierPc}
    (inv : BarrierInv b t m pcs) (c : ℕ) (lt : c < b.n) (d : Dut) (p : BarrierPc)
    → pcs c ≡ p
    → let (m', a) = apply (request b d p) m in BarrierInv b (t + 1) m' (update pcs c (resume p a))
unfolding request resume apply
call-BarrierInv b apart {m = m} inv c lt d (arriving episode s) at =
    elim (Bool-cases (m b.count_addr == 1)) [
      | inl one ↦ rw one (last-Inv b apart inv c lt episode s at (beq→eq _ _ one))
      | inr more ↦ rw more (wait-Inv b apart inv c lt episode s at (λ e. ground (arith, e)))
    ]
call-BarrierInv b apart inv c lt d (waiting episode s) at = spin-Inv b apart inv c lt episode s at
call-BarrierInv b apart inv c lt d (resetting episode s) at =
    reset-Inv b apart inv c lt episode s at
call-BarrierInv b apart inv c lt d (fencing episode s) at = fence-Inv b apart inv c lt episode s at
call-BarrierInv b apart inv c lt d (releasing episode s) at =
    release-Inv b apart inv c lt episode s at

barrier-Protocol :
    (b : Barrier) (limit : ℕ) → IsApart b → Protocol (barrier b) b.n limit (region b) (BarrierInv b)
barrier-Protocol b limit apart = record {
  own = own b;
  frame = λ t m m' pcs same inv. record {
    episode = inv.episode;
    sense = same _ (ground arith) ∙ inv.sense;
    stands = inv.stands;
    phase = rw (same b.count_addr (ground arith)) inv.phase;
  };
  move =
      λ t m pcs c room lt inv. call-BarrierInv b apart inv c lt (record { core = c }) (pcs c) refl;
}

starting-BarrierInv :
    (b : Barrier) (m : ℕ → ℕ)
    → 1 ≤ b.n
    → m b.count_addr ≡ b.n
    → m b.sense_addr ≡ 0
    → BarrierInv b 0 m (λ _. arriving 0 0)
starting-BarrierInv b m some count sense = record {
  episode = 0;
  sense = omega (arith, sense);
  stands = λ i small. (refl, omega arith);
  phase =
      collecting (λ i small. refl)
        (omega (arith, count, tally_none b.n (λ i. false) (λ i small. refl)))
        (omega (arith, count, some));
}

module _ ⦃std : RandomEngine⦄ (b : Barrier) (apart : IsApart b) (s : MesiSystem)
    (fresh : System.init (pos b.n) ≡ ok s) (core : ℕ) (there : core < b.n) (es : List Event)
    (avoided : all_avoid (region b) es ≡ true) where
  -- The system once `init` has run on a core.
  abbrev initialised : MesiSystem
  initialised = (run (init b (record { core = core })) s).0

  abbrev reached : MesiSystem × (ℕ → BarrierPc)
  reached = plays (barrier b) es initialised (λ _. arriving 0 0)

  final-BarrierInv :
      (t' : ℕ) × Reached (barrier-Protocol b (length es) apart) t' reached.0 reached.1
  unfolding init flat_run flat_step apply
  final-BarrierInv =
      plays-Reached (barrier-Protocol b (length es) apart) es 0 initialised (λ _. arriving 0 0)
        (omega arith) avoided
        (record {
          flat = (flat_run b.n (init b (record { core = core })) (λ _. 0)).0;
          memory = (run-Represents (init b (record { core = core })) (init-Represents fresh)).0;
          inv =
              starting-BarrierInv b _ (omega (arith, there)) (ground (arith, apart.two))
                (ground (arith, apart.two));
        })

  -- A barrier of two different words, for as many threads as there are cores, fewer than 2^32,
  -- after `init` on a fresh system, in any schedule whose other calls write neither of its words:
  -- no thread has returned from more calls of `wait` than any other thread has entered. So nobody
  -- leaves an episode before all have come to it.
  pub nobody_ahead : (i j : ℕ) → i < b.n → j < b.n → returned (reached.1 i) ≤ entered (reached.1 j)
  nobody_ahead i j li lj =
      let (_, r) = final-BarrierInv in
      returned-le-entered r.inv.episode (reached.1 i) (reached.1 j) (r.inv.stands i li)
        (r.inv.stands j lj)
