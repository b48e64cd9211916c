-- ===== src/Workloads/Guarantees.antt =====
-- The traffic of the workloads on a fresh system.
use mesi_cache_coherence.Common.{
  if◌then◌else◌, ◌==◌, Bool-cases, beq→eq, inl, inr, arith, List, subst, ℕ, zero, suc, ◌+◌, ◌*◌,
  ◌≤◌, ◌≡◌, refl, u64, pos, ok, ◌^◌, ◌<◌, ◌≢◌, ◌∙◌, ◌++◌, ◌∷◌,
}
use mesi_cache_coherence.Types.{line_of}
use mesi_cache_coherence.Bus.{RandomEngine}
use mesi_cache_coherence.Bus
use mesi_cache_coherence.System.{MesiSystem}
use mesi_cache_coherence.System
use mesi_cache_coherence.Refinement.Flat.{Request, done, word}
use mesi_cache_coherence.Refinement.Serve.{run}
use mesi_cache_coherence.Refinement.Runs.{init-bus, init-Represents}
use mesi_cache_coherence.Refinement.Guarantees.{run-refines}
use mesi_cache_coherence.Workloads.Padding.{padded}
use mesi_cache_coherence.Workloads.{
  slot, producer_consumer, reader_storm, ping_pong, ping_pong_from, false_sharing,
  false_sharing_from,
}
use mesi_cache_coherence.Workloads.Delivery.{written, delivered_from, delivery}
use mesi_cache_coherence.Workloads.Sharing.{Storm, storm}
use mesi_cache_coherence.Refinement.Locked.{Represents}
use mesi_cache_coherence.Workloads.Alternation.{
  OnlyRdx, Turn, Alternating, over, round_of, alternation,
}

fresh-Turn :
    ⦃std : RandomEngine⦄ (count line : ℕ) (s : MesiSystem)
    → System.init (pos count) ≡ ok s
    → Turn count (λ _. 0) 0 line 0 s
unfolding Bus.init
fresh-Turn count line s fresh = record {
  represents = init-Represents fresh;
  gone = rw (init-bus count fresh) refl;
  only_rdx = rw (init-bus count fresh) (refl, refl, refl);
}

fresh-Storm :
    ⦃std : RandomEngine⦄ (count line : ℕ) (s : MesiSystem)
    → System.init (pos count) ≡ ok s
    → Storm count (λ _. 0) line 0 s
unfolding Bus.init
fresh-Storm count line s fresh = record {
  represents = init-Represents fresh;
  gone = λ j later. rw (init-bus count fresh) refl;
  only_rd = rw (init-bus count fresh) (refl, refl, refl);
}

ping_pong-Alternating :
    (addr iters i : ℕ) → Alternating (line_of addr) iters (ping_pong_from addr iters i)
unfolding ping_pong_from
ping_pong-Alternating addr zero i = over
ping_pong-Alternating addr (suc iters) i =
    round_of addr addr _ _ refl refl (ping_pong-Alternating addr iters (i + 1))

false_sharing-Alternating :
    (a0 a1 iters i : ℕ)
    → line_of a0 ≡ line_of a1
    → Alternating (line_of a1) iters (false_sharing_from a0 a1 iters i)
unfolding false_sharing_from
false_sharing-Alternating a0 a1 zero i e = over
false_sharing-Alternating a0 a1 (suc iters) i e =
    round_of a0 a1 _ _ e refl (false_sharing-Alternating a0 a1 iters (i + 1) e)

module _ ⦃std : RandomEngine⦄ (count : ℕ) (s : MesiSystem) (fresh : System.init (pos count) ≡ ok s)
    (two : 2 ≤ count) where
  alternation_traffic :
      {line rounds : ℕ} {qs : List Request}
      → Alternating line rounds qs
      → OnlyRdx (2 * rounds) (run qs s).0.bus
  alternation_traffic {line} {rounds} {qs} turns =
      subst (λ k. OnlyRdx k (run qs s).0.bus) (omega arith)
        (alternation two turns 0 (fresh-Turn count line s fresh))

  -- On a fresh system of at least two cores, `ping_pong` makes the bus count `2 * iters` reads for
  -- ownership in 64 bits, as many as its writes, and no other read and no upgrade.
  pub ping_pong_traffic :
      (addr iters : ℕ)
      → let perf = (run (ping_pong addr iters) s).0.bus.perf in
        (perf.bus_rd_count ≡ 0) × (perf.bus_rdx_count ≡ u64 (2 * iters)) × (perf.bus_upgr_count ≡ 0)
  ping_pong_traffic addr iters = alternation_traffic (ping_pong-Alternating addr iters 0)

  same_line_traffic :
      (a0 a1 iters : ℕ)
      → line_of a0 ≡ line_of a1
      → OnlyRdx (2 * iters) (run (false_sharing a0 a1 iters) s).0.bus
  same_line_traffic a0 a1 iters e = alternation_traffic (false_sharing-Alternating a0 a1 iters 0 e)

module _ ⦃std : RandomEngine⦄ (count : ℕ) (s : MesiSystem)
    (fresh : System.init (pos count) ≡ ok s) where
  -- On a fresh system, `reader_storm` makes the bus count one read for each
  -- core, in 64 bits, and no read for ownership and no upgrade.
  pub reader_storm_traffic :
      (addr : ℕ)
      → let perf = (run (reader_storm s.bus.n_cores addr) s).0.bus.perf in
        (perf.bus_rd_count ≡ u64 count) × (perf.bus_rdx_count ≡ 0) × (perf.bus_upgr_count ≡ 0)
  reader_storm_traffic addr = simp r.n_cores (storm addr count 0 (omega arith) start)
    where
      r : Represents count (λ _. 0) s
      r = init-Represents fresh

      start : Storm count (λ _. 0) (line_of addr) 0 s
      start = fresh-Storm count (line_of addr) s fresh

module _ ⦃std : RandomEngine⦄ (count : ℕ) (s : MesiSystem) (fresh : System.init (pos count) ≡ ok s)
    (two : 2 ≤ count) where
  -- On a fresh system of at least two cores, if the buffer has at most 2^30 words and the flag is
  -- none of them, the consumer of `producer_consumer` reads a flag of 1 and then, in order, the words
  -- that the producer wrote.
  pub producer_consumer_delivery :
      (buf words flag : ℕ)
      → words ≤ 2 ^ 30
      → ((i : ℕ) → i < words → slot buf i ≢ flag)
      → (run (producer_consumer buf words flag) s).1
        ≡ written words ++ ok done ∷ ok (word 1) ∷ delivered_from words 0
  producer_consumer_delivery buf words flag small apart =
      run-refines count s fresh (producer_consumer buf words flag)
      ∙ delivery count two buf words flag (λ _. 0) small apart

  padding_traffic :
      (a0 a1 iters : ℕ)
      → line_of a0 ≢ line_of a1
      → OnlyRdx (if iters == 0 then 0 else 2) (run (false_sharing a0 a1 iters) s).0.bus
  unfolding false_sharing_from run
  padding_traffic a0 a1 zero differ = (fresh-Turn count 0 s fresh).only_rdx
  padding_traffic a0 a1 (suc iters) differ = ground (
    arith,
    padded a0 a1 0 two differ (fresh-Turn count (line_of a0) s fresh)
        ((fresh-Storm count (line_of a1) s fresh).gone 1 (omega arith)) iters,
  )

  -- On a fresh system of at least two cores, `false_sharing` makes the bus count `2 * iters` reads for
  -- ownership in 64 bits if the two words are of one line; if they are of different lines, two,
  -- however many the rounds, or none without rounds. It counts no other read and no upgrade.
  pub false_sharing_traffic :
      (a0 a1 iters : ℕ)
      → let perf = (run (false_sharing a0 a1 iters) s).0.bus.perf in
        (perf.bus_rd_count ≡ 0)
        × (perf.bus_rdx_count
            ≡ (if line_of a0 == line_of a1 then u64 (2 * iters) else if iters == 0 then 0 else 2))
        × (perf.bus_upgr_count ≡ 0)
  false_sharing_traffic a0 a1 iters = elim (Bool-cases (line_of a0 == line_of a1)) [
    | inl shared ↦ simp shared (same_line_traffic count s fresh two a0 a1 iters (beq→eq _ _ shared))
    | inr apart ↦ simp apart (ground (arith, padding_traffic a0 a1 iters (λ e. ground (arith, e))))
  ]
