-- ===== src/Primitives/Barrier/Calls.antt =====
-- The calls of a thread of the barrier, one by one.
use mesi_cache_coherence.Common.{
  ℕ, ◌+◌, ◌-◌, ◌^◌, ◌<◌, ◌≡◌, ◌≢◌, inl, inr, refl, sym, true, false, ◌==◌, arith, update, u32,
  Bool-cases, eq→beq, ne→beq, ap, ◌∙◌, subst, if◌then◌else◌, tally_none, tally_two_out,
}
use mesi_cache_coherence.Primitives.Barrier.{
  Barrier, BarrierPc, arriving, waiting, resetting, fencing, releasing, flip,
}
use mesi_cache_coherence.Primitives.Barrier.Episodes.{
  waits_in, Stands, counter_of, collecting, BarrierInv,
}
use mesi_cache_coherence.Primitives.Barrier.Moves.{
  flip_parity, turned, stands', waiters, Phase-kept, leader, led_on, coming,
}

-- The two words differ, and the threads can be counted in a word.
pub record IsApart (b : Barrier) : Type 0 where
  pub two : b.count_addr ≢ b.sense_addr
  pub small : b.n < 2 ^ 32

module _ (b : Barrier) (apart : IsApart b) {t : ℕ} {m : ℕ → ℕ} {pcs : ℕ → BarrierPc}
    (inv : BarrierInv b t m pcs) (c : ℕ) (lt : c < b.n) where
  abbrev After : (ℕ → ℕ) → BarrierPc → Type 0
  After m' p = BarrierInv b (t + 1) m' (update pcs c p)

  stood : {p : BarrierPc} → pcs c ≡ p → Stands inv.episode p
  stood at = subst (Stands inv.episode) at (inv.stands c lt)

  abbrev lowered : ℕ → ℕ
  lowered = update m b.count_addr (u32 (m b.count_addr + (2 ^ 32 - 1)))

  -- The last to come leads, and all others wait.
  pub last-Inv :
      (episode s : ℕ)
      → pcs c ≡ arriving episode s
      → m b.count_addr ≡ 1
      → After lowered (resetting episode (flip s))
  last-Inv episode s at one =
      let (nobody, total, some) = coming b inv c lt (rw at refl) (rw at refl) in
      let (now, parity) = stood at in
      let zero_left : u32 (m b.count_addr + (2 ^ 32 - 1)) ≡ 0 = omega (arith, one) in
      record {
        episode = inv.episode;
        sense = rw (ne→beq b.sense_addr b.count_addr (λ e. apart.two (sym e))) inv.sense;
        stands =
            stands' b inv c lt (resetting episode (flip s))
              (now, ap flip parity ∙ flip_parity inv.episode);
        phase = rw (eq→beq b.count_addr b.count_addr refl) (
            led_on b inv c lt _ (resetting episode (flip s)) refl zero_left (λ i small away.
              elim (Bool-cases (waits_in inv.episode (pcs i))) [
                | inl waits ↦ waits
                | inr comes ↦
                    let few =
                      tally_two_out b.n (λ i. waits_in inv.episode (pcs i)) i c small lt away comes
                        (rw at refl) in
                    absurd (omega (arith, few, total, one))
              ]));
      }

  -- Another waits.
  pub wait-Inv :
      (episode s : ℕ)
      → pcs c ≡ arriving episode s
      → m b.count_addr ≢ 1
      → After lowered (waiting episode (flip s))
  wait-Inv episode s at more =
      let (nobody, total, some) = coming b inv c lt (rw at refl) (rw at refl) in
      let (now, parity) = stood at in
      let out : waits_in inv.episode (pcs c) ≡ false = rw at refl in
      let here : waits_in inv.episode (waiting episode (flip s)) ≡ true = eq→beq _ _ now in
      let one_more = waiters b inv c lt (waiting episode (flip s)) in
      record {
        episode = inv.episode;
        sense = rw (ne→beq b.sense_addr b.count_addr (λ e. apart.two (sym e))) inv.sense;
        stands =
            stands' b inv c lt (waiting episode (flip s))
              (inl (now, ap flip parity ∙ flip_parity inv.episode));
        phase = rw (eq→beq b.count_addr b.count_addr refl) (
            collecting
              (λ i small. elim (Bool-cases (i == c)) [
                | inl mine ↦ rw mine refl
                | inr other ↦ rw other (nobody i small)
              ])
              (ground (arith, one_more, here, out, total, more, some, apart.small))
              (omega (arith, more, some, total, apart.small)));
      }

  -- A thread that waits in an episode that is over goes on, and one that waits in this stays.
  pub spin-Inv :
      (episode s : ℕ)
      → pcs c ≡ waiting episode s
      → After m (if m b.sense_addr == s then arriving (episode + 1) s else waiting episode s)
  spin-Inv episode s at = elim (stood at) [
    | inl (now, parity) ↦
        let differs : (m b.sense_addr == s) ≡ false = ground (arith, inv.sense, parity) in
        rw differs (record {
          episode = inv.episode;
          sense = inv.sense;
          stands = stands' b inv c lt (waiting episode s) (inl (now, parity));
          phase = Phase-kept b inv c lt (waiting episode s) (rw at refl) refl (rw at refl);
        })
    | inr (old, parity) ↦
        let same : (m b.sense_addr == s) ≡ true = ground (arith, inv.sense, parity) in
        rw same (record {
          episode = inv.episode;
          sense = inv.sense;
          stands = stands' b inv c lt (arriving (episode + 1) s) (old, parity);
          phase =
              Phase-kept b inv c lt (arriving (episode + 1) s) (rw at refl) refl
                (rw at (ground (arith, old)));
        })
  ]

  pub reset-Inv :
      (episode s : ℕ)
      → pcs c ≡ resetting episode s
      → After (update m b.count_addr b.n) (fencing episode s)
  reset-Inv episode s at =
      let (count, rest) = leader b inv c lt (rw at refl) in
      record {
        episode = inv.episode;
        sense = rw (ne→beq b.sense_addr b.count_addr (λ e. apart.two (sym e))) inv.sense;
        stands = stands' b inv c lt (fencing episode s) (stood at);
        phase =
            rw (eq→beq b.count_addr b.count_addr refl)
              (led_on b inv c lt b.n (fencing episode s) refl refl rest);
      }

  pub fence-Inv : (episode s : ℕ) → pcs c ≡ fencing episode s → After m (releasing episode s)
  fence-Inv episode s at =
      let (count, rest) = leader b inv c lt (rw at refl) in
      record {
        episode = inv.episode;
        sense = inv.sense;
        stands = stands' b inv c lt (releasing episode s) (stood at);
        phase =
            led_on b inv c lt (m b.count_addr) (releasing episode s) refl
              (count ∙ ap (counter_of b.n) at) rest;
      }

  -- The leader flips the sense: the next episode begins.
  pub release-Inv :
      (episode s : ℕ)
      → pcs c ≡ releasing episode s
      → After (update m b.sense_addr s) (arriving (episode + 1) s)
  release-Inv episode s at =
      let (count, rest) = leader b inv c lt (rw at refl) in
      let (now, parity) = stood at in
      let over = λ (i : ℕ) (small : i < b.n) (other : (i == c) ≡ false).
        turned inv.episode (pcs i) (rest i small (λ e. ground (arith, e))) (inv.stands i small) in
      record {
        episode = inv.episode + 1;
        sense = rw (eq→beq b.sense_addr b.sense_addr refl) parity;
        stands = λ i small. elim (Bool-cases (i == c)) [
          | inl mine ↦ rw mine (ap (λ e. e + 1) now, parity)
          | inr other ↦ rw other (over i small other).0
        ];
        phase = rw (ne→beq b.count_addr b.sense_addr apart.two) (
            collecting
              (λ i small. elim (Bool-cases (i == c)) [
                | inl mine ↦ rw mine refl
                | inr other ↦ rw other (over i small other).2
              ])
              (omega (
                arith,
                count ∙ ap (counter_of b.n) at,
                tally_none b.n
                    (λ i. waits_in (inv.episode + 1) (update pcs c (arriving (episode + 1) s) i))
                    (λ i small. elim (Bool-cases (i == c)) [
                      | inl mine ↦ rw mine refl
                      | inr other ↦ rw other (over i small other).1
                    ]),
              ))
              (omega (arith, count ∙ ap (counter_of b.n) at, lt)));
      }
