-- ===== src/Primitives/Barrier/Moves.antt =====
-- Each call of a thread of the barrier keeps the episodes in order.
use mesi_cache_coherence.Common.{
  ℕ, ◌+◌, ◌%◌, ◌≤◌, ◌<◌, ◌≡◌, ◌≢◌, inl, inr, refl, sym, true, false, ◌==◌, tally, arith, update,
  Bool-cases, eq→beq, ne→beq, beq→eq, ap, ◌∙◌, if◌then◌else◌, tally-change,
}
use mesi_cache_coherence.Primitives.Barrier.{
  Barrier, BarrierPc, arriving, waiting, resetting, fencing, releasing, flip,
}
use mesi_cache_coherence.Primitives.Barrier.Episodes.{
  leads, waits_in, Stands, counter_of, Phase, collecting, led, BarrierInv,
}

pub flip_parity : (g : ℕ) → flip (g % 2) ≡ (g + 1) % 2
unfolding flip
flip_parity g = ground arith

not_both : (g : ℕ) (p : BarrierPc) → waits_in g p ≡ true → leads p ≡ true → ⊥
not_both g (arriving episode local_sense) h k = cc
not_both g (waiting episode local_sense) h k = cc
not_both g (resetting episode local_sense) h k = cc
not_both g (fencing episode local_sense) h k = cc
not_both g (releasing episode local_sense) h k = cc

-- Once the sense is flipped, a thread that waits belongs to the episode before.
pub turned :
    (g : ℕ) (p : BarrierPc)
    → waits_in g p ≡ true
    → Stands g p
    → Stands (g + 1) p × (waits_in (g + 1) p ≡ false) × (leads p ≡ false)
turned g (arriving episode local_sense) h s = absurd (ground arith)
turned g (waiting episode local_sense) h s = (
  elim s [ inl now ↦ inr (omega (arith, now.0), now.1) | inr old ↦ absurd (ground (arith, old)) ],
  ground arith,
  refl,
)
turned g (resetting episode local_sense) h s = absurd (ground arith)
turned g (fencing episode local_sense) h s = absurd (ground arith)
turned g (releasing episode local_sense) h s = absurd (ground arith)

module _ (b : Barrier) {t : ℕ} {m : ℕ → ℕ} {pcs : ℕ → BarrierPc} (inv : BarrierInv b t m pcs)
    (c : ℕ) (lt : c < b.n) where
  abbrev After : (ℕ → ℕ) → BarrierPc → Type 0
  After m' p = BarrierInv b (t + 1) m' (update pcs c p)

  -- All stand right if the moved thread does, in the same episode.
  pub stands' :
      (p : BarrierPc)
      → Stands inv.episode p
      → (i : ℕ) → i < b.n
      → Stands inv.episode (update pcs c p i)
  stands' p h i small = elim (Bool-cases (i == c)) [
    | inl mine ↦ rw mine h
    | inr other ↦ rw other (inv.stands i small)
  ]

  -- The moved thread changes the number of those that wait.
  pub waiters :
      (p : BarrierPc)
      → tally b.n (λ i. waits_in inv.episode (update pcs c p i))
          + (if waits_in inv.episode (pcs c) then 1 else 0)
        ≡ tally b.n (λ i. waits_in inv.episode (pcs i)) + (if waits_in inv.episode p then 1 else 0)
  waiters p =
      let change =
        tally-change b.n (λ i. waits_in inv.episode (pcs i))
          (λ i. waits_in inv.episode (update pcs c p i)) c lt
          (λ i other. rw (ne→beq i c other) refl) in
      rw (eq→beq c c refl) at change

  -- A thread that does not lead moves to a place where it does not, and counts as before.
  pub Phase-kept :
      (p : BarrierPc)
      → leads (pcs c) ≡ false
      → leads p ≡ false
      → waits_in inv.episode p ≡ waits_in inv.episode (pcs c)
      → Phase b.n inv.episode (m b.count_addr) (update pcs c p)
  Phase-kept p was is counts = elim inv.phase [
    | collecting nobody total some ↦
        collecting
          (λ i small. elim (Bool-cases (i == c)) [
            | inl mine ↦ rw mine is
            | inr other ↦ rw other (nobody i small)
          ])
          (ground (arith, waiters p, counts, total)) some
    | led k small leading count rest ↦
        let other : k ≢ c = λ e. ground (arith, ap (λ i. leads (pcs i)) e) in
        led k small (rw (ne→beq k c other) leading) (rw (ne→beq k c other) count) (λ i low away.
          elim (Bool-cases (i == c)) [
            | inl mine ↦ rw mine (counts ∙ rest c lt (λ e. other (sym e)))
            | inr apart ↦ rw apart (rest i low away)
          ])
  ]

  -- A thread that leads is the one that leads.
  pub leader :
      leads (pcs c) ≡ true
      → (m b.count_addr ≡ counter_of b.n (pcs c))
        × ((i : ℕ) → i < b.n → i ≢ c → waits_in inv.episode (pcs i) ≡ true)
  leader leading = elim inv.phase [
    | collecting nobody total some ↦ absurd (ground (arith, nobody c lt))
    | led k small first count rest ↦ elim (Bool-cases (c == k)) [
      | inl it ↦
          let same = beq→eq c k it in
          (rw same count, λ i low away. rest i low (λ e. away (e ∙ sym same)))
      | inr other ↦
          absurd (not_both inv.episode (pcs c) (rest c lt (λ e. ground (arith, e))) leading)
    ]
  ]

  -- The next step of the leader, in the same episode.
  pub led_on :
      (count : ℕ) (p : BarrierPc)
      → leads p ≡ true
      → count ≡ counter_of b.n p
      → ((i : ℕ) → i < b.n → i ≢ c → waits_in inv.episode (pcs i) ≡ true)
      → Phase b.n inv.episode count (update pcs c p)
  led_on count p leading counts rest =
      led c lt (rw (eq→beq c c refl) leading) (rw (eq→beq c c refl) counts)
        (λ i small away. rw (ne→beq i c away) (rest i small away))

  -- A thread that comes finds nobody leading.
  pub coming :
      leads (pcs c) ≡ false
      → waits_in inv.episode (pcs c) ≡ false
      → ((i : ℕ) → i < b.n → leads (pcs i) ≡ false)
        × (m b.count_addr + tally b.n (λ i. waits_in inv.episode (pcs i)) ≡ b.n)
        × (1 ≤ m b.count_addr)
  coming follows counts = elim inv.phase [
    | collecting nobody total some ↦ (nobody, total, some)
    | led k small first count rest ↦ elim (Bool-cases (c == k)) [
      | inl it ↦ absurd (ground (arith, ap (λ i. leads (pcs i)) (beq→eq c k it)))
      | inr other ↦ absurd (ground (arith, rest c lt (λ e. ground (arith, e))))
    ]
  ]
