-- ===== src/Primitives/TicketLock/Schedules.antt =====
-- Every schedule of the ticket lock's threads keeps the queue.
use mesi_cache_coherence.Common.{
  ℕ, ◌^◌, ◌≤◌, ◌≡◌, ◌≢◌, ◌⊎◌, inl, inr, sym, refl, true, false, ◌==◌, ltb, Bool-cases, List, [],
  ◌∷◌, arith, pos, ne→beq, eq→beq, beq→eq,
}
use mesi_cache_coherence.Refinement.Flat.{Request, apply, flat_step, core_of}
use mesi_cache_coherence.Threads.{
  Event, turn, other, spares, all_spare, flat_play, flat_plays, flat_step-spares,
}
use mesi_cache_coherence.Primitives.TicketLock.{
  TicketPc, arriving, waiting, serving, TicketLock, request, resume, ticket_lock,
}
use mesi_cache_coherence.Primitives.TicketLock.Queue.{Queue, arrive, stay, enter, leave}

abbrev pub Queued : TicketLock → ℕ → (ℕ → ℕ) × (ℕ → TicketPc) → Type 0
Queued l n p = Queue n (p.0 l.now_serving_addr) (p.0 l.next_ticket_addr) p.1

pub TicketPc-cases :
    (p : TicketPc)
    → (p ≡ arriving) ⊎ (((my : ℕ) × (p ≡ waiting my)) ⊎ ((my : ℕ) × (p ≡ serving my)))
TicketPc-cases arriving = inl refl
TicketPc-cases (waiting my) = inr (inl (my, refl))
TicketPc-cases (serving my) = inr (inr (my, refl))

pub core_of-request :
    (l : TicketLock) (c : ℕ) (p : TicketPc) → core_of (request l (record { core = c }) p) ≡ pos c
unfolding request
core_of-request l c arriving = refl
core_of-request l c (waiting my) = refl
core_of-request l c (serving my) = refl

module _ (l : TicketLock) (apart : l.next_ticket_addr ≢ l.now_serving_addr) (n : ℕ)
    (small : n ≤ 2 ^ 32) (m : ℕ → ℕ) {pcs : ℕ → TicketPc} (q : Queued l n (m, pcs)) where
  abbrev Moves : ℕ → Type 0
  Moves c = Queued l n (flat_play (ticket_lock l) n (turn c) m pcs)

  arriving-Queued : (c : ℕ) → ltb c n ≡ true → pcs c ≡ arriving → Moves c
  unfolding flat_play flat_step request resume apply
  arriving-Queued c lt at =
      simp
        (
          lt,
          at,
          eq→beq l.next_ticket_addr l.next_ticket_addr refl,
          ne→beq l.now_serving_addr l.next_ticket_addr (λ e. apart (sym e)),
        )
        (arrive q c (ground arith) at)

  waiting-Queued : (c my : ℕ) → ltb c n ≡ true → pcs c ≡ waiting my → Moves c
  unfolding flat_play flat_step request resume apply
  waiting-Queued c my lt at = elim (Bool-cases (m l.now_serving_addr == my)) [
    | inl now ↦ simp (lt, at, now) (enter q c (ground arith) my at (beq→eq _ _ now) small)
    | inr later ↦ simp (lt, at, later) (stay q c (ground arith) my at)
  ]

  serving-Queued : (c my : ℕ) → ltb c n ≡ true → pcs c ≡ serving my → Moves c
  unfolding flat_play flat_step request resume apply
  serving-Queued c my lt at =
      simp
        (
          lt,
          at,
          eq→beq l.now_serving_addr l.now_serving_addr refl,
          ne→beq l.next_ticket_addr l.now_serving_addr apart,
        )
        (leave q c (ground arith) my at)

  refused-Queued : (c : ℕ) → ltb c n ≡ false → Moves c
  unfolding flat_play flat_step
  refused-Queued c lt = simp (core_of-request l c (pcs c), lt) q

  pub turn-Queued : (c : ℕ) → Moves c
  turn-Queued c = elim (Bool-cases (ltb c n)) [
    | inr lt ↦ refused-Queued c lt
    | inl lt ↦ elim (TicketPc-cases (pcs c)) [
      | inl at ↦ arriving-Queued c lt at
      | inr (inl (my, at)) ↦ waiting-Queued c my lt at
      | inr (inr (my, at)) ↦ serving-Queued c my lt at
    ]
  ]

  pub other-Queued :
      (r : Request)
      → spares l.now_serving_addr r ≡ true
      → spares l.next_ticket_addr r ≡ true
      → Queued l n (flat_play (ticket_lock l) n (other r) m pcs)
  unfolding flat_play
  other-Queued r hn hs = rw (flat_step-spares n r m hn, flat_step-spares n r m hs) q

-- The other calls write neither word.
pub plays-Queued :
    (l : TicketLock) (n : ℕ) (es : List Event) (m : ℕ → ℕ) {pcs : ℕ → TicketPc}
    → l.next_ticket_addr ≢ l.now_serving_addr
    → n ≤ 2 ^ 32
    → all_spare l.now_serving_addr es ≡ true
    → all_spare l.next_ticket_addr es ≡ true
    → Queued l n (m, pcs)
    → Queued l n (flat_plays (ticket_lock l) n es m pcs)
unfolding all_spare flat_plays
plays-Queued l n [] m apart small hn hs q = q
plays-Queued l n (turn c ∷ es) m apart small hn hs q =
    plays-Queued l n es _ apart small hn hs (turn-Queued l apart n small m q c)
plays-Queued l n (other r ∷ es) m apart small hn hs q =
    plays-Queued l n es _ apart small (ground arith) (ground arith)
      (other-Queued l apart n small m q r (ground arith) (ground arith))
