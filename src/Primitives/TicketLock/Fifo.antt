-- ===== src/Primitives/TicketLock/Fifo.antt =====
-- First come, first served: a thread that waits is not overtaken by one that takes a later ticket.
use mesi_cache_coherence.Common.{
  ℕ, ◌^◌, ◌≤◌, ◌≡◌, ◌≢◌, sym, refl, true, false, ◌==◌, ltb, Bool-cases, inl, inr, List, [], ◌∷◌,
  arith, Bool, ◌&&◌, ne→beq, eq→beq, subst, ap, ◌∙◌,
}
use mesi_cache_coherence.Bus.{RandomEngine}
use mesi_cache_coherence.System.{MesiSystem}
use mesi_cache_coherence.Refinement.Flat.{Request, apply, flat_step}
use mesi_cache_coherence.Refinement.Locked.{Represents}
use mesi_cache_coherence.Threads.{
  Event, turn, other, spares, all_spare, flat_play, flat_step-spares, play, plays, play-Agrees,
}
use mesi_cache_coherence.Primitives.TicketLock.{
  TicketPc, arriving, waiting, serving, TicketLock, request, resume, ticket_lock,
}
use mesi_cache_coherence.Primitives.TicketLock.Tickets.{is_serving}
use mesi_cache_coherence.Primitives.TicketLock.Order.{
  Ahead, not_served, arrive-Ahead, stay-Ahead, enter-Ahead, leave-Ahead,
}
use mesi_cache_coherence.Primitives.TicketLock.Schedules.{
  Queued, TicketPc-cases, core_of-request, turn-Queued, other-Queued,
}

abbrev pub is_waiting : TicketPc → Bool
is_waiting arriving = false
is_waiting (waiting my) = true
is_waiting (serving my) = false

abbrev pub InOrder : TicketLock → ℕ → ℕ → (ℕ → ℕ) × (ℕ → TicketPc) → Type 0
InOrder l i j p = Ahead i j (p.0 l.now_serving_addr) p.1

module _ (l : TicketLock) (apart : l.next_ticket_addr ≢ l.now_serving_addr) (n : ℕ)
    (small : n ≤ 2 ^ 32) (m : ℕ → ℕ) {pcs : ℕ → TicketPc} (q : Queued l n (m, pcs)) {i j : ℕ}
    (a : InOrder l i j (m, pcs)) where
  abbrev Moved : ℕ → (ℕ → ℕ) × (ℕ → TicketPc)
  Moved c = flat_play (ticket_lock l) n (turn c) m pcs

  arriving-InOrder : (c : ℕ) → ltb c n ≡ true → pcs c ≡ arriving → InOrder l i j (Moved c)
  unfolding flat_play flat_step request resume apply
  arriving-InOrder c lt at =
      simp (lt, at, ne→beq l.now_serving_addr l.next_ticket_addr (λ e. apart (sym e)))
        (arrive-Ahead q small a c (ground arith) at)

  waiting-InOrder :
      (c my : ℕ)
      → ltb c n ≡ true
      → pcs c ≡ waiting my
      → is_waiting ((Moved c).1 i) ≡ true
      → InOrder l i j (Moved c)
  unfolding flat_play flat_step request resume apply
  waiting-InOrder c my lt at still = elim (Bool-cases (m l.now_serving_addr == my)) [
    | inl now ↦
        let away : c ≢ i = λ e. ground (arith, simp (lt, at, now) at still) in
        simp (lt, at, now) (enter-Ahead q small a c my away at)
    | inr later ↦ simp (lt, at, later) (stay-Ahead q small a c my at)
  ]

  serving-InOrder : (c my : ℕ) → ltb c n ≡ true → pcs c ≡ serving my → InOrder l i j (Moved c)
  unfolding flat_play flat_step request resume apply
  serving-InOrder c my lt at =
      simp (lt, at, eq→beq l.now_serving_addr l.now_serving_addr refl)
        (leave-Ahead q small a c my at)

  refused-InOrder : (c : ℕ) → ltb c n ≡ false → InOrder l i j (Moved c)
  unfolding flat_play flat_step
  refused-InOrder c lt = simp (core_of-request l c (pcs c), lt) a

  turn-InOrder : (c : ℕ) → is_waiting ((Moved c).1 i) ≡ true → InOrder l i j (Moved c)
  turn-InOrder c still = elim (Bool-cases (ltb c n)) [
    | inr lt ↦ refused-InOrder c lt
    | inl lt ↦ elim (TicketPc-cases (pcs c)) [
      | inl at ↦ arriving-InOrder c lt at
      | inr (inl (my, at)) ↦ waiting-InOrder c my lt at still
      | inr (inr (my, at)) ↦ serving-InOrder c my lt at
    ]
  ]

  other-InOrder :
      (r : Request)
      → spares l.now_serving_addr r ≡ true
      → InOrder l i j (flat_play (ticket_lock l) n (other r) m pcs)
  unfolding flat_play
  other-InOrder r h = rw (flat_step-spares n r m h) a

module _ ⦃std : RandomEngine⦄ (l : TicketLock) (i : ℕ) where
  -- The thread waits before, between and after the steps of a schedule.
  unfoldable pub keeps_waiting : List Event → MesiSystem → (ℕ → TicketPc) → Bool
  keeps_waiting [] s pcs = is_waiting (pcs i)
  keeps_waiting (e ∷ es) s pcs =
      let (s', pcs') = play (ticket_lock l) e s pcs in
      is_waiting (pcs i) && keeps_waiting es s' pcs'

  keeps_waiting-first :
      (es : List Event) (s : MesiSystem) (pcs : ℕ → TicketPc)
      → keeps_waiting es s pcs ≡ true
      → is_waiting (pcs i) ≡ true
  unfolding keeps_waiting
  keeps_waiting-first [] s pcs h = h
  keeps_waiting-first (e ∷ es) s pcs h = ground arith

  keeps_waiting-rest :
      (e : Event) (es : List Event) (s : MesiSystem) (pcs : ℕ → TicketPc)
      → keeps_waiting (e ∷ es) s pcs ≡ true
      → let (s', pcs') = play (ticket_lock l) e s pcs in keeps_waiting es s' pcs' ≡ true
  unfolding keeps_waiting
  keeps_waiting-rest e es s pcs h = ground arith

  module _ (apart : l.next_ticket_addr ≢ l.now_serving_addr) (n : ℕ) (small : n ≤ 2 ^ 32)
      (j : ℕ) where
    abbrev Line : (ℕ → ℕ) → (ℕ → TicketPc) → Type 0
    Line m pcs = Queued l n (m, pcs) × InOrder l i j (m, pcs)

    pub plays-not_overtaken :
        (es : List Event) (m : ℕ → ℕ) (s : MesiSystem) (pcs : ℕ → TicketPc)
        → Represents n m s
        → Line m pcs
        → all_spare l.now_serving_addr es ≡ true
        → all_spare l.next_ticket_addr es ≡ true
        → keeps_waiting es s pcs ≡ true
        → is_serving ((plays (ticket_lock l) es s pcs).1 j) ≡ false
    unfolding plays play all_spare keeps_waiting flat_play
    plays-not_overtaken [] m s pcs r (q, a) hn hs h = not_served q small a
    plays-not_overtaken (turn c ∷ es) m s pcs r (q, a) hn hs h =
        let (s', pcs') = play (ticket_lock l) (turn c) s pcs in
        let rest : keeps_waiting es s' pcs' ≡ true = keeps_waiting-rest (turn c) es s pcs h in
        let (r', p) = play-Agrees (ticket_lock l) (turn c) pcs r in
        let still : is_waiting ((flat_play (ticket_lock l) n (turn c) m pcs).1 i) ≡ true =
          ap (λ w. is_waiting (w i)) (sym p) ∙ keeps_waiting-first es s' pcs' rest in
        plays-not_overtaken es _ s' pcs' r'
          (subst (Line (flat_play (ticket_lock l) n (turn c) m pcs).0) (sym p)
            (turn-Queued l apart n small m q c, turn-InOrder l apart n small m q a c still))
          hn hs rest
    plays-not_overtaken (other x ∷ es) m s pcs r (q, a) hn hs h =
        let (s', _) = play (ticket_lock l) (other x) s pcs in
        let (r', _) = play-Agrees (ticket_lock l) (other x) pcs r in
        plays-not_overtaken es _ s' pcs r'
          (
            other-Queued l apart n small m q x (ground arith) (ground arith),
            other-InOrder l apart n small m q a x (ground arith),
          )
          (ground arith) (ground arith) (keeps_waiting-rest (other x) es s pcs h)
