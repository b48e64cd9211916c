-- ===== src/Primitives/TicketLock/Queue.antt =====
-- The queue that the two words of the ticket lock and the tickets of its threads make up.
use mesi_cache_coherence.Common.{
  ℕ, ◌+◌, ◌^◌, ◌≤◌, ◌<◌, ◌≡◌, sym, refl, ap, true, update, arith, ◌∙◌, u32,
}
use mesi_cache_coherence.Primitives.TicketLock.{TicketPc, arriving, waiting, serving}
use mesi_cache_coherence.Primitives.TicketLock.Tickets.{
  is_in, is_serving, ticket, busy, busy-bound, busy-update,
}

-- `first` counts the unlocks and `taken` numbers the tickets, both without wrapping.
pub record Queue (n now next : ℕ) (pcs : ℕ → TicketPc) : Type 0 where
  pub first : ℕ
  pub taken : ℕ → ℕ
  pub now_serving : now ≡ u32 first
  pub next_ticket : next ≡ u32 (first + busy n pcs)
  pub lower : (c : ℕ) → is_in (pcs c) ≡ true → first ≤ taken c
  pub upper : (c : ℕ) → is_in (pcs c) ≡ true → taken c < first + busy n pcs
  pub shown : (c : ℕ) → is_in (pcs c) ≡ true → ticket (pcs c) ≡ u32 (taken c)
  pub served : (c : ℕ) → is_serving (pcs c) ≡ true → taken c ≡ first
  pub distinct : (c d : ℕ) → is_in (pcs c) ≡ true → is_in (pcs d) ≡ true → taken c ≡ taken d → c ≡ d

-- Too few tickets are out for two to wrap to the same word.
pub same_ticket :
    {n now next : ℕ} {pcs : ℕ → TicketPc} (q : Queue n now next pcs) (i j : ℕ)
    → n ≤ 2 ^ 32
    → is_in (pcs i) ≡ true
    → is_in (pcs j) ≡ true
    → ticket (pcs i) ≡ ticket (pcs j)
    → i ≡ j
same_ticket {n} {pcs = pcs} q i j small hi hj e = q.distinct i j hi hj (
    omega (
      arith,
      sym (q.shown i hi) ∙ e ∙ q.shown j hj,
      q.lower i hi,
      q.upper i hi,
      q.lower j hj,
      q.upper j hj,
      busy-bound n pcs,
    ))

module _ {n now next : ℕ} {pcs : ℕ → TicketPc} (q : Queue n now next pcs) (c : ℕ) (lt : c < n) where
  pub arrive : pcs c ≡ arriving → Queue n now (u32 (next + 1)) (update pcs c (waiting next))
  arrive at =
      let grown : busy n (update pcs c (waiting next)) ≡ busy n pcs + 1 =
        ground (arith, busy-update n pcs c (waiting next) lt) in
      record {
        first = q.first;
        taken = update q.taken c (q.first + busy n pcs);
        now_serving = q.now_serving;
        next_ticket = rw (grown, q.next_ticket) (omega arith);
        lower = λ i h. ground (arith, q.lower i);
        upper = λ i h. rw grown (ground (arith, q.upper i));
        shown = λ i h. ground (arith, q.shown i, q.next_ticket);
        served = λ i h. ground (arith, q.served i);
        distinct = λ i j hi hj e. ground (arith, q.distinct i j, q.upper i, q.upper j);
      }

  pub stay : (my : ℕ) → pcs c ≡ waiting my → Queue n now next (update pcs c (waiting my))
  stay my at =
      let same : busy n (update pcs c (waiting my)) ≡ busy n pcs =
        ground (arith, busy-update n pcs c (waiting my) lt) in
      record {
        first = q.first;
        taken = q.taken;
        now_serving = q.now_serving;
        next_ticket = rw (same, q.next_ticket) refl;
        lower = λ i h. ground (arith, q.lower i);
        upper = λ i h. rw same (ground (arith, q.upper i));
        shown = λ i h. ground (arith, q.shown i);
        served = λ i h. ground (arith, q.served i);
        distinct = λ i j hi hj e. ground (arith, q.distinct i j);
      }

  -- Fewer than 2 ^ 32 tickets are out, so that the one shown is the first.
  pub enter :
      (my : ℕ)
      → pcs c ≡ waiting my
      → now ≡ my
      → n ≤ 2 ^ 32
      → Queue n now next (update pcs c (serving my))
  enter my at e small =
      let same : busy n (update pcs c (serving my)) ≡ busy n pcs =
        ground (arith, busy-update n pcs c (serving my) lt) in
      let inside : is_in (pcs c) ≡ true = rw at refl in
      let mine : my ≡ u32 (q.taken c) = sym (ap ticket at) ∙ q.shown c inside in
      let turn : q.taken c ≡ q.first = omega (
        arith,
        q.now_serving,
        mine,
        e,
        q.lower c inside,
        q.upper c inside,
        busy-bound n pcs,
        small,
      ) in
      record {
        first = q.first;
        taken = q.taken;
        now_serving = q.now_serving;
        next_ticket = rw (same, q.next_ticket) refl;
        lower = λ i h. ground (arith, q.lower i);
        upper = λ i h. rw same (ground (arith, q.upper i));
        shown = λ i h. ground (arith, q.shown i);
        served = λ i h. ground (arith, q.served i, turn);
        distinct = λ i j hi hj e. ground (arith, q.distinct i j);
      }

  pub leave : (my : ℕ) → pcs c ≡ serving my → Queue n (u32 (now + 1)) next (update pcs c arriving)
  leave my at =
      let shrunk : busy n (update pcs c arriving) + 1 ≡ busy n pcs =
        ground (arith, busy-update n pcs c arriving lt) in
      let inside : is_in (pcs c) ≡ true = rw at refl in
      let turn : q.taken c ≡ q.first = q.served c (rw at refl) in
      record {
        first = q.first + 1;
        taken = q.taken;
        now_serving = rw q.now_serving (omega arith);
        next_ticket = ground (arith, q.next_ticket, shrunk);
        lower = λ i h. ground (arith, q.lower i, q.distinct i c, turn);
        upper = λ i h. ground (arith, q.upper i, shrunk);
        shown = λ i h. ground (arith, q.shown i);
        served = λ i h. ground (arith, q.served i, q.distinct i c, turn);
        distinct = λ i j hi hj e. ground (arith, q.distinct i j);
      }
