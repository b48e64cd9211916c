-- ===== src/Primitives/TicketLock/Order.antt =====
-- Who is ahead of whom in the queue of the ticket lock.
use mesi_cache_coherence.Common.{
  ℕ, ◌+◌, ◌-◌, ◌^◌, ◌≤◌, ◌<◌, ◌≡◌, ◌≢◌, sym, refl, true, false, ◌==◌, update, arith, ◌∙◌, u32,
  Bool-cases, inl, inr,
}
use mesi_cache_coherence.Primitives.TicketLock.{TicketPc, arriving, waiting, serving}
use mesi_cache_coherence.Primitives.TicketLock.Tickets.{
  is_in, is_serving, ticket, busy, busy-bound, busy-update,
}
use mesi_cache_coherence.Primitives.TicketLock.Queue.{Queue}

-- How many calls of `unlock` come before a thread's turn, by the words alone.
unfoldable pub distance : ℕ → TicketPc → ℕ
distance now p = u32 (ticket p + 2 ^ 32 - now)

pub distance-taken :
    {n now next : ℕ} {pcs : ℕ → TicketPc} (q : Queue n now next pcs) (i : ℕ)
    → n ≤ 2 ^ 32
    → is_in (pcs i) ≡ true
    → q.first + distance now (pcs i) ≡ q.taken i
unfolding distance
distance-taken {n} {pcs = pcs} q i small hi =
    omega (arith, q.shown i hi, q.now_serving, q.lower i hi, q.upper i hi, busy-bound n pcs)

-- Thread `i` waits, and `j` comes after it or is not in the lock.
pub record Ahead (i j now : ℕ) (pcs : ℕ → TicketPc) : Type 0 where
  pub my : ℕ
  pub waits : pcs i ≡ waiting my
  pub after : is_in (pcs j) ≡ true → distance now (pcs i) < distance now (pcs j)

module _ {n now next : ℕ} {pcs : ℕ → TicketPc} (q : Queue n now next pcs) (small : n ≤ 2 ^ 32)
    {i j : ℕ} (a : Ahead i j now pcs) where
  inside : is_in (pcs i) ≡ true
  inside = rw a.waits refl

  pub not_served : is_serving (pcs j) ≡ false
  not_served = elim (Bool-cases (is_serving (pcs j))) [
    | inr out ↦ out
    | inl at ↦
        let there : is_in (pcs j) ≡ true = ground arith in
        absurd (omega (arith, a.after there, distance-taken q j small there, q.served j at))
  ]

  room : (c : ℕ) → c < n → pcs c ≡ arriving → busy n pcs < n
  room c lt at =
      ground
        (arith, busy-update n pcs c (waiting next) lt, busy-bound n (update pcs c (waiting next)))

  new_distance : (c : ℕ) → c < n → pcs c ≡ arriving → distance now (waiting next) ≡ busy n pcs
  unfolding distance
  new_distance c lt at = omega (arith, q.next_ticket, q.now_serving, room c lt at)

  old_distance : distance now (pcs i) < busy n pcs
  old_distance = omega (arith, distance-taken q i small inside, q.upper i inside)

  unlock_distance :
      (c k : ℕ)
      → is_serving (pcs c) ≡ true
      → is_in (pcs k) ≡ true
      → k ≢ c
      → distance (u32 (now + 1)) (pcs k) + 1 ≡ distance now (pcs k)
  unfolding distance
  unlock_distance c k hc hk differ =
      let away : q.taken k ≢ q.first =
        λ e. differ (q.distinct k c hk (ground arith) (e ∙ sym (q.served c hc))) in
      omega (
        arith,
        distance-taken q k small hk,
        q.shown k hk,
        q.now_serving,
        q.lower k hk,
        away,
        q.upper k hk,
        busy-bound n pcs,
      )

  pub arrive-Ahead :
      (c : ℕ) → c < n → pcs c ≡ arriving → Ahead i j now (update pcs c (waiting next))
  arrive-Ahead c lt at =
      let other : (i == c) ≡ false = ground (arith, a.waits) in
      record {
        my = a.my;
        waits = ground (arith, a.waits);
        after = λ h. simp other (ground (arith, a.after, new_distance c lt at, old_distance));
      }

  pub stay-Ahead : (c my : ℕ) → pcs c ≡ waiting my → Ahead i j now (update pcs c (waiting my))
  stay-Ahead c my at = record {
    my = a.my;
    waits = ground (arith, a.waits);
    after = λ h. ground (arith, a.after);
  }

  pub enter-Ahead :
      (c my : ℕ) → c ≢ i → pcs c ≡ waiting my → Ahead i j now (update pcs c (serving my))
  unfolding distance
  enter-Ahead c my other at = record {
    my = a.my;
    waits = ground (arith, a.waits);
    after = λ h. ground (arith, a.after);
  }

  pub leave-Ahead :
      (c my : ℕ) → pcs c ≡ serving my → Ahead i j (u32 (now + 1)) (update pcs c arriving)
  leave-Ahead c my at = record {
    my = a.my;
    waits = ground (arith, a.waits);
    after = λ h. ground (arith, a.after, unlock_distance c i, unlock_distance c j, inside);
  }
