-- ===== src/Primitives/TicketLock/Tickets.antt =====
-- The tickets of the threads in the lock, as the two words of the ticket lock count them.
use mesi_cache_coherence.Common.{
  ℕ, zero, suc, ◌+◌, ◌≤◌, ◌<◌, ◌≡◌, inl, inr, refl, Bool, true, false, ◌==◌, Bool-cases, update,
  arith, if◌then◌else◌,
}
use mesi_cache_coherence.Primitives.TicketLock.{TicketPc, arriving, waiting, serving}

-- Between the fetch-and-add of `lock` and that of `unlock`.
abbrev pub is_in : TicketPc → Bool
is_in arriving = false
is_in (waiting my) = true
is_in (serving my) = true

abbrev pub is_serving : TicketPc → Bool
is_serving arriving = false
is_serving (waiting my) = false
is_serving (serving my) = true

abbrev pub ticket : TicketPc → ℕ
ticket arriving = 0
ticket (waiting my) = my
ticket (serving my) = my

-- How many of the first `n` threads are in the lock.
unfoldable pub busy : ℕ → (ℕ → TicketPc) → ℕ
busy zero pcs = 0
busy (suc k) pcs = (if is_in (pcs k) then 1 else 0) + busy k pcs

pub busy-arriving : (n : ℕ) → busy n (λ _. arriving) ≡ 0
unfolding busy
busy-arriving zero = refl
busy-arriving (suc k) = omega (arith, busy-arriving k)

pub busy-bound : (n : ℕ) (pcs : ℕ → TicketPc) → busy n pcs ≤ n
unfolding busy
busy-bound zero pcs = omega arith
busy-bound (suc k) pcs = ground (arith, busy-bound k pcs)

busy-beyond :
    (n : ℕ) (pcs : ℕ → TicketPc) (c : ℕ) (p : TicketPc)
    → n ≤ c
    → busy n (update pcs c p) ≡ busy n pcs
unfolding busy
busy-beyond zero pcs c p h = refl
busy-beyond (suc k) pcs c p h = ground (arith, busy-beyond k pcs c p)

pub busy-update :
    (n : ℕ) (pcs : ℕ → TicketPc) (c : ℕ) (p : TicketPc)
    → c < n
    → busy n (update pcs c p) + (if is_in (pcs c) then 1 else 0)
      ≡ busy n pcs + (if is_in p then 1 else 0)
unfolding busy
busy-update zero pcs c p h = absurd (omega (arith, h))
busy-update (suc k) pcs c p h = elim (Bool-cases (c == k)) [
  | inl last ↦ ground (arith, busy-beyond k pcs c p)
  | inr before ↦ ground (arith, busy-update k pcs c p)
]
