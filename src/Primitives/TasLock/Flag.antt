-- ===== src/Primitives/TasLock/Flag.antt =====
-- The flag word of the test-and-set lock says whether a thread holds the lock.
use mesi_cache_coherence.Common.{
  ℕ, ◌≡◌, ◌≢◌, ◌⊎◌, inl, inr, refl, true, ltb, Bool-cases, List, [], ◌∷◌, update, arith, ◌∙◌, pos,
}
use mesi_cache_coherence.Dut.{Dut}
use mesi_cache_coherence.Refinement.Flat.{Request, apply, flat_step, core_of}
use mesi_cache_coherence.Threads.{
  Event, turn, other, spares, all_spare, flat_play, flat_plays, flat_step-spares,
}
use mesi_cache_coherence.Primitives.TasLock.{
  LockPc, trying, spinning, holding, TasLock, request, resume, tas_lock,
}

-- The word is 0 while nobody holds the lock, and 1 while one thread does.
pub data FlagInv (flag : ℕ) (m : ℕ → ℕ) (pcs : ℕ → LockPc) : Type 0 where
  free : m flag ≡ 0 → ((i : ℕ) → pcs i ≢ holding) → FlagInv flag m pcs
  held :
      (k : ℕ)
      → m flag ≡ 1
      → pcs k ≡ holding
      → ((i : ℕ) → pcs i ≡ holding → i ≡ k)
      → FlagInv flag m pcs

LockPc-cases : (p : LockPc) → (p ≡ trying) ⊎ ((p ≡ spinning) ⊎ (p ≡ holding))
LockPc-cases trying = inl refl
LockPc-cases spinning = inr (inl refl)
LockPc-cases holding = inr (inr refl)

pub core_of-request :
    (l : TasLock) (c : ℕ) (p : LockPc) → core_of (request l (record { core = c }) p) ≡ pos c
unfolding request
core_of-request l c trying = refl
core_of-request l c spinning = refl
core_of-request l c holding = refl

abbrev Kept : ℕ → (ℕ → ℕ) × (ℕ → LockPc) → Type 0
Kept flag p = FlagInv flag p.0 p.1

enter :
    {flag : ℕ} (m : ℕ → ℕ) {pcs : ℕ → LockPc} (c : ℕ)
    → ((i : ℕ) → pcs i ≢ holding)
    → FlagInv flag (update m flag 1) (update pcs c holding)
enter m c none_holds = held c (ground arith) (ground arith) (λ i. ground (arith, none_holds i))

module _ {flag : ℕ} {m : ℕ → ℕ} {pcs : ℕ → LockPc} (c : ℕ) where
  -- A thread outside of the lock moves and stays outside.
  stay_out :
      (p : LockPc)
      → pcs c ≢ holding
      → p ≢ holding
      → FlagInv flag m pcs
      → FlagInv flag m (update pcs c p)
  stay_out p out there (free e none_holds) = free e (λ i. ground (arith, none_holds i))
  stay_out p out there (held k e h only) = held k e (ground arith) (λ i. ground (arith, only i))

  leave :
      pcs c ≡ holding → FlagInv flag m pcs → FlagInv flag (update m flag 0) (update pcs c trying)
  leave at (free e none_holds) = absurd (none_holds c at)
  leave at (held k e h only) = free (ground arith) (λ i. ground (arith, only i, only c))

-- Memory that has the same flag.
pub frame-FlagInv :
    {flag : ℕ} {m m' : ℕ → ℕ} {pcs : ℕ → LockPc}
    → m' flag ≡ m flag
    → FlagInv flag m pcs
    → FlagInv flag m' pcs
frame-FlagInv same (free e none_holds) = free (same ∙ e) none_holds
frame-FlagInv same (held k e at only) = held k (same ∙ e) at only

-- A call of the lock, by a thread anywhere in it.
pub call-FlagInv :
    (l : TasLock) (d : Dut) (c : ℕ) {m : ℕ → ℕ} {pcs : ℕ → LockPc} (p : LockPc)
    → pcs c ≡ p
    → FlagInv l.flag_addr m pcs
    → let (m', a) = apply (request l d p) m in FlagInv l.flag_addr m' (update pcs c (resume p a))
unfolding request resume apply
call-FlagInv l d c {m} trying at (free e none_holds) = simp e (enter m c none_holds)
call-FlagInv l d c trying at (held k e h only) =
    simp e (stay_out c spinning (ground arith) (ground arith) (held k e h only))
call-FlagInv l d c spinning at inv = stay_out c _ (ground arith) (ground arith) inv
call-FlagInv l d c holding at inv = leave c at inv

module _ (l : TasLock) (n : ℕ) {m : ℕ → ℕ} {pcs : ℕ → LockPc}
    (inv : FlagInv l.flag_addr m pcs) where
  turn-Kept : (c : ℕ) → Kept l.flag_addr (flat_play (tas_lock l) n (turn c) m pcs)
  unfolding flat_play flat_step
  turn-Kept c = elim (Bool-cases (ltb c n)) [
    | inr lt ↦ simp (core_of-request l c (pcs c), lt) inv
    | inl lt ↦
        simp (core_of-request l c (pcs c), lt)
          (call-FlagInv l (record { core = c }) c (pcs c) refl inv)
  ]

  other-Kept :
      (q : Request)
      → spares l.flag_addr q ≡ true
      → Kept l.flag_addr (flat_play (tas_lock l) n (other q) m pcs)
  unfolding flat_play
  other-Kept q h = frame-FlagInv (flat_step-spares n q m h) inv

-- Any schedule keeps it, if the other calls do not write the flag.
pub plays-Kept :
    (l : TasLock) (n : ℕ) (es : List Event) {m : ℕ → ℕ} {pcs : ℕ → LockPc}
    → all_spare l.flag_addr es ≡ true
    → FlagInv l.flag_addr m pcs
    → Kept l.flag_addr (flat_plays (tas_lock l) n es m pcs)
unfolding all_spare flat_plays
plays-Kept l n [] h inv = inv
plays-Kept l n (turn c ∷ es) h inv = plays-Kept l n es h (turn-Kept l n inv c)
plays-Kept l n (other q ∷ es) h inv =
    plays-Kept l n es (ground arith) (other-Kept l n inv q (ground arith))
