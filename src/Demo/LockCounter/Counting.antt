-- ===== src/Demo/LockCounter/Counting.antt =====
-- The word and the rounds still to go add up.
use mesi_cache_coherence.Common.{
  ℕ, zero, suc, ◌+◌, ◌^◌, ◌<◌, ◌≡◌, ◌≢◌, ◌∙◌, refl, sym, ap, subst, fun_ext, u32, update, arith,
  total, total-change,
}
use mesi_cache_coherence.Dut.{Dut}
use mesi_cache_coherence.Refinement.Flat.{apply}
use mesi_cache_coherence.Primitives.TasLock.{TasLock, LockPc, trying, spinning, holding}
use mesi_cache_coherence.Primitives.TasLock
use mesi_cache_coherence.Primitives.TasLock.Flag.{FlagInv, free, held, call-FlagInv}
use mesi_cache_coherence.Demo.LockCounter.{
  WorkerPc, locking, reading, writing, unlocking, finished, start, entered, request, resume,
}

-- What a worker is to the lock.
abbrev pub in_lock : WorkerPc → LockPc
in_lock (locking p k) = p
in_lock (reading k) = holding
in_lock (writing k v) = holding
in_lock (unlocking k) = holding
in_lock finished = trying

-- The additions that a worker still has to do.
abbrev pub left : WorkerPc → ℕ
left (locking p k) = suc k
left (reading k) = suc k
left (writing k v) = suc k
left (unlocking k) = k
left finished = 0

pub record CountInv (l : TasLock) (ctr n goal t : ℕ) (m : ℕ → ℕ) (pcs : ℕ → WorkerPc) : Type 0 where
  pub flag : FlagInv l.flag_addr m (λ i. in_lock (pcs i))
  pub seen : (i k v : ℕ) → pcs i ≡ writing k v → v ≡ m ctr
  pub account : u32 (total n (λ i. left (pcs i)) + m ctr) ≡ u32 goal
  pub small : m ctr < 2 ^ 32

in_lock-update :
    (pcs : ℕ → WorkerPc) (c : ℕ) (p : WorkerPc)
    → update (λ i. in_lock (pcs i)) c (in_lock p) ≡ (λ i. in_lock (update pcs c p i))
in_lock-update pcs c p = fun_ext (λ i. ground arith)

in_lock-entered : (p : LockPc) (k : ℕ) → in_lock (entered p k) ≡ p
unfolding entered
in_lock-entered holding k = refl
in_lock-entered trying k = refl
in_lock-entered spinning k = refl

left-entered : (p : LockPc) (k : ℕ) → left (entered p k) ≡ suc k
unfolding entered
left-entered holding k = refl
left-entered p k = refl

entered-ne-writing : (p : LockPc) (k k' v : ℕ) → entered p k ≢ writing k' v
unfolding entered
entered-ne-writing holding k k' v h = cc
entered-ne-writing p k k' v h = cc

pub in_lock-start : (k : ℕ) → in_lock (start k) ≡ trying
unfolding start
in_lock-start zero = refl
in_lock-start (suc k) = refl

pub left-start : (k : ℕ) → left (start k) ≡ k
unfolding start
left-start zero = refl
left-start (suc k) = refl

pub start-ne-writing : (j k v : ℕ) → start j ≢ writing k v
unfolding start
start-ne-writing zero k v h = cc
start-ne-writing (suc j) k v h = cc

-- A call of the lock writes no other word.
lock_apart :
    (l : TasLock) (d : Dut) (p : LockPc) (m : ℕ → ℕ) (a : ℕ)
    → l.flag_addr ≢ a
    → (apply (TasLock.request l d p) m).0 a ≡ m a
unfolding TasLock.request apply
lock_apart l d trying m a apart = ground arith
lock_apart l d spinning m a apart = refl
lock_apart l d holding m a apart = ground arith

module _ (l : TasLock) (ctr n goal : ℕ) (apart : l.flag_addr ≢ ctr) {t : ℕ} {m : ℕ → ℕ}
    {pcs : ℕ → WorkerPc} (inv : CountInv l ctr n goal t m pcs) (c : ℕ) (lt : c < n) where
  -- A thread comes to `p`; the word grows by what its rounds fall.
  accounted :
      (p : WorkerPc) (m' : ℕ → ℕ)
      → u32 (left p + m' ctr) ≡ u32 (left (pcs c) + m ctr)
      → u32 (total n (λ i. left (update pcs c p i)) + m' ctr) ≡ u32 goal
  accounted p m' same =
      let moved =
        total-change n (λ i. left (pcs i)) (λ i. left (update pcs c p i)) c lt
          (λ i other. ground (arith, other)) in
      ground (arith, moved, inv.account)

  -- The thread comes to `p`, with `m'` as memory.
  arrive :
      (p : WorkerPc) (m' : ℕ → ℕ)
      → FlagInv l.flag_addr m' (update (λ i. in_lock (pcs i)) c (in_lock p))
      → ((i k v : ℕ) → update pcs c p i ≡ writing k v → v ≡ m' ctr)
      → u32 (left p + m' ctr) ≡ u32 (left (pcs c) + m ctr)
      → m' ctr < 2 ^ 32
      → CountInv l ctr n goal (t + 1) m' (update pcs c p)
  arrive p m' flag seen same small = record {
    small = small;
    flag = subst (FlagInv l.flag_addr m') (in_lock-update pcs c p) flag;
    seen = seen;
    account = accounted p m' same;
  }

  -- It comes to a place that is not before the write, and the counter stays.
  still_seen :
      (p : WorkerPc) (m' : ℕ → ℕ)
      → ((k v : ℕ) → p ≢ writing k v)
      → m' ctr ≡ m ctr
      → (i k v : ℕ) → update pcs c p i ≡ writing k v
      → v ≡ m' ctr
  still_seen p m' other same i k v at = ground (arith, other k v, inv.seen i k v)

  -- A call of the lock, which keeps the rounds.
  in_lock_call :
      (d : Dut) (q : LockPc) (p : WorkerPc)
      → in_lock (pcs c) ≡ q
      → let (m', a) = apply (TasLock.request l d q) m in
        (in_lock p ≡ TasLock.resume q a)
        → left p ≡ left (pcs c)
        → ((k v : ℕ) → p ≢ writing k v)
        → CountInv l ctr n goal (t + 1) m' (update pcs c p)
  in_lock_call d q p at goes same other =
      let (m', a) = apply (TasLock.request l d q) m in
      let kept : m' ctr ≡ m ctr = lock_apart l d q m ctr apart in
      arrive p m' (rw goes (call-FlagInv l d c q at inv.flag)) (still_seen p m' other kept)
        (rw (kept, same) refl) (rw kept inv.small)

  holders : (i : ℕ) → in_lock (pcs c) ≡ holding → in_lock (pcs i) ≡ holding → i ≡ c
  holders i at too = elim inv.flag [
    | free e none_holds ↦ absurd (none_holds c at)
    | held k e there only ↦ only i too ∙ sym (only c at)
  ]

  stay_in :
      (m' : ℕ → ℕ)
      → in_lock (pcs c) ≡ holding
      → m' l.flag_addr ≡ m l.flag_addr
      → FlagInv l.flag_addr m' (update (λ i. in_lock (pcs i)) c holding)
  stay_in m' at same = elim inv.flag [
    | free e none_holds ↦ absurd (none_holds c at)
    | held k e there only ↦
        held k (same ∙ e) (ground (arith, only c at)) (λ i. ground (arith, only i, only c at))
  ]

  pub worker_call :
      (d : Dut) (p : WorkerPc)
      → pcs c ≡ p
      → let (m', a) = apply (request l ctr d p) m in
        CountInv l ctr n goal (t + 1) m' (update pcs c (resume p a))
  unfolding request resume apply TasLock.resume
  worker_call d (locking p k) at =
      let (m', a) = apply (TasLock.request l d p) m in
      let q = TasLock.resume p a in
      in_lock_call d p (entered q k) (ap in_lock at) (in_lock-entered q k)
        (left-entered q k ∙ ap left (sym at)) (entered-ne-writing q k)
  worker_call d (reading k) at =
      arrive (writing k (m ctr)) m (stay_in m (ap in_lock at) refl)
        (λ i k' v e. ground (arith, inv.seen i k' v)) (rw at refl) inv.small
  worker_call d (writing k v) at =
      arrive (unlocking k) (update m ctr (u32 (v + 1))) (stay_in _ (ap in_lock at) (ground arith))
        (λ i k' v' e. ground (arith, holders i (ap in_lock at), e))
        (ground (arith, inv.seen c k v at)) (ground arith)
  worker_call d (unlocking k) at =
      in_lock_call d holding (start k) (ap in_lock at) (in_lock-start k)
        (left-start k ∙ ap left (sym at)) (start-ne-writing k)
  worker_call d finished at =
      arrive finished m
        (subst (λ ps. FlagInv l.flag_addr m ps) (fun_ext (λ i. ground arith)) inv.flag)
        (λ i k v e. ground (arith, inv.seen i k v)) (rw at refl) inv.small
