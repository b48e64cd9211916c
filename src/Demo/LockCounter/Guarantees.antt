-- ===== src/Demo/LockCounter/Guarantees.antt =====
-- The count that `emit_lock_scalability_csv` expects.
use mesi_cache_coherence.Common.{
  ℕ, ◌*◌, ◌<◌, ◌≡◌, ◌≢◌, ◌∙◌, refl, ap, true, Bool, ◌||◌, ◌==◌, u32, List, [], ◌∷◌, length, pos, ok,
  arith, total, total-same, total_const,
}
use mesi_cache_coherence.Bus.{RandomEngine}
use mesi_cache_coherence.System.{MesiSystem}
use mesi_cache_coherence.System
use mesi_cache_coherence.Dut.{Dut}
use mesi_cache_coherence.Refinement.Flat.{read, word, core_of, apply, flat_step, flat_run}
use mesi_cache_coherence.Refinement.Serve.{run}
use mesi_cache_coherence.Refinement.Runs.{run-Represents, init-Represents}
use mesi_cache_coherence.Threads.{Event, plays}
use mesi_cache_coherence.Threads.Protocol.{Protocol, Reached, plays-Reached, all_avoid}
use mesi_cache_coherence.Primitives.TasLock.{TasLock, holding}
use mesi_cache_coherence.Primitives.TasLock.Flag.{free, core_of-request, frame-FlagInv}
use mesi_cache_coherence.Demo.LockCounter.{
  WorkerPc, locking, reading, writing, unlocking, finished, start, request, worker, prepare,
}
use mesi_cache_coherence.Demo.LockCounter.Counting.{
  CountInv, left, left-start, in_lock-start, start-ne-writing, worker_call,
}

abbrev pub region : TasLock → ℕ → ℕ → Bool
region l ctr a = (a == l.flag_addr) || (a == ctr)

own : (l : TasLock) (ctr : ℕ) (d : Dut) (p : WorkerPc) → core_of (request l ctr d p) ≡ pos d.core
unfolding request
own l ctr d (locking p k) = core_of-request l d.core p
own l ctr d (reading k) = refl
own l ctr d (writing k v) = refl
own l ctr d (unlocking k) = core_of-request l d.core holding
own l ctr d finished = refl

counter-Protocol :
    (l : TasLock) (ctr n goal limit : ℕ)
    → l.flag_addr ≢ ctr
    → Protocol (worker l ctr) n limit (region l ctr) (CountInv l ctr n goal)
counter-Protocol l ctr n goal limit apart = record {
  own = own l ctr;
  frame = λ t m m' pcs same inv.
      let kept : m' ctr ≡ m ctr = same ctr (ground arith) in
      record {
        flag = frame-FlagInv (same l.flag_addr (ground arith)) inv.flag;
        seen = rw kept inv.seen;
        account = rw kept inv.account;
        small = rw kept inv.small;
      };
  move = λ t m pcs c room lt inv.
      worker_call l ctr n goal apart inv c lt (record { core = c }) (pcs c) refl;
}

starting-CountInv :
    (l : TasLock) (ctr n rounds : ℕ) (m : ℕ → ℕ)
    → m l.flag_addr ≡ 0
    → m ctr ≡ 0
    → CountInv l ctr n (n * rounds) 0 m (λ _. start rounds)
starting-CountInv l ctr n rounds m flag zero_count = record {
  flag = free flag (λ i. ground (arith, in_lock-start rounds));
  seen = λ i k v e. absurd (start-ne-writing rounds k v e);
  account = rw (left-start rounds, zero_count, total_const n rounds) (omega arith);
  small = omega (arith, zero_count);
}

module _ ⦃std : RandomEngine⦄ (l : TasLock) (ctr : ℕ) (apart : l.flag_addr ≢ ctr) (count rounds : ℕ)
    (s : MesiSystem) (fresh : System.init (pos count) ≡ ok s) (es : List Event)
    (avoided : all_avoid (region l ctr) es ≡ true) where
  -- The system and the workers after a schedule.
  abbrev pub reached : MesiSystem × (ℕ → WorkerPc)
  reached = plays (worker l ctr) es (run (prepare l ctr) s).0 (λ _. start rounds)

  final-CountInv :
      (t' : ℕ) × Reached
        (counter-Protocol l ctr count (count * rounds) (length es) apart)
        t'
        reached.0
        reached.1
  unfolding flat_run flat_step apply
  final-CountInv =
      plays-Reached (counter-Protocol l ctr count (count * rounds) (length es) apart) es 0
        (run (prepare l ctr) s).0 (λ _. start rounds) (omega arith) avoided
        (record {
          flat = (flat_run count (prepare l ctr) (λ _. 0)).0;
          memory = (run-Represents (prepare l ctr) (init-Represents fresh)).0;
          inv = starting-CountInv l ctr count rounds _ (ground arith) (ground arith);
        })

  -- One worker on each core, of which there is at least one, adds 1 to a word other than the flag,
  -- `rounds` times under the lock. After any schedule in which the other calls write neither the
  -- word nor the flag, if all workers have finished, the word that core 0 reads is `count * rounds`
  -- in 32 bits.
  pub exact_count :
      ((i : ℕ) → i < count → reached.1 i ≡ finished)
      → 0 < count
      → (run (read (pos 0) ctr ∷ []) reached.0).1 ≡ ok (word (u32 (count * rounds))) ∷ []
  unfolding flat_run flat_step apply
  exact_count all some =
      let (_, r) = final-CountInv in
      let none_left : total count (λ i. left (reached.1 i)) ≡ 0 =
        total-same count (λ i. left (reached.1 i)) (λ _. 0) (λ i lt. ap left (all i lt))
        ∙ total_const count 0
        ∙ omega arith in
      (run-Represents (read (pos 0) ctr ∷ []) r.memory).1
      ∙ ground (arith, none_left, r.inv.account, r.inv.small)
