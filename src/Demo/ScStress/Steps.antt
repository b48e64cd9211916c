-- ===== src/Demo/ScStress/Steps.antt =====
-- A turn of a worker: the caches stay coherent, the trace stays clean, and the trace has an event for
-- each round.
use mesi_cache_coherence.Common.{
  ℕ, ◌+◌, ◌≤◌, ◌<◌, ◌≡◌, ◌∙◌, update, ◌&&◌, ok, err, out_of_range, true, false, ltb, ◌==◌,
  if◌then◌else◌, Bool-cases, inl, inr, List, [], ◌∷◌, map, length, count, pos, arith, total,
  total-change,
}
use Prim.Native.Nat.{bit_and}
use mesi_cache_coherence.Bus.{RandomEngine}
use mesi_cache_coherence.System.{MesiSystem, locked_read, locked_write}
use mesi_cache_coherence.System
use mesi_cache_coherence.Refinement.Flat.{Request, Answer, core_of, apply, flat_step}
use mesi_cache_coherence.Refinement.Serve.{serve, settle}
use mesi_cache_coherence.Refinement.Locked.{Represents}
use mesi_cache_coherence.Refinement.Runs.{admitted, serve_missing, serve-refines}
use mesi_cache_coherence.ScChecker.Recorded.{Recorded, length-log}
use mesi_cache_coherence.ScChecker.Runs.{serve-Recorded}
use mesi_cache_coherence.Threads.{turn, play, plays}
use mesi_cache_coherence.Demo.ScStress.{Worker, call, drawn, request, resume, worker}

module _ ⦃std : RandomEngine⦄ {n : ℕ} {m : ℕ → ℕ} {s : MesiSystem} (r : Represents n m s)
    (t : Recorded m s) (core : ℕ) (there : ltb core n ≡ true) where
  -- A call logs one event.
  length-call :
      (i : ℕ) (p : ℕ × ℕ) → length (settle s (serve (call core i p) s)).0.trace ≡ length s.trace + 1
  unfolding call serve System.read System.write locked_read locked_write
  length-call i (pick, coin) = elim (Bool-cases (bit_and coin 1 == 0)) [
    | inl reads ↦ simp (reads, admitted r core there) (length-log core _ _ _ _ t.on)
    | inr writes ↦ simp (writes, admitted r core there) (length-log core _ _ _ _ t.on)
  ]

core_of-call : (core i : ℕ) (p : ℕ × ℕ) → core_of (call core i p) ≡ pos core
unfolding call
core_of-call core i (pick, coin) = ground arith

-- The threads after some turns: `m` is the flat memory that the caches stand for.
pub record Stressed ⦃std : RandomEngine⦄ (n ops : ℕ) (m : ℕ → ℕ) (s : MesiSystem) (pcs : ℕ → Worker)
    : Type 0 where
  pub memory : Represents n m s
  pub recorded : Recorded m s
  pub within : (j : ℕ) → (pcs j).i ≤ ops
  pub events : length s.trace ≡ total n (λ j. (pcs j).i)

module _ ⦃std : RandomEngine⦄ {n ops : ℕ} {m : ℕ → ℕ} {s : MesiSystem} {pcs : ℕ → Worker}
    (inv : Stressed n ops m s pcs) (c : ℕ) where
  abbrev next : Request
  next = request ops (record { core = c }) (pcs c)

  own : core_of next ≡ pos c
  unfolding request
  own = ground (arith, core_of-call c (pcs c).i (drawn (pcs c).rng).0)

  answered : ltb c n ≡ true → (settle s (serve next s)).1 ≡ ok (apply next m).1
  unfolding flat_step
  answered there = (serve-refines inv.memory next).1 ∙ ground (arith, own, there)

  unanswered : ltb c n ≡ false → settle s (serve next s) ≡ (s, err out_of_range)
  unanswered missing = serve_missing inv.memory next (ground (arith, own, missing))

  length-next :
      ltb c n ≡ true
      → length (settle s (serve next s)).0.trace
        ≡ length s.trace + (if ltb (pcs c).i ops then 1 else 0)
  unfolding request serve System.fence
  length-next there = elim (Bool-cases (ltb (pcs c).i ops)) [
    | inl works ↦
        simp works (length-call inv.memory inv.recorded c there (pcs c).i (drawn (pcs c).rng).0)
    | inr stops ↦ simp (stops, admitted inv.memory c there) (omega arith)
  ]

  abbrev moved : Answer → ℕ → Worker
  moved a = update pcs c (resume ops (pcs c) a)

  rounds_of_moved :
      (a : Answer) (j : ℕ)
      → (moved a j).i ≡ (pcs j).i + (if j == c && ltb (pcs c).i ops then 1 else 0)
  unfolding resume
  rounds_of_moved a j = ground arith

  moved-Stressed :
      (a : Answer)
      → ltb c n ≡ true
      → Stressed n ops (flat_step n next m).0 (settle s (serve next s)).0 (moved a)
  moved-Stressed a there = record {
    memory = (serve-refines inv.memory next).0;
    recorded = serve-Recorded inv.memory inv.recorded next;
    within = λ j. ground (arith, rounds_of_moved a j, inv.within j);
    events = ground (
      arith,
      length-next there,
      inv.events,
      rounds_of_moved a c,
      total-change n (λ j. (pcs j).i) (λ j. (moved a j).i) c (ground arith)
          (λ j apart. ground (arith, rounds_of_moved a j)),
    );
  }

  -- One turn. The worker whose turn it is goes a round on, if it has one left.
  pub turn-Stressed :
      let (s', pcs') = play (worker ops) (turn c) s pcs in
      (m' : ℕ → ℕ) × Stressed n ops m' s' pcs'
      × ((j : ℕ) → j < n → (pcs' j).i ≡ (pcs j).i + (if j == c && ltb (pcs c).i ops then 1 else 0))
  unfolding play
  turn-Stressed = elim (Bool-cases (ltb c n)) [
    | inl there ↦
        let a = (apply next m).1 in
        rw (answered there)
          ((flat_step n next m).0, moved-Stressed a there, λ j lt. rounds_of_moved a j)
    | inr missing ↦ rw (unanswered missing) (m, inv, λ j lt. ground (arith, missing))
  ]

-- A schedule that gives every worker its turns: in the end all have finished.
pub turns-Stressed :
    ⦃std : RandomEngine⦄ (cores : List ℕ) {n ops : ℕ} {m : ℕ → ℕ} {s : MesiSystem}
    {pcs : ℕ → Worker}
    → Stressed n ops m s pcs
    → ((j : ℕ) → j < n → ops ≤ (pcs j).i + count j cores)
    → let (s', pcs') = plays (worker ops) (map turn cores) s pcs in
      (m' : ℕ → ℕ) × Stressed n ops m' s' pcs' × ((j : ℕ) → j < n → (pcs' j).i ≡ ops)
unfolding plays count
turns-Stressed [] {m} inv left = (m, inv, λ j lt. omega (arith, left j lt, inv.within j))
turns-Stressed (c ∷ cores) {n} {ops} {m} {s} {pcs} inv left =
    let (m', inv', went) = turn-Stressed inv c in
    turns-Stressed cores inv' (λ j lt. ground (arith, left j lt, went j lt, inv.within j))
