-- ===== src/ScChecker/Runs.antt =====
-- Any sequence of calls on a system that traces leaves a trace that passes the check.
use mesi_cache_coherence.Common.{
  ℕ, ◌+◌, ◌^◌, ◌≤◌, ◌<◌, ◌≡◌, inl, inr, refl, true, false, List, [], ◌∷◌, arith, if◌then◌else◌,
  ◌==◌, Bool-cases, length, update, u32, ℤ, pos, negsuc, ok, ltb,
}
use mesi_cache_coherence.Bus.{RandomEngine}
use mesi_cache_coherence.System.{
  MesiSystem, enable_tracing, locked_read, locked_write, locked_acquire, locked_put, locked_cas,
  locked_add,
}
use mesi_cache_coherence.System
use mesi_cache_coherence.Refinement.Flat.{
  Request, read, write, cas, fetch_and_add, fence, exists, core_of, flat_step, flat_run,
}
use mesi_cache_coherence.Refinement.Serve.{serve, settle, run}
use mesi_cache_coherence.Refinement.Locked.{Represents, read-Represents, acquire-Represents}
use mesi_cache_coherence.Refinement.Runs.{
  admitted, serve_missing, serve-refines, init-Represents, init-quiet,
}
use mesi_cache_coherence.ScChecker.{check_serial_order, check_events}
use mesi_cache_coherence.ScChecker.Serial.{after_events}
use mesi_cache_coherence.ScChecker.Recorded.{
  Recorded, bus-Recorded, log_read-Recorded, log_write-Recorded, check-Recorded,
}

module _ ⦃std : RandomEngine⦄ {n : ℕ} {m : ℕ → ℕ} {s : MesiSystem} (r : Represents n m s)
    (t : Recorded m s) where
  module _ (core addr : ℕ) (lt : core < n) where
    read-Recorded : Recorded m (locked_read core addr s).0
    unfolding locked_read
    read-Recorded =
        log_read-Recorded (bus-Recorded _ t) core addr _ (read-Represents r core addr lt).1

    write-Recorded : (value : ℕ) → Recorded (update m addr value) (locked_write core addr value s)
    unfolding locked_write
    write-Recorded value = log_write-Recorded (bus-Recorded _ t) core addr value

    acquire-Recorded : Recorded m (locked_acquire core addr s).0
    unfolding locked_acquire
    acquire-Recorded =
        log_read-Recorded (bus-Recorded _ t) core addr _ (acquire-Represents r core addr lt).1

    put-Recorded :
        (value : ℕ)
        → Recorded (update m addr value) (locked_put core addr value (locked_acquire core addr s).0)
    unfolding locked_put
    put-Recorded value = log_write-Recorded (bus-Recorded _ acquire-Recorded) core addr value

    cas-Recorded :
        (expected new_val : ℕ)
        → Recorded
            (if m addr == expected then update m addr new_val else m)
            (locked_cas core addr expected new_val s).0
    unfolding locked_cas
    cas-Recorded expected new_val =
        let value = (acquire-Represents r core addr lt).1 in
        elim (Bool-cases (m addr == expected)) [
          | inl hit ↦ simp (value, hit) (put-Recorded new_val)
          | inr miss ↦ simp (value, miss) acquire-Recorded
        ]

    add-Recorded :
        (delta : ℕ)
        → Recorded (update m addr (u32 (m addr + delta))) (locked_add core addr delta s).0
    unfolding locked_add
    add-Recorded delta =
        simp (acquire-Represents r core addr lt).1 (put-Recorded (u32 (m addr + delta)))

  abbrev Keeps : Request → Type 0
  Keeps q = Recorded (flat_step n q m).0 (settle s (serve q s)).0

  serve_refused : (q : Request) → exists n (core_of q) ≡ false → Keeps q
  unfolding flat_step
  serve_refused q h = simp (h, serve_missing r q h) t

  serve_admitted : (c : ℕ) (q : Request) → core_of q ≡ pos c → ltb c n ≡ true → Keeps q
  unfolding serve flat_step System.read System.write System.cas System.fetch_and_add System.fence
  serve_admitted c (read core addr) e h =
      simp (e, h, admitted r c h) (read-Recorded c addr (ground arith))
  serve_admitted c (write core addr value) e h =
      simp (e, h, admitted r c h) (write-Recorded c addr (ground arith) value)
  serve_admitted c (cas core addr expected new_val) e h =
      simp (e, h, admitted r c h) (cas-Recorded c addr (ground arith) expected new_val)
  serve_admitted c (fetch_and_add core addr delta) e h =
      simp (e, h, admitted r c h) (add-Recorded c addr (ground arith) delta)
  serve_admitted c (fence core) e h = simp (e, h, admitted r c h) t

  served : (q : Request) (core : ℤ) → core_of q ≡ core → Keeps q
  served q (negsuc k) e = serve_refused q (ground arith)
  served q (pos c) e = elim (Bool-cases (ltb c n)) [
    | inl there ↦ serve_admitted c q e there
    | inr missing ↦ serve_refused q (ground arith)
  ]

-- One call, of any core id, keeps the record.
pub serve-Recorded :
    ⦃std : RandomEngine⦄ {n : ℕ} {m : ℕ → ℕ} {s : MesiSystem}
    → Represents n m s
    → Recorded m s
    → (q : Request) → Recorded (flat_step n q m).0 (settle s (serve q s)).0
serve-Recorded r t q = served r t q (core_of q) refl

run-Recorded :
    ⦃std : RandomEngine⦄ (qs : List Request) {n : ℕ} {m : ℕ → ℕ} {s : MesiSystem}
    → Represents n m s
    → Recorded m s
    → Recorded (flat_run n qs m).0 (run qs s).0
unfolding run flat_run
run-Recorded [] r t = t
run-Recorded (q ∷ qs) r t = run-Recorded qs (serve-refines r q).0 (serve-Recorded r t q)

pub tracing-Represents :
    {n : ℕ} {m : ℕ → ℕ} {s : MesiSystem} → Represents n m s → Represents n m (enable_tracing true s)
tracing-Represents r = record { coherent = r.coherent; n_cores = r.n_cores }

pub init-Recorded :
    ⦃std : RandomEngine⦄ (count : ℕ) {s : MesiSystem}
    → System.init (pos count) ≡ ok s
    → Recorded (λ _. 0) (enable_tracing true s)
unfolding check_events after_events
init-Recorded count fresh =
    let (no_events, at_zero) = init-quiet count fresh in
    record {
      on = refl;
      clean = rw no_events;
      replayed = λ a. rw no_events;
      stamped = rw no_events tt;
      clock = rw (no_events, at_zero);
    }

-- From a fresh system that traces, any sequence of calls leaves a trace that passes
-- `check_serial_order`, as long as it has at most 2^64 events.
pub run-check_serial_order :
    ⦃std : RandomEngine⦄ (count : ℕ) (s : MesiSystem) (fresh : System.init (pos count) ≡ ok s)
    (qs : List Request)
    → length (run qs (enable_tracing true s)).0.trace ≤ 2 ^ 64
    → (check_serial_order (run qs (enable_tracing true s)).0.trace).ok ≡ true
run-check_serial_order count s fresh qs bound =
    check-Recorded
      (run-Recorded qs (tracing-Represents (init-Represents fresh)) (init-Recorded count fresh))
      bound
