-- ===== src/Refinement/Runs.antt =====
-- Sequences of calls: the answers are those of the flat memory, and the caches stay coherent.
use mesi_cache_coherence.Common.{
  ℕ, ◌≡◌, refl, sym, ap, ap₂, true, false, arith, ◌==◌, ltb, Bool-cases, inl, inr, List, [], ◌∷◌, ℤ,
  pos, negsuc, ok, err, out_of_range, ok-injective,
}
use mesi_cache_coherence.Bus.{RandomEngine}
use mesi_cache_coherence.Bus
use mesi_cache_coherence.System.{MesiSystem, validate_core, locked_read}
use mesi_cache_coherence.System
use mesi_cache_coherence.Coherence.Processor.{init-Coherent}
use mesi_cache_coherence.Refinement.Flat.{
  Request, read, write, cas, fetch_and_add, fence, word, swapped, exists, core_of, flat_step,
  flat_run,
}
use mesi_cache_coherence.Refinement.Serve.{serve, settle, run}
use mesi_cache_coherence.Refinement.Locked.{
  Represents, read-Represents, write-Represents, cas-Represents, add-Represents,
}

abbrev Refines : ⦃std : RandomEngine⦄ → ℕ → (ℕ → ℕ) → MesiSystem → Request → Type 0
Refines n m s q =
    let (s', a) = settle s (serve q s) in
    Represents n (flat_step n q m).0 s' × (a ≡ (flat_step n q m).1)

module _ ⦃std : RandomEngine⦄ {n : ℕ} {m : ℕ → ℕ} {s : MesiSystem} (r : Represents n m s) where
  pub admitted : (core : ℕ) → ltb core n ≡ true → validate_core (pos core) s ≡ ok core
  unfolding validate_core
  admitted core h = rw (r.n_cores, h)

  pub refused : (core : ℤ) → exists n core ≡ false → validate_core core s ≡ err out_of_range
  unfolding validate_core
  refused (pos core) h = rw (r.n_cores, h)
  refused (negsuc k) h = refl

  -- A call of a core that does not exist changes nothing.
  pub serve_missing :
      (q : Request) → exists n (core_of q) ≡ false → settle s (serve q s) ≡ (s, err out_of_range)
  unfolding serve System.read System.write System.cas System.fetch_and_add System.fence
  serve_missing (read core addr) h = simp (refused core h) refl
  serve_missing (write core addr value) h = simp (refused core h) refl
  serve_missing (cas core addr expected new_val) h = simp (refused core h) refl
  serve_missing (fetch_and_add core addr delta) h = simp (refused core h) refl
  serve_missing (fence core) h = simp (refused core h) refl

  serve_refused : (q : Request) → exists n (core_of q) ≡ false → Refines n m s q
  unfolding flat_step
  serve_refused q h = simp (h, serve_missing q h) (r, refl)

  serve_admitted : (c : ℕ) (q : Request) → core_of q ≡ pos c → ltb c n ≡ true → Refines n m s q
  unfolding serve flat_step System.read System.write System.cas System.fetch_and_add System.fence
  serve_admitted c (read core addr) e h =
      let p = read-Represents r c addr (ground arith) in
      simp (e, h, admitted c h) (p.0, ap (λ v. ok (word v)) p.1)
  serve_admitted c (write core addr value) e h =
      simp (e, h, admitted c h) (write-Represents r c addr (ground arith) value, refl)
  serve_admitted c (cas core addr expected new_val) e h =
      let p = cas-Represents r c addr (ground arith) expected new_val in
      simp (e, h, admitted c h) (p.0, ap (λ a. ok (swapped a.old_val a.success)) p.1)
  serve_admitted c (fetch_and_add core addr delta) e h =
      let p = add-Represents r c addr (ground arith) delta in
      simp (e, h, admitted c h) (p.0, ap (λ v. ok (word v)) p.1)
  serve_admitted c (fence core) e h = simp (e, h, admitted c h) (r, refl)

  served : (q : Request) (core : ℤ) → core_of q ≡ core → Refines n m s q
  served q (negsuc k) e = serve_refused q (ground arith)
  served q (pos c) e = elim (Bool-cases (ltb c n)) [
    | inl there ↦ serve_admitted c q e there
    | inr missing ↦ serve_refused q (ground arith)
  ]

  -- One call, of any core id: the flat memory's step and its answer.
  pub serve-refines : (q : Request) → Refines n m s q
  serve-refines q = served q (core_of q) refl

-- Any sequence of calls.
pub run-Represents :
    ⦃std : RandomEngine⦄ (qs : List Request) {n : ℕ} {m : ℕ → ℕ} {s : MesiSystem}
    → Represents n m s
    → Represents n (flat_run n qs m).0 (run qs s).0 × ((run qs s).1 ≡ (flat_run n qs m).1)
unfolding run flat_run
run-Represents [] r = (r, refl)
run-Represents (q ∷ qs) r =
    let (r', e) = serve-refines r q in let (r'', es) = run-Represents qs r' in (r'', ap₂ ◌∷◌ e es)

pub init-bus :
    ⦃std : RandomEngine⦄ (count : ℕ) {s : MesiSystem}
    → System.init (pos count) ≡ ok s
    → s.bus ≡ Bus.init count
unfolding System.init System.checked_core_count
init-bus count e = elim (Bool-cases (count == 0)) [
  | inl empty ↦ absurd (ground (arith, empty))
  | inr some_core ↦ sym (ap (λ t. t.bus) (ok-injective (simp some_core at e)))
]

pub init-Represents :
    ⦃std : RandomEngine⦄ {count : ℕ} {s : MesiSystem}
    → System.init (pos count) ≡ ok s
    → Represents count (λ _. 0) s
unfolding Bus.init
init-Represents {count} e = record {
  coherent = rw (init-bus count e) (init-Coherent count);
  n_cores = ap (λ b. b.n_cores) (init-bus count e);
}

pub init-quiet :
    ⦃std : RandomEngine⦄ (count : ℕ) {s : MesiSystem}
    → System.init (pos count) ≡ ok s
    → (s.trace ≡ []) × (s.timestamp ≡ 0)
unfolding System.init System.checked_core_count
init-quiet count e = ground arith
