-- ===== src/Demo/ScStress/Guarantees.antt =====
-- The stress test ends, and its check passes.
use mesi_cache_coherence.Common.{
  ℕ, zero, suc, ◌+◌, ◌*◌, ◌^◌, ◌≤◌, ◌<◌, ◌≡◌, ◌≢◌, Error, ◌∙◌, refl, ap, Bool, true, false, List,
  length, count, map, pos, ok, err, arith, Returns, Result-cases, inl, inr, total-same, total_const,
}
use mesi_cache_coherence.Bus.{RandomEngine, SnoopingBus, register_addr}
use mesi_cache_coherence.System.{MesiSystem, enable_tracing, enable_race_injection}
use mesi_cache_coherence.System
use mesi_cache_coherence.Coherence.Defs.{Coherent}
use mesi_cache_coherence.Coherence.Lines.{register-Coherent}
use mesi_cache_coherence.Refinement.Locked.{Represents}
use mesi_cache_coherence.Refinement.Runs.{init-Represents, init-quiet}
use mesi_cache_coherence.Refinement.Guarantees.{race-Represents}
use mesi_cache_coherence.ScChecker.{check_serial_order}
use mesi_cache_coherence.ScChecker.Recorded.{Recorded, bus-Recorded, check-Recorded}
use mesi_cache_coherence.ScChecker.Runs.{tracing-Represents, init-Recorded}
use mesi_cache_coherence.Threads.{turn, plays}
use mesi_cache_coherence.Demo.ScStress.{
  worker, register_from, traced, prepare, start, threads, sc_stress,
}
use mesi_cache_coherence.Demo.ScStress.Steps.{Stressed, turns-Stressed}

register_from-Coherent :
    (k i : ℕ) {m : ℕ → ℕ} (b : SnoopingBus) → Coherent m b → Coherent m (register_from k i b)
unfolding register_from
register_from-Coherent zero i b c = c
register_from-Coherent (suc k) i b c = register_from-Coherent k (i + 1) _ (register-Coherent c _)

register_from-n_cores : (k i : ℕ) (b : SnoopingBus) → (register_from k i b).n_cores ≡ b.n_cores
unfolding register_from register_addr
register_from-n_cores zero i b = refl
register_from-n_cores (suc k) i b = register_from-n_cores k (i + 1) _

init_accepts : ⦃std : RandomEngine⦄ (n : ℕ) → 0 < n → (e : Error) → System.init (pos n) ≢ err e
unfolding System.init System.checked_core_count
init_accepts n some e = ground (arith, some)

module _ ⦃std : RandomEngine⦄ (n ops seed : ℕ) {s : MesiSystem}
    (fresh : System.init (pos n) ≡ ok s) where
  traced-Represents : (race : Bool) → Represents n (λ _. 0) (traced seed race s)
  traced-Represents false = tracing-Represents (init-Represents fresh)
  traced-Represents true = race-Represents _ (tracing-Represents (init-Represents fresh))

  traced-Recorded : (race : Bool) → Recorded (λ _. 0) (traced seed race s)
  unfolding enable_race_injection
  traced-Recorded false = init-Recorded n fresh
  traced-Recorded true = bus-Recorded _ (init-Recorded n fresh)

  traced-empty : (race : Bool) → (traced seed race s).trace ≡ s.trace
  unfolding enable_race_injection
  traced-empty false = refl
  traced-empty true = refl

  start-Stressed : (race : Bool) → Stressed n ops (λ _. 0) (prepare seed race s) (start seed)
  unfolding prepare
  start-Stressed race =
      let r = traced-Represents race in
      record {
        memory = record {
          coherent = register_from-Coherent 8 0 _ r.coherent;
          n_cores = register_from-n_cores 8 0 _ ∙ r.n_cores;
        };
        recorded = bus-Recorded _ (traced-Recorded race);
        within = λ j. omega arith;
        events =
            ap length (traced-empty race ∙ (init-quiet n fresh).0) ∙ omega (arith, total_const n 0);
      }

  joined :
      (race : Bool) (cores : List ℕ)
      → n * ops ≤ 2 ^ 64
      → ((j : ℕ) → j < n → ops ≤ count j cores)
      → let (s', workers) =
          plays (worker ops) (map turn cores) (prepare seed race s) (start seed) in
        ((j : ℕ) → j < n → (workers j).i ≡ ops)
        × (length s'.trace ≡ n * ops)
        × ((check_serial_order s'.trace).ok ≡ true)
  joined race cores small turns =
      let (m', inv, all) =
        turns-Stressed cores (start-Stressed race) (λ j lt. omega (arith, turns j lt)) in
      let events = inv.events ∙ total-same n _ (λ _. ops) all ∙ total_const n ops in
      (all, events, check-Recorded inv.recorded (omega (arith, events, small)))

-- Any number of cores but 0, of rounds and of seeds, with or without race injection, as long as the
-- rounds of all cores are at most 2^64: under every schedule that gives each core a turn for each of
-- its rounds, `sc_stress` ends with every worker past its loop, the trace has an event for each round of
-- each core, and the check of it passes.
pub sc_stress_passes :
    ⦃std : RandomEngine⦄ (n ops seed : ℕ) (race : Bool) (cores : List ℕ)
    → 0 < n
    → n * ops ≤ 2 ^ 64
    → ((j : ℕ) → j < n → ops ≤ count j cores)
    → Returns
        (threads n ops seed race cores)
        (λ (s, workers). ((j : ℕ) → j < n → (workers j).i ≡ ops) × (length s.trace ≡ n * ops))
      × Returns (sc_stress n ops seed race cores) (λ r. r.ok ≡ true)
unfolding threads sc_stress
sc_stress_passes n ops seed race cores some small turns =
    elim (Result-cases (System.init (pos n))) [
      | inl (s, fresh) ↦
          let (all, events, passes) = joined n ops seed fresh race cores small turns in
          rw fresh ((all, events), passes)
      | inr (e, refused) ↦ absurd (init_accepts n some e refused)
    ]
