-- ===== src/Traffic/Accesses.antt =====
-- The accesses that a sequence of calls asks of a core, and the lookups that it counts.
use mesi_cache_coherence.Common.{
  ℕ, ◌+◌, ◌<◌, ◌≡◌, refl, arith, if◌then◌else◌, ◌==◌, u64, inl, inr, false, Bool, List, [], ◌∷◌, ℤ,
  pos, negsuc, Error, ok, err, Result-cases,
}
use mesi_cache_coherence.Bus.{RandomEngine}
use mesi_cache_coherence.System.{MesiSystem, validate_core}
use mesi_cache_coherence.System
use mesi_cache_coherence.Refinement.Flat.{Request, read, write, cas, fetch_and_add, fence, core_of}
use mesi_cache_coherence.Refinement.Serve.{serve, settle, run}
use mesi_cache_coherence.Refinement.Locked.{Represents}
use mesi_cache_coherence.Refinement.Runs.{serve-refines}
use mesi_cache_coherence.Traffic.Lookups.{
  lookups, locked_read-LookedUp, locked_write-LookedUp, cas-LookedUp, add-LookedUp,
}

unfoldable pub names_core : ℕ → ℤ → Bool
names_core j (pos core) = core == j
names_core j (negsuc k) = false

-- The calls on behalf of core `j` that access a word: all but a fence.
unfoldable pub is_access : ℕ → Request → Bool
unfolding names_core
is_access j (fence core) = false
is_access j q = names_core j (core_of q)

unfoldable pub accesses : ℕ → List Request → ℕ
unfolding is_access
accesses j [] = 0
accesses j (q ∷ qs) = (if is_access j q then 1 else 0) + accesses j qs

valid_core :
    (core : ℤ) (s : MesiSystem) {c : ℕ} (j : ℕ)
    → validate_core core s ≡ ok c
    → names_core j core ≡ (c == j)
unfolding validate_core names_core
valid_core (negsuc k) s j e = absurd (ground arith)
valid_core (pos core) s j e = ground arith

invalid_core :
    (core : ℤ) (s : MesiSystem) {x : Error} (j : ℕ)
    → validate_core core s ≡ err x
    → j < s.bus.n_cores
    → names_core j core ≡ false
unfolding validate_core names_core
invalid_core (negsuc k) s j e lt = refl
invalid_core (pos core) s j e lt = ground arith

module _ ⦃std : RandomEngine⦄ (j : ℕ) (s : MesiSystem) (lt : j < s.bus.n_cores) where
  abbrev Counts : Request → Type 0
  Counts q =
      lookups j (settle s (serve q s)).0.bus
      ≡ u64 (lookups j s.bus + (if is_access j q then 1 else 0))

  unchanged :
      (core : ℤ) {x : Error}
      → validate_core core s ≡ err x
      → lookups j s.bus ≡ u64 (lookups j s.bus + (if names_core j core then 1 else 0))
  unchanged core e = simp (invalid_core core s j e lt) (omega arith)

  serve-Counts : (q : Request) → Counts q
  unfolding serve is_access names_core System.read System.write System.cas System.fetch_and_add
      System.fence
  serve-Counts (read core addr) = elim (Result-cases (validate_core core s)) [
    | inl (c, e) ↦ simp (e, valid_core core s j e) (locked_read-LookedUp j c addr s)
    | inr (x, e) ↦ simp e (unchanged core e)
  ]
  serve-Counts (write core addr value) = elim (Result-cases (validate_core core s)) [
    | inl (c, e) ↦ simp (e, valid_core core s j e) (locked_write-LookedUp j c addr s value)
    | inr (x, e) ↦ simp e (unchanged core e)
  ]
  serve-Counts (cas core addr expected new_val) = elim (Result-cases (validate_core core s)) [
    | inl (c, e) ↦ simp (e, valid_core core s j e) (cas-LookedUp j c addr s expected new_val)
    | inr (x, e) ↦ simp e (unchanged core e)
  ]
  serve-Counts (fetch_and_add core addr delta) = elim (Result-cases (validate_core core s)) [
    | inl (c, e) ↦ simp (e, valid_core core s j e) (add-LookedUp j c addr s delta)
    | inr (x, e) ↦ simp e (unchanged core e)
  ]
  serve-Counts (fence core) = elim (Result-cases (validate_core core s)) [
    | inl (c, e) ↦ simp e (omega arith)
    | inr (x, e) ↦ simp e (omega arith)
  ]

pub lookups-run :
    ⦃std : RandomEngine⦄ (j : ℕ) (qs : List Request) {n : ℕ} {m : ℕ → ℕ} {s : MesiSystem}
    → Represents n m s
    → j < n
    → lookups j (run qs s).0.bus ≡ u64 (lookups j s.bus + accesses j qs)
unfolding run accesses
lookups-run j [] r lt = omega arith
lookups-run j (q ∷ qs) {s = s} r lt =
    omega (arith, lookups-run j qs (serve-refines r q).0 lt, serve-Counts j s (rw r.n_cores lt) q)
