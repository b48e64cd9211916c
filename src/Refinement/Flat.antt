-- ===== src/Refinement/Flat.antt =====
-- What the facade promises: a memory in which every operation acts at once, for every core alike.
use mesi_cache_coherence.Common.{
  ℕ, ◌+◌, Bool, false, List, [], ◌∷◌, update, u32, ℤ, pos, negsuc, Result, ok, err, out_of_range,
  if◌then◌else◌, ◌==◌, ltb,
}

-- A call of the facade by some thread.
pub data Request : Type 0 where
  read : (core : ℤ) (addr : ℕ) → Request
  write : (core : ℤ) (addr value : ℕ) → Request
  cas : (core : ℤ) (addr expected new_val : ℕ) → Request
  fetch_and_add : (core : ℤ) (addr delta : ℕ) → Request
  fence : (core : ℤ) → Request

pub data Answer : Type 0 where
  done : Answer
  word : ℕ → Answer
  swapped : (old_val : ℕ) (success : Bool) → Answer

abbrev pub core_of : Request → ℤ
core_of (read core addr) = core
core_of (write core addr value) = core
core_of (cas core addr expected new_val) = core
core_of (fetch_and_add core addr delta) = core
core_of (fence core) = core

-- Whether there is such a core among `n`.
abbrev pub exists : ℕ → ℤ → Bool
exists n (pos core) = ltb core n
exists n (negsuc k) = false

-- The memory after a request of an existing core, and the answer.
unfoldable pub apply : Request → (ℕ → ℕ) → (ℕ → ℕ) × Answer
apply (read core addr) m = (m, word (m addr))
apply (write core addr value) m = (update m addr value, done)
apply (cas core addr expected new_val) m =
    (if m addr == expected then update m addr new_val else m, swapped (m addr) (m addr == expected))
apply (fetch_and_add core addr delta) m = (update m addr (u32 (m addr + delta)), word (m addr))
apply (fence core) m = (m, done)

-- A request of a core that does not exist is refused, and changes nothing.
unfoldable pub flat_step : ℕ → Request → (ℕ → ℕ) → (ℕ → ℕ) × Result Answer
unfolding apply
flat_step n q m =
    if exists n (core_of q) then ((apply q m).0, ok (apply q m).1) else (m, err out_of_range)

unfoldable pub flat_run : ℕ → List Request → (ℕ → ℕ) → (ℕ → ℕ) × List (Result Answer)
unfolding flat_step
flat_run n [] m = (m, [])
flat_run n (q ∷ qs) m =
    let (m', a) = flat_step n q m in let (m'', as') = flat_run n qs m' in (m'', a ∷ as')
