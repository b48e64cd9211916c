-- ===== src/Coherence/Defs.antt =====
-- The invariant that ties the caches and the memory to one flat memory `m`.
use mesi_cache_coherence.Common.{ℕ, ◌≤◌, ◌≡◌, ◌≢◌, ◌⊎◌, Bool, true, false, none, is_some, contains}
use mesi_cache_coherence.Types.{State, I, E, M, line_of}
use mesi_cache_coherence.Memory
use mesi_cache_coherence.Cache.{line_state, peek}
use mesi_cache_coherence.Bus.{SnoopingBus, words_in_line}

abbrev pub state_at : SnoopingBus → ℕ → ℕ → State
state_at b i line = line_state (b.controllers i) line

abbrev pub owns : State → Bool
owns E = true
owns M = true
owns _ = false

pub record Coherent (m : ℕ → ℕ) (b : SnoopingBus) : Type 0 where
  -- a controller that does not exist holds nothing
  pub absent : (i l : ℕ) → b.n_cores ≤ i → state_at b i l ≡ I
  -- one writer, or any number of readers
  pub exclusive : (i j l : ℕ) → i ≢ j → owns (state_at b i l) ≡ true → state_at b j l ≡ I
  -- a copy has the value of the flat memory
  pub current : (i a : ℕ) → state_at b i (line_of a) ≢ I → peek (b.controllers i) a ≡ m a
  -- the backing memory has it too, unless a core holds the line dirty
  pub backed : (a : ℕ) → (Memory.read b.mem a ≡ m a) ⊎ ((i : ℕ) × (state_at b i (line_of a) ≡ M))
  -- a word that a holder of the line has not loaded was never written back
  pub unloaded :
      (i a : ℕ)
      → state_at b i (line_of a) ≢ I
      → (b.controllers i).words a ≡ none
      → Memory.read b.mem a ≡ 0
  -- no words without the line
  pub dropped : (i a : ℕ) → state_at b i (line_of a) ≡ I → (b.controllers i).words a ≡ none
  -- words are held and stored only of registered addresses
  pub registered :
      (i a : ℕ)
      → is_some ((b.controllers i).words a) ≡ true
      → contains a (words_in_line b (line_of a)) ≡ true
  pub stored :
      (a : ℕ) → is_some (b.mem.words a) ≡ true → contains a (words_in_line b (line_of a)) ≡ true
  pub within : (a l : ℕ) → contains a (words_in_line b l) ≡ true → l ≡ line_of a
