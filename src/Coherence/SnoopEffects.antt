-- ===== src/Coherence/SnoopEffects.antt =====
-- What one snoop changes: the state and the words of the controller that answers, and the memory.
use mesi_cache_coherence.Common.{
  ℕ, ◌≡◌, refl, Bool, true, false, ◌&&◌, none, some, arith, if◌then◌else◌, ◌==◌, contains, not,
}
use mesi_cache_coherence.Types.{
  State, I, S, M, BusTxn, no_txn, bus_rd, bus_rdx, bus_upgr, line_of, is_I,
}
use mesi_cache_coherence.Cache.{line_state, has_word, peek, set_state}
use mesi_cache_coherence.Bus.{SnoopingBus, words_in_line}
use mesi_cache_coherence.Controller.{react, snoop}
use mesi_cache_coherence.Coherence.Effects.{words-store_words, words-drop_words, state-drop_words}

-- The state of a line after a transaction of another core.
abbrev pub snooped : BusTxn → State → State
snooped txn I = I
snooped bus_rd st = S
snooped bus_rdx st = I
snooped bus_upgr st = I
snooped txn st = st

-- Whether a snoop writes the line back.
abbrev pub flushes : BusTxn → State → Bool
flushes bus_rd M = true
flushes bus_rdx M = true
flushes txn st = false

-- Whether it drops the words of the line.
abbrev pub drops : BusTxn → State → Bool
drops txn st = not (is_I st) && is_I (snooped txn st)

module _ (id line : ℕ) (b : SnoopingBus) where
  state-react :
      (txn : BusTxn) (st : State) (j l : ℕ)
      → line_state (b.controllers id) line ≡ st
      → line_state ((react txn st id line b).0.controllers j) l
        ≡ (if j == id && l == line then snooped txn st else line_state (b.controllers j) l)
  unfolding react
  state-react no_txn I j l e = ground arith
  state-react txn st j l e =
      ground (arith, state-drop_words (words_in_line b line) (set_state line I (b.controllers id)))

  words-react :
      (txn : BusTxn) (st : State) (j a : ℕ)
      → ((react txn st id line b).0.controllers j).words a ≡ (
          if j == id && (drops txn st && contains a (words_in_line b line))
          then none
          else (b.controllers j).words a)
  unfolding react
  words-react no_txn I j a = ground arith
  words-react txn st j a =
      ground
        (arith, words-drop_words a (words_in_line b line) (set_state line I (b.controllers id)))

  mem-react :
      (txn : BusTxn) (st : State) (a : ℕ)
      → (react txn st id line b).0.mem.words a ≡ (
          if flushes txn st && (contains a (words_in_line b line) && has_word (b.controllers id) a)
          then some (peek (b.controllers id) a)
          else b.mem.words a)
  unfolding react
  mem-react no_txn I a = ground arith
  mem-react txn st a =
      ground (arith, words-store_words a (b.controllers id) (words_in_line b line) b.mem)

  line_words-react :
      (txn : BusTxn) (st : State) → (react txn st id line b).0.line_words ≡ b.line_words
  unfolding react
  line_words-react no_txn I = refl
  line_words-react txn st = ground arith

  n_cores-react : (txn : BusTxn) (st : State) → (react txn st id line b).0.n_cores ≡ b.n_cores
  unfolding react
  n_cores-react no_txn I = refl
  n_cores-react txn st = ground arith

  -- `had_copy` and `intervened` say what the snooped state was.
  reply-react :
      (txn : BusTxn) (st : State)
      → (react txn st id line b).1
        ≡ record { had_copy = not (is_I st); intervened = flushes txn st }
  unfolding react
  reply-react no_txn I = refl
  reply-react txn st = ground arith

module _ (txn : BusTxn) (addr id : ℕ) (b : SnoopingBus) where
  abbrev before : State
  before = line_state (b.controllers id) (line_of addr)

  abbrev after : SnoopingBus
  after = (snoop txn addr id b).0

  pub state-snoop :
      (j l : ℕ)
      → line_state (after.controllers j) l ≡ (
          if j == id && l == line_of addr
          then snooped txn before
          else line_state (b.controllers j) l)
  unfolding snoop
  state-snoop j l = state-react id (line_of addr) b txn before j l refl

  pub words-snoop :
      (j a : ℕ)
      → (after.controllers j).words a ≡ (
          if j == id && (drops txn before && contains a (words_in_line b (line_of addr)))
          then none
          else (b.controllers j).words a)
  unfolding snoop
  words-snoop = words-react id (line_of addr) b txn before

  pub mem-snoop :
      (a : ℕ)
      → after.mem.words a ≡ (
          if flushes txn before
            && (contains a (words_in_line b (line_of addr)) && has_word (b.controllers id) a)
          then some (peek (b.controllers id) a)
          else b.mem.words a)
  unfolding snoop
  mem-snoop = mem-react id (line_of addr) b txn before

  pub line_words-snoop : after.line_words ≡ b.line_words
  unfolding snoop
  line_words-snoop = line_words-react id (line_of addr) b txn before

  pub n_cores-snoop : after.n_cores ≡ b.n_cores
  unfolding snoop
  n_cores-snoop = n_cores-react id (line_of addr) b txn before

  pub reply-snoop :
      (snoop txn addr id b).1
      ≡ record { had_copy = not (is_I before); intervened = flushes txn before }
  unfolding snoop
  reply-snoop = reply-react id (line_of addr) b txn before
