-- ===== src/Coherence/Effects.antt =====
-- What the loops over the words of a line, a registration and one snoop change, entry by entry.
use mesi_cache_coherence.Common.{
  ℕ, ◌≡◌, refl, true, ◌&&◌, List, [], ◌∷◌, none, some, arith, if◌then◌else◌, ◌==◌, contains, erase,
}
use mesi_cache_coherence.Types.{line_of}
use mesi_cache_coherence.Memory.{Memory}
use mesi_cache_coherence.Memory
use mesi_cache_coherence.Cache.{CacheController, has_word, peek, put_word, drop_words}
use mesi_cache_coherence.Bus.{SnoopingBus, words_in_line, add_word, register_addr}
use mesi_cache_coherence.Controller.{fill_words, store_words}

pub contains-add_word :
    (x a : ℕ) (ws : List ℕ) → contains x (add_word a ws) ≡ (if x == a then true else contains x ws)
unfolding add_word contains
contains-add_word x a ws = ground arith

pub words-register_addr :
    (addr x l : ℕ) (b : SnoopingBus)
    → contains x (words_in_line (register_addr addr b) l)
      ≡ (if l == line_of addr && x == addr then true else contains x (words_in_line b l))
unfolding register_addr
words-register_addr addr x l b = ground (arith, contains-add_word x addr (words_in_line b l))

pub words-fill_words :
    (a : ℕ) (m : Memory) (ws : List ℕ) (c : CacheController)
    → (fill_words m ws c).words a ≡ (if contains a ws then some (Memory.read m a) else c.words a)
unfolding fill_words contains
words-fill_words a m [] c = refl
words-fill_words a m (x ∷ rest) c =
    ground (arith, words-fill_words a m rest (put_word x (Memory.read m x) c))

pub state-fill_words :
    (m : Memory) (ws : List ℕ) (c : CacheController) → (fill_words m ws c).state ≡ c.state
unfolding fill_words
state-fill_words m [] c = refl
state-fill_words m (x ∷ rest) c = state-fill_words m rest _

pub words-store_words :
    (a : ℕ) (c : CacheController) (ws : List ℕ) (m : Memory)
    → (store_words c ws m).words a
      ≡ (if contains a ws && has_word c a then some (peek c a) else m.words a)
unfolding store_words contains
words-store_words a c [] m = refl
words-store_words a c (x ∷ rest) m =
    ground
      (arith, words-store_words a c rest (if has_word c x then Memory.write x (peek c x) m else m))

pub words-drop_words :
    (a : ℕ) (ws : List ℕ) (c : CacheController)
    → (drop_words ws c).words a ≡ (if contains a ws then none else c.words a)
unfolding drop_words contains
words-drop_words a [] c = refl
words-drop_words a (x ∷ rest) c =
    ground (arith, words-drop_words a rest (record c { words = erase c.words x }))

pub state-drop_words : (ws : List ℕ) (c : CacheController) → (drop_words ws c).state ≡ c.state
unfolding drop_words
state-drop_words [] c = refl
state-drop_words (x ∷ rest) c = state-drop_words rest _
