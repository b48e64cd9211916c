-- ===== src/Cache.antt =====
-- model/cache_controller.hpp: the local state of one controller and its accessors.
use mesi_cache_coherence.Common.{
  ℕ, none, Bool, List, [], ◌∷◌, Map, insert, erase, is_some, get_or, if◌then◌else◌,
}
use mesi_cache_coherence.Types.{State, I, is_I}

pub record CacheController : Type 0 where
  pub state : Map State
  pub words : Map ℕ

abbrev pub init : CacheController
init = record { state = λ _. none; words = λ _. none }

abbrev pub line_state : CacheController → ℕ → State
line_state c line = get_or (c.state line) I

abbrev pub has_word : CacheController → ℕ → Bool
has_word c addr = is_some (c.words addr)

abbrev pub peek : CacheController → ℕ → ℕ
peek c addr = get_or (c.words addr) 0

abbrev pub set_state : ℕ → State → CacheController → CacheController
set_state line s c = record c {
  state = if is_I s then erase c.state line else insert c.state line s;
}

abbrev pub put_word : ℕ → ℕ → CacheController → CacheController
put_word addr v c = record c { words = insert c.words addr v }

-- The loop of `drop_line_words` over the registered words of the line.
unfoldable pub drop_words : List ℕ → CacheController → CacheController
drop_words [] c = c
drop_words (a ∷ rest) c = drop_words rest (record c { words = erase c.words a })
