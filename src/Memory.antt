-- ===== src/Memory.antt =====
-- model/memory.hpp: the backing memory; a word never written reads as 0.
use mesi_cache_coherence.Common.{ℕ, ◌+◌, none, Map, insert, get_or, u64}

pub record Memory : Type 0 where
  pub accesses : ℕ
  pub words : Map ℕ

abbrev pub init : Memory
init = record { accesses = 0; words = λ _. none }

abbrev pub read : Memory → ℕ → ℕ
read m addr = get_or (m.words addr) 0

abbrev pub write : ℕ → ℕ → Memory → Memory
write addr value m = record m { words = insert m.words addr value }

-- `accesses++`
abbrev pub served : Memory → Memory
served m = record m { accesses = u64 (m.accesses + 1) }
