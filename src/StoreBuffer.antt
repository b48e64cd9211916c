-- ===== src/StoreBuffer.antt =====
-- model/tso.hpp: the store buffer of one core, in front of the facade. An operation takes the buffer
-- and the system, and returns both, or the error that the facade throws.
pub mod View
pub mod Commit
pub mod Operations
pub mod Guarantees
pub mod Drains
pub mod Programs
pub mod Reorder
use mesi_cache_coherence.Common.{
  ℕ, zero, suc, ◌+◌, ◌%◌, ◌<◌, true, false, ◌&&◌, List, [], ◌∷◌, ◌++◌, Option, none, some, ℤ, pos,
  negsuc, u64, Result, ok, err, invalid_argument, out_of_range, ◌>>=◌, if◌then◌else◌, ◌==◌, ltb,
  leb, length, reverse, Bool,
}
use mesi_cache_coherence.Perf.{inc_at}
use mesi_cache_coherence.Bus.{RandomEngine}
use mesi_cache_coherence.System.{MesiSystem, validate_core}
use mesi_cache_coherence.System

pub data DrainMode : Type 0 where
  fifo relaxed : DrainMode

pub record SbEntry : Type 0 where
  pub addr : ℕ
  pub val : ℕ

pub record StoreBuffer : Type 0 where
  pub core : ℕ
  pub depth : ℕ
  pub mode : DrainMode
  pub rng : ℕ
  pub buf : List SbEntry
  pub hits : ℕ
  pub drained : ℕ

unfoldable pub checked_depth : ℤ → Result ℕ
checked_depth (negsuc k) = err invalid_argument
checked_depth (pos depth) = if depth == 0 then err invalid_argument else ok depth

-- The loop of `load`, over the buffer from its newest entry.
unfoldable pub find_entry : ℕ → List SbEntry → Option ℕ
find_entry addr [] = none
find_entry addr (e ∷ older) = if e.addr == addr then some e.val else find_entry addr older

-- `buf_[idx]` and the buffer without it.
unfoldable pub take_at : ℕ → SbEntry → List SbEntry → SbEntry × List SbEntry
take_at zero e rest = (e, rest)
take_at (suc i) e [] = (e, [])
take_at (suc i) e (x ∷ rest) = let (taken, left) = take_at i x rest in (taken, e ∷ left)

is_relaxed : DrainMode → Bool
is_relaxed relaxed = true
is_relaxed fifo = false

-- A drained entry goes to coherent memory, and is counted.
unfoldable pub commit :
    ⦃std : RandomEngine⦄ → SbEntry → StoreBuffer → MesiSystem → Result (StoreBuffer × MesiSystem)
commit e sb s = do
  s' ← System.write (pos sb.core) e.addr e.val s
  ok (record sb { drained = u64 (sb.drained + 1) }, s')

-- A cycle of the drain counter, for each entry that a fence drains.
unfoldable pub count_drain : ℕ → MesiSystem → MesiSystem
count_drain core s = record s {
  bus = record s.bus {
    perf = record s.bus.perf { sb_drain_cycles = inc_at s.bus.perf.sb_drain_cycles core };
  };
}

abbrev pub is_nil : List SbEntry → Bool
is_nil [] = true
is_nil (e ∷ rest) = false

-- The next round of a loop, unless this one threw.
abbrev pub and_then {ℓ} : {A : Type ℓ} → Result A → (A → Option (Result A)) → Option (Result A)
and_then (ok a) next = next a
and_then (err thrown) next = some (err thrown)

module _ ⦃std : RandomEngine⦄ where
  -- A null pointer to the system is `none`.
  unfoldable pub create : Option MesiSystem → ℤ → ℤ → DrainMode → ℕ → Result StoreBuffer
  create none core depth mode seed = err invalid_argument
  create (some s) core depth mode seed = do
    c ← validate_core core s
    d ← checked_depth depth
    ok (record {
      core = c;
      depth = d;
      mode = mode;
      rng = std.seeded seed;
      buf = [];
      hits = 0;
      drained = 0;
    })

  -- The index of the entry to drain, and the engine after the draw.
  unfoldable pub drain_index : StoreBuffer → ℕ × ℕ
  unfolding is_relaxed
  drain_index sb =
      let (drawn, g) = std.next sb.rng in
      if is_relaxed sb.mode && ltb 1 (length sb.buf)
      then (drawn % length sb.buf, g)
      else (0, sb.rng)

  -- `drain_one`, with the entries of the buffer at hand.
  unfoldable pub drain_entries :
      List SbEntry → StoreBuffer → MesiSystem → Result (StoreBuffer × MesiSystem)
  drain_entries [] sb s = ok (sb, s)
  drain_entries (e ∷ rest) sb s =
      let (idx, g) = drain_index sb in
      let (taken, left) = take_at idx e rest in commit taken (record sb { buf = left; rng = g }) s

  unfoldable pub drain_one : StoreBuffer → MesiSystem → Result (StoreBuffer × MesiSystem)
  drain_one sb s = drain_entries sb.buf sb s

  unfoldable pub store : ℕ → ℕ → StoreBuffer → MesiSystem → Result (StoreBuffer × MesiSystem)
  store addr val sb s =
      let pushed = record sb { buf = sb.buf ++ record { addr = addr; val = val } ∷ [] } in
      if ltb sb.depth (length pushed.buf) then drain_one pushed s else ok (pushed, s)

  unfoldable pub load : ℕ → StoreBuffer → MesiSystem → Result (StoreBuffer × MesiSystem × ℕ)
  load addr sb s = elim (find_entry addr (reverse sb.buf)) [
    | some v ↦ ok (record sb { hits = u64 (sb.hits + 1) }, s, v)
    | none ↦ do (s', v) ← System.read (pos sb.core) addr s; ok (sb, s', v)
  ]

  -- A round of the loop of `mfence`, which takes the front entry.
  unfoldable pub fence_round :
      SbEntry → List SbEntry → StoreBuffer → MesiSystem → Result (StoreBuffer × MesiSystem)
  fence_round e rest sb s = do
    (sb', s') ← commit e (record sb { buf = rest }) s
    ok (sb', count_drain sb.core s')

  -- The loop, over the entries that are left.
  unfoldable pub fence_entries :
      List SbEntry → StoreBuffer → MesiSystem → Result (StoreBuffer × MesiSystem)
  fence_entries [] sb s = ok (sb, s)
  fence_entries (e ∷ rest) sb s = do (sb', s') ← fence_round e rest sb s; fence_entries rest sb' s'

  unfoldable pub mfence : StoreBuffer → MesiSystem → Result (StoreBuffer × MesiSystem)
  mfence sb s = fence_entries sb.buf sb s

  -- `drain_all`, at most `fuel` rounds; `none` if they do not empty the buffer.
  unfoldable pub drain_rounds :
      ℕ → StoreBuffer → MesiSystem → Option (Result (StoreBuffer × MesiSystem))
  drain_rounds zero sb s = if is_nil sb.buf then some (ok (sb, s)) else none
  drain_rounds (suc fuel) sb s =
      let more = and_then (drain_one sb s) (λ p. drain_rounds fuel p.0 p.1) in
      if is_nil sb.buf then some (ok (sb, s)) else more

  unfoldable pub drain_all : StoreBuffer → MesiSystem → Option (Result (StoreBuffer × MesiSystem))
  drain_all sb s = drain_rounds (length sb.buf) sb s
