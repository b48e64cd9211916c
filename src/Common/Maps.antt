-- ===== src/Common/Maps.antt =====
-- `std::unordered_map` as the function of its lookups, and vectors indexed by core as families.
use Prim.Native.Nat.{ℕ}
use mathlib.Core.Bool.{Bool, true, false}
use mathlib.Core.Option.{Option, none, some}
use mesi_cache_coherence.Common.Tests.{◌==◌, if◌then◌else◌}

abbrev pub Map : Type 0 → Type 0
Map V = ℕ → Option V

-- `v[i] = a`
abbrev pub update {ℓ} : {A : Type ℓ} → (ℕ → A) → ℕ → A → ℕ → A
update f i a j = if j == i then a else f j

-- `m.count(k) != 0`
abbrev pub is_some {ℓ} : {A : Type ℓ} → Option A → Bool
is_some none = false
is_some (some a) = true

-- `it == m.end() ? d : it->second`
abbrev pub get_or {ℓ} : {A : Type ℓ} → Option A → A → A
get_or none d = d
get_or (some a) d = a

module _ {V : Type 0} where
  abbrev pub insert : Map V → ℕ → V → Map V
  insert m k v j = if j == k then some v else m j

  abbrev pub erase : Map V → ℕ → Map V
  erase m k j = if j == k then none else m j
