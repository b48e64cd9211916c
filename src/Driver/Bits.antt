-- ===== src/Driver/Bits.antt =====
-- The bits of a byte.
use mesi_cache_coherence.Common.{
  Bool-cases, beq→eq, inl, inr, ℕ, zero, suc, ◌<◌, ◌≡◌, refl, Bool, true, false, ◌&&◌, ◌==◌, ltb,
  if◌then◌else◌, arith,
}
use mesi_cache_coherence.Driver.{set_bit, get_bit}

-- A test that all numbers below a bound pass, which runs.
every : ℕ → (ℕ → Bool) → Bool
every zero test = true
every (suc bound) test = if test bound then every bound test else false

every_sound :
    (bound : ℕ) (test : ℕ → Bool) (k : ℕ) → every bound test ≡ true → k < bound → test k ≡ true
unfolding every
every_sound zero test k passed small = absurd (omega (arith, small))
every_sound (suc bound) test k passed small = elim (Bool-cases (k == bound)) [
  | inl last ↦ let e : k ≡ bound = beq→eq k bound last in ground (arith, e)
  | inr before ↦ every_sound bound test k (ground (arith, passed)) (ground (arith, small, before))
]

same : Bool → Bool → Bool
same true b = b
same false true = false
same false false = true

same_sound : (a b : Bool) → same a b ≡ true → a ≡ b
unfolding same
same_sound true true h = refl
same_sound true false h = cc
same_sound false true h = cc
same_sound false false h = refl

and_parts : (a b : Bool) → (a && b) ≡ true → (a ≡ true) × (b ≡ true)
and_parts true b h = (refl, h)
and_parts false b h = cc

-- One bit is written: it reads back, the others stay, and the value is a byte.
abbrev written : ℕ → ℕ → ℕ → Bool → Bool
written i j v b =
    same (get_bit (set_bit v i b) j) (if i == j then b else get_bit v j) && ltb (set_bit v i b) 256

abbrev checked : ℕ → ℕ → ℕ → Bool
checked i j v = written i j v true && written i j v false

table : every 8 (λ i. every 8 (λ j. every 256 (λ v. checked i j v))) ≡ true
unfolding every same set_bit get_bit
table = refl

row : (v i j : ℕ) → v < 256 → i < 8 → j < 8 → checked i j v ≡ true
row v i j small li lj =
    every_sound 256 (λ x. checked i j x) v
      (every_sound 8 (λ k. every 256 (λ x. checked i k x)) j
        (every_sound 8 (λ k. every 8 (λ l. every 256 (λ x. checked k l x))) i table li) lj)
      small

entry :
    (v i j : ℕ) (b : Bool)
    → v < 256
    → i < 8
    → j < 8
    → (same (get_bit (set_bit v i b) j) (if i == j then b else get_bit v j) ≡ true)
      × (ltb (set_bit v i b) 256 ≡ true)
entry v i j true small li lj = and_parts _ _ (and_parts _ _ (row v i j small li lj)).0
entry v i j false small li lj = and_parts _ _ (and_parts _ _ (row v i j small li lj)).1

-- A bit that is written reads back; the others stay.
pub get_bit-set_bit :
    (v i j : ℕ) (b : Bool)
    → v < 256
    → i < 8
    → j < 8
    → get_bit (set_bit v i b) j ≡ (if i == j then b else get_bit v j)
get_bit-set_bit v i j b small li lj = same_sound _ _ (entry v i j b small li lj).0

pub set_bit-lt : (v i : ℕ) (b : Bool) → v < 256 → i < 8 → set_bit v i b < 256
set_bit-lt v i b small li = ground (arith, entry v i 0 b small li (omega arith))
