-- ===== src/Common/Tally.antt =====
-- How many of the first `n` satisfy a test.
use Prim.Native.Nat.{ℕ, zero, suc, ◌+◌, ◌*◌, ◌≤◌, ◌<◌}
use mathlib.Core.Path.{◌≡◌, refl}
use mathlib.Core.Logic.{◌≢◌, inl, inr}
use mathlib.Core.Bool.{Bool, true, false}
use native.Mathlib.Omega.{arith}
use mesi_cache_coherence.Common.Tests.{◌==◌, if◌then◌else◌, Bool-cases}

unfoldable pub tally : ℕ → (ℕ → Bool) → ℕ
tally zero f = 0
tally (suc k) f = (if f k then 1 else 0) + tally k f

pub tally-le : (n : ℕ) (f : ℕ → Bool) → tally n f ≤ n
unfolding tally
tally-le zero f = omega arith
tally-le (suc k) f = ground (arith, tally-le k f)

-- Tests that agree below `n`.
pub tally-same : (n : ℕ) (f g : ℕ → Bool) → ((i : ℕ) → i < n → f i ≡ g i) → tally n f ≡ tally n g
unfolding tally
tally-same zero f g h = refl
tally-same (suc k) f g h =
    ground (arith, h k (omega arith), tally-same k f g (λ i lt. h i (omega arith)))

-- One of them changes.
pub tally-change :
    (n : ℕ) (f g : ℕ → Bool) (c : ℕ)
    → c < n
    → ((i : ℕ) → i ≢ c → f i ≡ g i)
    → tally n g + (if f c then 1 else 0) ≡ tally n f + (if g c then 1 else 0)
unfolding tally
tally-change zero f g c lt h = absurd (omega (arith, lt))
tally-change (suc k) f g c lt h = elim (Bool-cases (c == k)) [
  | inl last ↦
      let below : tally k f ≡ tally k g = tally-same k f g (λ i small. h i (λ e. ground arith)) in
      ground (arith, below)
  | inr before ↦
      let rest = tally-change k f g c (ground arith) h in
      ground (arith, rest, h k (λ e. ground arith))
]

pub tally_none : (n : ℕ) (f : ℕ → Bool) → ((i : ℕ) → i < n → f i ≡ false) → tally n f ≡ 0
unfolding tally
tally_none zero f h = refl
tally_none (suc k) f h =
    ground (arith, h k (omega arith), tally_none k f (λ i lt. h i (omega arith)))

pub tally_some : (n : ℕ) (f : ℕ → Bool) (i : ℕ) → i < n → f i ≡ true → 0 < tally n f
unfolding tally
tally_some zero f i lt h = absurd (omega (arith, lt))
tally_some (suc k) f i lt h = elim (Bool-cases (i == k)) [
  | inl last ↦ ground arith
  | inr before ↦ ground (arith, tally_some k f i (ground arith) h)
]

-- One that fails the test is not counted, nor are two.
pub tally_one_out : (n : ℕ) (f : ℕ → Bool) (i : ℕ) → i < n → f i ≡ false → tally n f < n
unfolding tally
tally_one_out zero f i lt h = absurd (omega (arith, lt))
tally_one_out (suc k) f i lt h = elim (Bool-cases (i == k)) [
  | inl last ↦ ground (arith, tally-le k f)
  | inr before ↦ ground (arith, tally_one_out k f i (ground arith) h)
]

pub tally_two_out :
    (n : ℕ) (f : ℕ → Bool) (i j : ℕ)
    → i < n
    → j < n
    → i ≢ j
    → f i ≡ false
    → f j ≡ false
    → tally n f + 1 < n
unfolding tally
tally_two_out zero f i j li lj d hi hj = absurd (omega (arith, li))
tally_two_out (suc k) f i j li lj d hi hj = elim (Bool-cases (i == k)) [
  | inl last ↦ ground (arith, tally_one_out k f j (ground arith) hj)
  | inr before ↦ elim (Bool-cases (j == k)) [
    | inl last ↦ ground (arith, tally_one_out k f i (ground arith) hi)
    | inr too ↦ ground (arith, tally_two_out k f i j (ground arith) (ground arith) d hi hj)
  ]
]

-- The sum of the first `n`.
unfoldable pub total : ℕ → (ℕ → ℕ) → ℕ
total zero f = 0
total (suc k) f = f k + total k f

pub total-same : (n : ℕ) (f g : ℕ → ℕ) → ((i : ℕ) → i < n → f i ≡ g i) → total n f ≡ total n g
unfolding total
total-same zero f g h = refl
total-same (suc k) f g h =
    omega (arith, h k (omega arith), total-same k f g (λ i lt. h i (omega (arith, lt))))

-- One of them changes.
pub total-change :
    (n : ℕ) (f g : ℕ → ℕ) (c : ℕ)
    → c < n
    → ((i : ℕ) → i ≢ c → f i ≡ g i)
    → total n g + f c ≡ total n f + g c
unfolding total
total-change zero f g c lt h = absurd (omega (arith, lt))
total-change (suc k) f g c lt h = elim (Bool-cases (c == k)) [
  | inl last ↦
      let below : total k f ≡ total k g = total-same k f g (λ i small. h i (λ e. ground arith)) in
      ground (arith, below)
  | inr before ↦
      let rest = total-change k f g c (ground arith) h in
      ground (arith, rest, h k (λ e. ground arith))
]

pub total_const : (n k : ℕ) → total n (λ _. k) ≡ n * k
unfolding total
total_const zero k = omega arith
total_const (suc n) k = omega (arith, total_const n k)
