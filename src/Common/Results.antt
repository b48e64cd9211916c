-- ===== src/Common/Results.antt =====
-- A call that may throw.
use mathlib.Core.Path.{◌≡◌, refl}
use mathlib.Core.Logic.{◌⊎◌, inl, inr}

pub data Error : Type 0 where
  invalid_argument out_of_range runtime_error : Error

pub data Result {ℓ} (A : Type ℓ) : Type ℓ where
  ok : A → Result A
  err : Error → Result A

-- The rest of a call runs only if what stands before it did not throw.
infixl 5 ◌>>=◌
abbrev pub ◌>>=◌ {ℓ κ} : {A : Type ℓ} {B : Type κ} → Result A → (A → Result B) → Result B
r >>= rest = elim r [ ok value ↦ rest value | err thrown ↦ err thrown ]

pub ok-injective {ℓ} : {A : Type ℓ} {a b : A} → ok a ≡ ok b → a ≡ b
ok-injective h = cc

-- The call returns, with a value of which `P` holds.
abbrev pub Returns {ℓ} : {A : Type ℓ} → Result A → (A → Type 0) → Type 0
Returns (ok a) P = P a
Returns (err e) P = ⊥

pub Returns-bind {ℓ κ} :
    {A : Type ℓ} {B : Type κ} (P : A → Type 0) (Q : B → Type 0) (r : Result A) (f : A → Result B)
    → Returns r P
    → ((a : A) → P a → Returns (f a) Q)
    → Returns (r >>= f) Q
Returns-bind P Q (ok a) f h k = k a h
Returns-bind P Q (err e) f h k = absurd h

pub Returns-map {ℓ} :
    {A : Type ℓ} {P Q : A → Type 0} (r : Result A)
    → ((a : A) → P a → Q a)
    → Returns r P
    → Returns r Q
Returns-map (ok a) k h = k a h
Returns-map (err e) k h = h

pub Returns-ok {ℓ} :
    {A : Type ℓ} {P : A → Type 0} (r : Result A) → Returns r P → (a : A) × (r ≡ ok a) × P a
Returns-ok (ok a) h = (a, refl, h)
Returns-ok (err e) h = absurd h

pub Result-cases {ℓ} :
    {A : Type ℓ} → (r : Result A) → ((a : A) × (r ≡ ok a)) ⊎ ((e : Error) × (r ≡ err e))
Result-cases (ok a) = inl (a, refl)
Result-cases (err e) = inr (e, refl)

-- What is known of every value that a call may return.
pub Returns-and {ℓ} :
    {A : Type ℓ} (P Q : A → Type 0) (r : Result A)
    → Returns r P
    → ((a : A) → r ≡ ok a → Q a)
    → Returns r (λ a. P a × Q a)
Returns-and P Q (ok a) h k = (h, k a refl)
Returns-and P Q (err e) h k = h

pub ok_of_bind {ℓ κ} :
    {A : Type ℓ} {B : Type κ} (r : Result A) (f : A → B) {b : B}
    → (r >>= λ a. ok (f a)) ≡ ok b
    → (a : A) × (f a ≡ b)
ok_of_bind (ok a) f h = (a, ok-injective h)
ok_of_bind (err e) f h = cc
