-- ===== src/Base/Runs.antt =====
-- How a piece of C ends, and the rules for runs that end well.
use mathlib.Core.Path.{◌≡◌, refl, subst}
use mathlib.Core.Bool.{Bool, true, false}
use code_learning.Base.Tests.{if◌then◌else◌}

-- a value, an access that C leaves undefined (through `NULL` or outside an array), or the end of
-- the model's fuel
pub data Run {ℓ} (A : Type ℓ) : Type ℓ where
  ok : A → Run A
  fault : Run A
  out_of_fuel : Run A

infixl 5 ◌>>=◌
abbrev pub ◌>>=◌ {ℓ κ} : {A : Type ℓ} {B : Type κ} → Run A → (A → Run B) → Run B
ok a >>= f = f a
fault >>= f = fault
out_of_fuel >>= f = out_of_fuel

-- total correctness: the run ends with a value, and `P` holds of it
pub data Yields {ℓ κ} {A : Type ℓ} (P : A → Type κ) : Run A → Type (ℓ ⊔ κ) where
  yields : {a : A} → P a → Yields P (ok a)

module _ {ℓ κ} {A : Type ℓ} {P : A → Type κ} where
  pub Yields-bind {ℓ' κ'} :
      {B : Type ℓ'} {Q : B → Type κ'} {m : Run A} {f : A → Run B}
      → Yields P m
      → ((a : A) → P a → Yields Q (f a))
      → Yields Q (m >>= f)
  Yields-bind (yields p) next = next _ p

  pub Yields-weaken {κ'} :
      {Q : A → Type κ'} {m : Run A} → Yields P m → ((a : A) → P a → Q a) → Yields Q m
  Yields-weaken (yields p) weaken = yields (weaken _ p)

  pub Yields-split :
      (b : Bool) {m n : Run A}
      → (b ≡ true → Yields P m)
      → (b ≡ false → Yields P n)
      → Yields P (if b then m else n)
  Yields-split true yes_case no_case = yes_case refl
  Yields-split false yes_case no_case = no_case refl

  pub Yields-value : {m : Run A} → Yields P m → (a : A) × (m ≡ ok a) × P a
  Yields-value (yields p) = (_, refl, p)

-- `P` holds of the value, where the run gives one
pub data Gives {ℓ κ} {A : Type ℓ} (P : A → Type κ) : Run A → Type (ℓ ⊔ κ) where
  gives : {a : A} → P a → Gives P (ok a)
  faults : Gives P fault
  unfinished : Gives P out_of_fuel

module _ {ℓ κ} {A : Type ℓ} {P : A → Type κ} where
  pub Gives-bind {ℓ' κ'} :
      {B : Type ℓ'} {Q : B → Type κ'} {m : Run A} {f : A → Run B}
      → Gives P m
      → ((a : A) → P a → Gives Q (f a))
      → Gives Q (m >>= f)
  Gives-bind (gives p) next = next _ p
  Gives-bind faults next = faults
  Gives-bind unfinished next = unfinished

  pub Gives-if : (b : Bool) {m n : Run A} → Gives P m → Gives P n → Gives P (if b then m else n)
  Gives-if true p q = p
  Gives-if false p q = q

-- whatever the value was
pub Gives-after {ℓ ℓ' κ'} :
    {A : Type ℓ} {B : Type ℓ'} {Q : B → Type κ'} (m : Run A) {f : A → Run B}
    → ((a : A) → Gives Q (f a))
    → Gives Q (m >>= f)
Gives-after (ok a) next = next a
Gives-after fault next = faults
Gives-after out_of_fuel next = unfinished

pub Gives-at : {A : Type 0} {P : A → Type 0} {m : Run A} {a : A} → Gives P m → m ≡ ok a → P a
Gives-at {P = P} (gives p) e = subst P (ok_injective e) p
  where
    ok_injective : {A : Type 0} {a b : A} → ok a ≡ ok b → a ≡ b
    ok_injective e = cc
Gives-at faults e = absurd cc
Gives-at unfinished e = absurd cc
