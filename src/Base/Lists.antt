-- ===== src/Base/Lists.antt =====
-- Arrays as lists under native indices, and how often a number occurs in one.
use Prim.Native.Nat.{ℕ, zero, suc, ◌+◌, ◌<◌, ◌≤◌}
use mathlib.Core.Path.{◌≡◌, refl, ap, ap₂}
use mathlib.Core.List.{List, [], ◌∷◌, ◌++◌}
use native.Mathlib.Omega.{arith}
use code_learning.Base.Tests.{◌==◌, if◌then◌else◌}
use code_learning.Base.Runs.{Run, ok, fault}

module _ {ℓ} {A : Type ℓ} where
  abbrev pub length : List A → ℕ
  length [] = 0
  length (x ∷ xs) = suc (length xs)

  abbrev pub set : List A → ℕ → A → List A
  set [] i v = []
  set (x ∷ xs) zero v = v ∷ xs
  set (x ∷ xs) (suc i) v = x ∷ set xs i v

  pub length-set : (xs : List A) (i : ℕ) (v : A) → length (set xs i v) ≡ length xs
  length-set [] i v = refl
  length-set (x ∷ xs) zero v = refl
  length-set (x ∷ xs) (suc i) v = ap suc (length-set xs i v)

  pub length-append : (xs ys : List A) → length (xs ++ ys) ≡ length xs + length ys
  length-append [] ys = omega arith
  length-append (x ∷ xs) ys = omega (arith, length-append xs ys)

  -- `a[i]` read and written; an index outside the array is a fault
  unfoldable pub read : List A → ℕ → Run A
  read [] i = fault
  read (x ∷ xs) zero = ok x
  read (x ∷ xs) (suc i) = read xs i

  unfoldable pub write : List A → ℕ → A → Run (List A)
  unfolding read
  write xs i v = elim (read xs i) [ ok _ ↦ ok (set xs i v) | _ ↦ fault ]

  unfoldable pub get_or : List A → ℕ → A → A
  get_or [] i d = d
  get_or (x ∷ xs) zero d = x
  get_or (x ∷ xs) (suc i) d = get_or xs i d

  pub read-get_or : (xs : List A) (i : ℕ) (d : A) → i < length xs → read xs i ≡ ok (get_or xs i d)
  unfolding read get_or
  read-get_or [] i d h = absurd (omega arith)
  read-get_or (x ∷ xs) zero d h = refl
  read-get_or (x ∷ xs) (suc i) d h = read-get_or xs i d (omega arith)

  read_past : (xs : List A) (i : ℕ) → length xs ≤ i → read xs i ≡ fault
  unfolding read
  read_past [] i h = refl
  read_past (x ∷ xs) zero h = absurd (omega arith)
  read_past (x ∷ xs) (suc i) h = read_past xs i (omega arith)

  pub write-ok : (xs : List A) (i : ℕ) (v : A) → i < length xs → write xs i v ≡ ok (set xs i v)
  unfolding write
  write-ok [] i v h = absurd (omega arith)
  write-ok (x ∷ xs) i v h = rw (read-get_or (x ∷ xs) i x h, write)

  get_or-set :
      (xs : List A) (i j : ℕ) (v d : A)
      → i < length xs
      → get_or (set xs i v) j d ≡ (if i == j then v else get_or xs j d)
  unfolding get_or
  get_or-set [] i j v d h = absurd (omega arith)
  get_or-set (x ∷ xs) zero zero v d h = refl
  get_or-set (x ∷ xs) (suc i) (suc j) v d h = ground (arith, get_or-set xs i j v d)
  get_or-set (x ∷ xs) i j v d h = ground arith

module _ {ℓ} {A : Type ℓ} where
  pub read-set :
      (xs : List A) (i j : ℕ) (v : A)
      → i < length xs
      → read (set xs i v) j ≡ (if i == j then ok v else read xs j)
  unfolding read
  read-set [] i j v h = absurd (omega arith)
  read-set (x ∷ xs) zero zero v h = refl
  read-set (x ∷ xs) (suc i) (suc j) v h = ground (arith, read-set xs i j v)
  read-set (x ∷ xs) i j v h = ground arith

  pub length_of_read : (xs : List A) (i : ℕ) {v : A} → read xs i ≡ ok v → i < length xs
  unfolding read
  length_of_read [] i h = cc
  length_of_read (x ∷ xs) zero h = omega arith
  length_of_read (x ∷ xs) (suc i) h = omega (arith, length_of_read xs i h)

-- an entry of an array of numbers
infix 80 ◌!◌
unfoldable pub ◌!◌ : List ℕ → ℕ → ℕ
xs ! i = get_or xs i 0

pub read-ok : (xs : List ℕ) (i : ℕ) → i < length xs → read xs i ≡ ok (xs ! i)
unfolding ◌!◌
read-ok xs i h = read-get_or xs i 0 h

pub !-set :
    (xs : List ℕ) (i j v : ℕ) → i < length xs → set xs i v ! j ≡ (if i == j then v else xs ! j)
unfolding ◌!◌
!-set xs i j v h = get_or-set xs i j v 0 h

pub !-set_self : (xs : List ℕ) (i v : ℕ) → i < length xs → set xs i v ! i ≡ v
!-set_self xs i v h = ground (arith, !-set xs i i v h)

-- 1 for equal numbers, 0 for others
unfoldable pub same : ℕ → ℕ → ℕ
same a b = if a == b then 1 else 0

unfoldable pub count : ℕ → List ℕ → ℕ
count v [] = 0
count v (x ∷ xs) = same v x + count v xs

-- the two lists hold the same numbers, each as often
abbrev pub SameCounts : List ℕ → List ℕ → Type 0
SameCounts xs ys = (v : ℕ) → count v xs ≡ count v ys

pub count-append : (v : ℕ) (xs ys : List ℕ) → count v (xs ++ ys) ≡ count v xs + count v ys
unfolding count
count-append v [] ys = omega arith
count-append v (x ∷ xs) ys = omega (arith, count-append v xs ys)

-- a write trades the old entry for the new one
pub count-set :
    (w : ℕ) (xs : List ℕ) (i v : ℕ)
    → i < length xs
    → count w (set xs i v) + same w (xs ! i) ≡ count w xs + same w v
unfolding count ◌!◌ get_or
count-set w [] i v h = absurd (omega arith)
count-set w (x ∷ xs) zero v h = omega arith
count-set w (x ∷ xs) (suc i) v h = omega (arith, count-set w xs i v)

pub list_ext :
    (xs ys : List ℕ) → length xs ≡ length ys → ((i : ℕ) → i < length xs → xs ! i ≡ ys ! i) → xs ≡ ys
unfolding ◌!◌ get_or
list_ext [] [] e h = refl
list_ext [] (y ∷ ys) e h = absurd (omega arith)
list_ext (x ∷ xs) [] e h = absurd (omega arith)
list_ext (x ∷ xs) (y ∷ ys) e h =
    ap₂ ◌∷◌ (h 0 (omega arith)) (list_ext xs ys (omega arith) (λ i lt. h (suc i) (omega arith)))
