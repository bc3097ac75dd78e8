-- ===== src/Clrs/MaxSubarray/Spans.antt =====
-- Sums of subarrays, and what a largest one is.
use code_learning.Base.{
  ℕ, zero, suc, ◌+◌, ◌≤◌, ◌<◌, ◌^◌, ◌≡◌, ap, ◌∙◌, arith, List, length, get_or, read, read-get_or,
  ok, some,
}
use mathlib.Core.Path.{subst}
use native.Mathlib.Decide.{dec_lt}
use code_learning.Base.Int.{ℤ, pos, ◌+ℤ◌, ◌≤ℤ◌, pos_part, neg_part, int_laws, eq_of_parts}
use code_learning.Clrs.MaxSubarray.{Subarr, add}

unfoldable pub entry : List ℤ → ℕ → ℤ
entry arr i = get_or arr i (pos 0)

-- the sum of the `r` entries from `i` on
unfoldable pub span : List ℤ → (i r : ℕ) → ℤ
span arr i zero = pos 0
span arr i (suc r) = span arr i r +ℤ entry arr (i + r)

abbrev pub IsInt : ℤ → Type 0
IsInt x = (pos_part x < 2 ^ 31) × (neg_part x ≤ 2 ^ 31)

-- the array has `n` entries, and no sum of a stretch of them overflows
pub record IsSummable (arr : List ℤ) (n : ℕ) : Type 0 where
  pub fits : n ≤ length arr
  pub in_range : (i r : ℕ) → i + r ≤ n → IsInt (span arr i r)

-- `m` is the sum of the entries from `i` to `i + r`
abbrev pub Attained : (arr : List ℤ) (n : ℕ) (m : ℤ) → Type 0
Attained arr n m = (i : ℕ) × (r : ℕ) × (i + r < n) × (span arr i (suc r) ≡ m)

-- the recorded places have the recorded sum
abbrev pub Attains : (arr : List ℤ) (n : ℕ) (sub : Subarr) → Type 0
Attains arr n sub =
    (i : ℕ) × (r : ℕ) × (i + r < n)
    × (span arr i (suc r) ≡ sub.max)
    × (sub.left ≡ some i)
    × (sub.right ≡ some (i + r))

abbrev pub IsUpper : (arr : List ℤ) (n : ℕ) (m : ℤ) → Type 0
IsUpper arr n m = (i r : ℕ) → i + r < n → span arr i (suc r) ≤ℤ m

-- there is only one largest sum
pub IsUpper-unique :
    (arr : List ℤ) (n : ℕ) (m m' : ℤ)
    → Attained arr n m
    → IsUpper arr n m
    → Attained arr n m'
    → IsUpper arr n m'
    → m ≡ m'
IsUpper-unique arr n m m' (i, r, lt, e) u (i', r', lt', e') u' = eq_of_parts m m' (
    omega
      (arith, u i' r' lt', u' i r lt, ap pos_part e, ap neg_part e, ap pos_part e', ap neg_part e'))

pub add-ok : (x y : ℤ) → IsInt (x +ℤ y) → add x y ≡ ok (x +ℤ y)
unfolding add
add-ok x y (h, k) = ground arith

pub read-entry : (arr : List ℤ) (i : ℕ) → i < length arr → read arr i ≡ ok (entry arr i)
unfolding entry
read-entry arr i h = read-get_or arr i (pos 0) h

pub plus_none : (n : ℕ) → n + 0 ≡ n
plus_none n = omega arith

-- the entry in front
pub span-front : (arr : List ℤ) (i r : ℕ) → span arr i (suc r) ≡ span arr (i + 1) r +ℤ entry arr i
unfolding span
span-front arr i zero = ap (λ j. pos 0 +ℤ entry arr j) (plus_none i)
span-front arr i (suc r) =
    ap (λ x. x +ℤ entry arr (i + suc r)) (span-front arr i r)
    ∙ ap (λ j. (span arr (i + 1) r +ℤ entry arr i) +ℤ entry arr j) (next i r)
    ∙ swap_last (span arr (i + 1) r) (entry arr i) (entry arr (i + 1 + r))
  where
    next : (i r : ℕ) → i + suc r ≡ i + 1 + r
    next i r = omega arith

    swap_last : (x y z : ℤ) → (x +ℤ y) +ℤ z ≡ (x +ℤ z) +ℤ y
    swap_last x y z = eq_of_parts _ _ (omega int_laws)

pub span-append :
    (arr : List ℤ) (i r t : ℕ) → span arr i (r + t) ≡ span arr i r +ℤ span arr (i + r) t
unfolding span
span-append arr i r zero = ap (span arr i) (plus_none r) ∙ eq_of_parts _ _ (omega int_laws)
span-append arr i r (suc t) =
    ap (span arr i) (plus_suc r t)
    ∙ ap (λ x. x +ℤ entry arr (i + (r + t))) (span-append arr i r t)
    ∙ ap (λ j. (span arr i r +ℤ span arr (i + r) t) +ℤ entry arr j) (assoc i r t)
    ∙ regroup (span arr i r) (span arr (i + r) t) (entry arr (i + r + t))
  where
    plus_suc : (r t : ℕ) → r + suc t ≡ suc (r + t)
    plus_suc r t = omega arith

    assoc : (i r t : ℕ) → i + (r + t) ≡ i + r + t
    assoc i r t = omega arith

    regroup : (x y z : ℤ) → (x +ℤ y) +ℤ z ≡ x +ℤ (y +ℤ z)
    regroup x y z = eq_of_parts _ _ (omega int_laws)

-- one more entry behind
pub add-span :
    (arr : List ℤ) (n i r : ℕ)
    → IsSummable arr n
    → i + r < n
    → add (span arr i r) (entry arr (i + r)) ≡ ok (span arr i (suc r))
unfolding span
add-span arr n i r s lt =
    add-ok (span arr i r) (entry arr (i + r)) (s.in_range i (suc r) (omega arith))

pub plus_next : (i c : ℕ) → i + c + 1 ≡ i + suc c
plus_next i c = omega arith

-- all numbers below the next one
pub below_suc : (P : ℕ → Type 0) (c : ℕ) → P c → ((d : ℕ) → d < c → P d) → (d : ℕ) → d < suc c → P d
below_suc P c last earlier d lt = elim (dec_lt d c) [
  | yes h ↦ earlier d h
  | no h ↦ subst P (same d c lt h) last
]
  where
    same : (d c : ℕ) → d < suc c → ¬ (d < c) → c ≡ d
    same d c lt h = omega arith

pub span-one : (arr : List ℤ) (i : ℕ) → span arr i 1 ≡ entry arr i
unfolding span
span-one arr i = ap (λ j. pos 0 +ℤ entry arr j) (plus_none i) ∙ eq_of_parts _ _ (omega int_laws)

pub first_entry : (arr : List ℤ) (n : ℕ) → 0 < n → Attained arr n (entry arr 0)
first_entry arr n h = (0, 0, omega arith, span-one arr 0)
