-- ===== src/Clrs/Inversions/Counts.antt =====
-- Inversions of lists: pairs of entries of which the first is the larger.
use code_learning.Base.{
  ℕ, zero, suc, ◌+◌, ◌≤◌, ◌<◌, ◌≡◌, refl, sym, ◌∙◌, arith, List, [], ◌∷◌, ◌++◌, ltb, leb,
  if◌then◌else◌, length, count, same, SameCounts, Bool-cases, inl, inr,
}
use code_learning.Sorting.Merge.Lists.{IsBelow, IsAscending, IsBelow-trans}

-- 1 where the first is the larger, else 0
unfoldable pub inverted : ℕ → ℕ → ℕ
inverted x y = if ltb y x then 1 else 0

-- how many entries are smaller than `x`
unfoldable pub smaller : ℕ → List ℕ → ℕ
smaller x [] = 0
smaller x (y ∷ s) = inverted x y + smaller x s

-- how many entries are larger than `y`
unfoldable larger : ℕ → List ℕ → ℕ
larger y [] = 0
larger y (x ∷ s) = inverted x y + larger y s

-- the inversions of a list
unfoldable pub inversion_count : List ℕ → ℕ
inversion_count [] = 0
inversion_count (x ∷ s) = smaller x s + inversion_count s

-- the pairs of an entry of the first list and a smaller one of the second
unfoldable pub across : (s t : List ℕ) → ℕ
across [] t = 0
across (x ∷ s) t = smaller x t + across s t

pub smaller-nil : (x : ℕ) → smaller x [] ≡ 0
unfolding smaller
smaller-nil x = refl

across-nil : (s : List ℕ) → across s [] ≡ 0
unfolding across smaller
across-nil [] = refl
across-nil (x ∷ s) = omega (arith, across-nil s)

across-cons : (s : List ℕ) (y : ℕ) (t : List ℕ) → across s (y ∷ t) ≡ larger y s + across s t
unfolding across larger smaller
across-cons [] y t = omega arith
across-cons (x ∷ s) y t = omega (arith, across-cons s y t)

smaller-append : (x : ℕ) (s t : List ℕ) → smaller x (s ++ t) ≡ smaller x s + smaller x t
unfolding smaller
smaller-append x [] t = omega arith
smaller-append x (y ∷ s) t = omega (arith, smaller-append x s t)

pub inversion_count-append :
    (s t : List ℕ) → inversion_count (s ++ t) ≡ inversion_count s + inversion_count t + across s t
unfolding inversion_count across
inversion_count-append [] t = omega arith
inversion_count-append (x ∷ s) t = omega (arith, inversion_count-append s t, smaller-append x s t)

-- `smaller` by the counts of the values
counts_below : ℕ → List ℕ → ℕ
counts_below zero s = 0
counts_below (suc x) s = count x s + counts_below x s

counts_below-nil : (x : ℕ) → counts_below x [] ≡ 0
unfolding counts_below count
counts_below-nil zero = refl
counts_below-nil (suc x) = omega (arith, counts_below-nil x)

counts_below-cons :
    (x y : ℕ) (s : List ℕ) → counts_below x (y ∷ s) ≡ inverted x y + counts_below x s
unfolding counts_below count inverted same
counts_below-cons zero y s = ground arith
counts_below-cons (suc x) y s = ground (arith, counts_below-cons x y s)

smaller-counts_below : (x : ℕ) (s : List ℕ) → smaller x s ≡ counts_below x s
unfolding smaller
smaller-counts_below x [] = sym (counts_below-nil x)
smaller-counts_below x (y ∷ s) = omega (arith, smaller-counts_below x s, counts_below-cons x y s)

counts_below-same : (x : ℕ) (s t : List ℕ) → SameCounts s t → counts_below x s ≡ counts_below x t
unfolding counts_below
counts_below-same zero s t h = refl
counts_below-same (suc x) s t h = omega (arith, h x, counts_below-same x s t h)

larger-counts_below : (y : ℕ) (s : List ℕ) → larger y s + counts_below (suc y) s ≡ length s
unfolding larger inverted
larger-counts_below y [] = omega (arith, counts_below-nil (suc y))
larger-counts_below y (x ∷ s) =
    ground (arith, larger-counts_below y s, counts_below-cons (suc y) x s)

smaller-same : (x : ℕ) (s t : List ℕ) → SameCounts s t → smaller x s ≡ smaller x t
smaller-same x s t h =
    smaller-counts_below x s ∙ counts_below-same x s t h ∙ sym (smaller-counts_below x t)

larger-same :
    (y : ℕ) (s t : List ℕ) → length s ≡ length t → SameCounts s t → larger y s ≡ larger y t
larger-same y s t e h =
    omega (arith, larger-counts_below y s, larger-counts_below y t, counts_below-same (suc y) s t h)

across-same_left :
    (s s' t : List ℕ) → length s ≡ length s' → SameCounts s s' → across s t ≡ across s' t
across-same_left s s' [] e h = across-nil s ∙ sym (across-nil s')
across-same_left s s' (y ∷ t) e h = omega (
  arith,
  across-cons s y t,
  across-cons s' y t,
  larger-same y s s' e h,
  across-same_left s s' t e h,
)

across-same_right : (s t t' : List ℕ) → SameCounts t t' → across s t ≡ across s t'
unfolding across
across-same_right [] t t' h = refl
across-same_right (x ∷ s) t t' h = omega (arith, smaller-same x t t' h, across-same_right s t t' h)

-- the order within the lists does not matter
pub across-same :
    (s s' t t' : List ℕ)
    → length s ≡ length s'
    → SameCounts s s'
    → SameCounts t t'
    → across s t ≡ across s' t'
across-same s s' t t' e h k = across-same_left s s' t e h ∙ across-same_right s' t t' k

-- what a merge counts: with each entry of the right half, the left entries that still wait
unfoldable pub passed : (s t : List ℕ) → ℕ
passed [] t = 0
passed (x ∷ s) [] = 0
passed (x ∷ s) (y ∷ t) =
    let left = passed s (y ∷ t) in
    let right = passed (x ∷ s) t in if leb x y then left else length (x ∷ s) + right

smaller-IsBelow : (x y : ℕ) (t : List ℕ) → x ≤ y → IsBelow y t → smaller x t ≡ 0
unfolding smaller inverted
smaller-IsBelow x y [] le h = refl
smaller-IsBelow x y (z ∷ t) le (b, h) = ground (arith, smaller-IsBelow x y t le h)

larger-IsBelow : (x y : ℕ) (s : List ℕ) → y < x → IsBelow x s → larger y s ≡ length s
unfolding larger inverted
larger-IsBelow x y [] lt h = refl
larger-IsBelow x y (z ∷ s) lt (b, h) = ground (arith, larger-IsBelow x y s lt h)

pub passed-across : (s t : List ℕ) → IsAscending s → IsAscending t → passed s t ≡ across s t
unfolding passed across
passed-across [] t h k = refl
passed-across (x ∷ s) [] h k = sym (across-nil (x ∷ s))
passed-across (x ∷ s) (y ∷ t) (a, h) (b, k) = elim (Bool-cases (leb x y)) [
  | inl e ↦ rw e (
      omega (
        arith,
        passed-across s (y ∷ t) h (b, k),
        smaller-IsBelow x x (y ∷ t) (omega arith)
            (ground arith, IsBelow-trans x y t (ground arith) b),
      ))
  | inr e ↦ rw e (
      omega (
        arith,
        passed-across (x ∷ s) t (a, h) k,
        across-cons (x ∷ s) y t,
        larger-IsBelow x y (x ∷ s) (ground arith) (omega arith, a),
      ))
]
