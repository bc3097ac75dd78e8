-- ===== src/Clrs/FindSum/Laws.antt =====
-- The search for two entries with a given sum.
use code_learning.Base.{
  ℕ, zero, suc, ◌+◌, ◌-◌, ◌^◌, ◌≤◌, ◌<◌, ◌≡◌, ◌≢◌, ◌⊎◌, count, SameCounts, same, get_or, [], ◌∷◌,
  arith, List, ◌==◌, ltb, false, Option, none, some, ok, ◌>>=◌, read-ok, length, ◌!◌, Yields,
  yields, Yields-bind, Bool-cases, inl, inr,
}
use code_learning.Sorting.{IsSorted, Sorts}
use code_learning.Clrs.MergeSort.{mergesort_clrs-Sorts}
use code_learning.Clrs.FindSum.{plus, find_from, find_sum, sort_and_find}

-- two places, or the same twice, whose entries have the sum `x`, or that there are none
abbrev pub Answers : (n x : ℕ) → List ℕ → Option (ℕ × ℕ) → Type 0
Answers n x a (some (p, q)) = (p ≤ q) × (q < n) × (a ! p + a ! q ≡ x)
Answers n x a none = (p q : ℕ) → p ≤ q → q < n → a ! p + a ! q ≢ x

-- the sum of two entries is an `int`
abbrev HasSums : (n : ℕ) → List ℕ → Type 0
HasSums n a =
    (p q : ℕ) → p ≤ q → q < n → (2 ^ 31 ≤ a ! p + a ! q) × (a ! p + a ! q < 2 ^ 31 + 2 ^ 32)

-- the places that are searched hold every pair
abbrev Inside : (n x : ℕ) → List ℕ → (i j_next : ℕ) → Type 0
Inside n x a i j_next = (p q : ℕ) → p ≤ q → q < n → a ! p + a ! q ≡ x → (i ≤ p) × (q < j_next)

plus-ok : (u v : ℕ) → 2 ^ 31 ≤ u + v → u + v < 2 ^ 31 + 2 ^ 32 → plus u v ≡ ok (u + v)
unfolding plus
plus-ok u v h k = ground arith

Inside-fewer :
    (n x : ℕ) (a : List ℕ) (i j : ℕ)
    → IsSorted n a
    → x < a ! i + a ! j
    → Inside n x a i (suc j)
    → Inside n x a i j
Inside-fewer n x a i j sorted lt inside p q le bound e =
    let (l, r) = inside p q le bound e in
    elim (Bool-cases (ltb q j)) [
      | inl yes_case ↦ (l, ground arith)
      | inr no_case ↦
          absurd (omega (arith, sorted i p l (omega arith), sorted j q (ground arith) bound, e, lt))
    ]

Inside-more :
    (n x : ℕ) (a : List ℕ) (i j : ℕ)
    → IsSorted n a
    → j < n
    → a ! i + a ! j < x
    → Inside n x a i (suc j)
    → Inside n x a (i + 1) (suc j)
Inside-more n x a i j sorted jn lt inside p q le bound e =
    let (l, r) = inside p q le bound e in
    elim (Bool-cases (ltb i p)) [
      | inl yes_case ↦ (ground arith, r)
      | inr no_case ↦ absurd (
          omega
            (arith, sorted p i (ground arith) (omega arith), sorted q j (omega arith) jn, e, lt))
    ]

find_from-Answers :
    (k n x : ℕ) (a : List ℕ) (i j_next : ℕ)
    → n ≤ length a
    → IsSorted n a
    → HasSums n a
    → Inside n x a i j_next
    → j_next ≤ n
    → i ≤ j_next
    → j_next < k + i
    → Yields (Answers n x a) (find_from k a x i j_next)
unfolding find_from
find_from-Answers zero n x a i j_next fits sorted sums inside jn ij lt = absurd (omega arith)
find_from-Answers (suc k) n x a i zero fits sorted sums inside jn ij lt =
    rw (past i) (yields (λ p q le bound e. absurd (omega (arith, inside p q le bound e))))
  where
    past : (i : ℕ) → ltb i 0 ≡ false
    past i = ground arith
find_from-Answers (suc k) n x a i (suc j) fits sorted sums inside jn ij lt =
    elim (Bool-cases (ltb i (suc j))) [
      | inr e ↦
          rw e (yields (λ p q le bound e'. absurd (ground (arith, inside p q le bound e', e))))
      | inl e ↦
          let h = sums i j (ground arith) (omega arith) in
          rw
            (
              e,
              minus_one j,
              read-ok a i (ground arith),
              read-ok a j (omega arith),
              ◌>>=◌,
              plus-ok (a ! i) (a ! j) (h.0) (h.1),
            )
            (elim (Bool-cases (a ! i + a ! j == x)) [
              | inl equal ↦ rw equal (yields (ground arith, omega arith, ground arith))
              | inr other ↦ rw other (elim (Bool-cases (ltb x (a ! i + a ! j))) [
                | inl big ↦ rw big (
                    find_from-Answers k n x a i j fits sorted sums
                      (Inside-fewer n x a i j sorted (ground arith) inside) (omega arith)
                      (ground arith) (omega arith))
                | inr small ↦ rw small (
                    find_from-Answers k n x a (i + 1) (suc j) fits sorted sums
                      (Inside-more n x a i j sorted (omega arith) (ground arith) inside) jn
                      (ground arith) (omega arith))
              ])
            ])
    ]
  where
    minus_one : (j : ℕ) → suc j - 1 ≡ j
    minus_one j = omega arith

find_sum-Answers :
    (n x : ℕ) (a : List ℕ)
    → n ≤ length a
    → IsSorted n a
    → HasSums n a
    → Yields (Answers n x a) (find_sum a n x)
unfolding find_sum
find_sum-Answers n x a fits sorted sums =
    find_from-Answers (n + 1) n x a 0 n fits sorted sums (λ p q le bound e. (omega arith, bound))
      (omega arith) (omega arith) (omega arith)

-- no entry is below -2^30 or above 2^30 - 1
abbrev pub IsBounded : List ℕ → Type 0
IsBounded a = (v : ℕ) → (v < 2 ^ 30) ⊎ (2 ^ 31 + 2 ^ 30 ≤ v) → count v a ≡ 0

count-entry : (a : List ℕ) (i : ℕ) → i < length a → 1 ≤ count (a ! i) a
unfolding count ◌!◌ get_or same
count-entry [] i lt = absurd (omega arith)
count-entry (x ∷ a) zero lt = ground arith
count-entry (x ∷ a) (suc i) lt = ground (arith, count-entry a i)

entry_bounds :
    (a b : List ℕ) (i : ℕ)
    → IsBounded a
    → SameCounts b a
    → i < length b
    → (2 ^ 30 ≤ b ! i) × (b ! i < 2 ^ 31 + 2 ^ 30)
entry_bounds a b i bounded same lt =
    let one = count-entry b i lt in let eq = same (b ! i) in (low one eq, high one eq)
  where
    low : 1 ≤ count (b ! i) b → count (b ! i) b ≡ count (b ! i) a → 2 ^ 30 ≤ b ! i
    low one eq = elim (Bool-cases (ltb (b ! i) (2 ^ 30))) [
      | inl less ↦ absurd (omega (arith, bounded (b ! i) (inl (ground arith))))
      | inr more ↦ ground arith
    ]

    high : 1 ≤ count (b ! i) b → count (b ! i) b ≡ count (b ! i) a → b ! i < 2 ^ 31 + 2 ^ 30
    high one eq = elim (Bool-cases (ltb (b ! i) (2 ^ 31 + 2 ^ 30))) [
      | inl less ↦ ground arith
      | inr more ↦ absurd (omega (arith, bounded (b ! i) (inr (ground arith))))
    ]

Sorts-HasSums : (n : ℕ) (a b : List ℕ) → n ≤ length a → IsBounded a → Sorts n a b → HasSums n b
Sorts-HasSums n a b fits bounded f p q le lt =
    let (l, h) = entry_bounds a b p bounded f.counts (omega (arith, f.size)) in
    let (l', h') = entry_bounds a b q bounded f.counts (omega (arith, f.size)) in
    (omega arith, omega arith)

-- Where `malloc` gives the temporary array and the entries lie from -2^30 to 2^30 - 1, the calls of
-- main sort the array and end, without an overflow, with two places of the sorted array, possibly
-- the same, whose entries have the sum `x`, or with none where there are no such places.
pub sort_and_find-Answers :
    (raw a : List ℕ) (n x : ℕ)
    → n ≤ length a
    → length raw ≡ n
    → IsBounded a
    → Yields (λ r. Sorts n a (r.0) × Answers n x (r.0) (r.1)) (sort_and_find (some raw) a n x)
unfolding sort_and_find
sort_and_find-Answers raw a n x fits size bounded =
    Yields-bind (mergesort_clrs-Sorts raw a n fits size) (λ b f.
      Yields-bind
        (find_sum-Answers n x b (omega (arith, f.size)) f.sorted
          (Sorts-HasSums n a b fits bounded f))
        (λ r g. yields (f, g)))
