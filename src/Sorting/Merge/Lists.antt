-- ===== src/Sorting/Merge/Lists.antt =====
-- Merging of lists.
use code_learning.Base.{
  ℕ, ◌+◌, ◌≤◌, ◌≡◌, arith, List, [], ◌∷◌, ◌++◌, Bool, true, false, if◌then◌else◌, length, count,
  Bool-cases, inl, inr,
}

-- `x` is no larger than any of the entries
abbrev pub IsBelow : ℕ → List ℕ → Type 0
IsBelow x [] = Unit
IsBelow x (y ∷ s) = (x ≤ y) × IsBelow x s

abbrev pub IsAscending : List ℕ → Type 0
IsAscending [] = Unit
IsAscending (x ∷ s) = IsBelow x s × IsAscending s

pub IsBelow-trans : (x y : ℕ) (s : List ℕ) → x ≤ y → IsBelow y s → IsBelow x s
IsBelow-trans x y [] le h = tt
IsBelow-trans x y (z ∷ s) le (h, t) = (omega arith, IsBelow-trans x y s le t)

IsBelow-append : (x : ℕ) (s t : List ℕ) → IsBelow x s → IsBelow x t → IsBelow x (s ++ t)
IsBelow-append x [] t h k = k
IsBelow-append x (y ∷ s) t (le, h) k = (le, IsBelow-append x s t h k)

module _ (takes_left : ℕ → ℕ → Bool) where
  unfoldable pub merge_lists : (s t : List ℕ) → List ℕ
  merge_lists [] t = t
  merge_lists (x ∷ s) [] = x ∷ s
  merge_lists (x ∷ s) (y ∷ t) =
      let left = merge_lists s (y ∷ t) in
      let right = merge_lists (x ∷ s) t in if takes_left x y then x ∷ left else y ∷ right

  pub length-merge_lists : (s t : List ℕ) → length (merge_lists s t) ≡ length s + length t
  unfolding merge_lists
  length-merge_lists [] t = omega arith
  length-merge_lists (x ∷ s) [] = omega arith
  length-merge_lists (x ∷ s) (y ∷ t) =
      ground (arith, length-merge_lists s (y ∷ t), length-merge_lists (x ∷ s) t)

  pub count-merge_lists : (v : ℕ) (s t : List ℕ) → count v (merge_lists s t) ≡ count v s + count v t
  unfolding merge_lists count
  count-merge_lists v [] t = omega arith
  count-merge_lists v (x ∷ s) [] = omega arith
  count-merge_lists v (x ∷ s) (y ∷ t) =
      ground (arith, count-merge_lists v s (y ∷ t), count-merge_lists v (x ∷ s) t)

  IsBelow-merge_lists :
      (v : ℕ) (s t : List ℕ) → IsBelow v s → IsBelow v t → IsBelow v (merge_lists s t)
  unfolding merge_lists
  IsBelow-merge_lists v [] t h k = k
  IsBelow-merge_lists v (x ∷ s) [] h k = h
  IsBelow-merge_lists v (x ∷ s) (y ∷ t) (a, h) (b, k) = elim (Bool-cases (takes_left x y)) [
    | inl e ↦ rw e (a, IsBelow-merge_lists v s (y ∷ t) h (b, k))
    | inr e ↦ rw e (b, IsBelow-merge_lists v (x ∷ s) t (a, h) k)
  ]

  -- a test that decides the order of two entries, and for equal ones as it likes
  pub record IsOrder : Type 0 where
    pub left_le : (x y : ℕ) → takes_left x y ≡ true → x ≤ y
    pub right_le : (x y : ℕ) → takes_left x y ≡ false → y ≤ x

  pub IsAscending-merge_lists :
      IsOrder → (s t : List ℕ) → IsAscending s → IsAscending t → IsAscending (merge_lists s t)
  unfolding merge_lists
  IsAscending-merge_lists o [] t h k = k
  IsAscending-merge_lists o (x ∷ s) [] h k = h
  IsAscending-merge_lists o (x ∷ s) (y ∷ t) (a, h) (b, k) = elim (Bool-cases (takes_left x y)) [
    | inl e ↦ rw e (
        let le = o.left_le x y e in
        (
          IsBelow-merge_lists x s (y ∷ t) a (le, IsBelow-trans x y t le b),
          IsAscending-merge_lists o s (y ∷ t) h (b, k),
        ))
    | inr e ↦ rw e (
        let le = o.right_le x y e in
        (
          IsBelow-merge_lists y (x ∷ s) t (le, IsBelow-trans y x s le a) b,
          IsAscending-merge_lists o (x ∷ s) t (a, h) k,
        ))
  ]
