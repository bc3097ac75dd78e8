-- ===== src/Sorting/Merge/Results.antt =====
-- The merge sort of data_structure_and_algorithm/sort/mergesort.c.
use mathlib.Core.Path.{subst}
use code_learning.Base.{
  ℕ, zero, suc, ◌+◌, ◌≤◌, ◌≡◌, refl, sym, ◌∙◌, arith, List, [], ◌∷◌, ◌++◌, Bool, leb, some, length,
  length-append, count-append, Yields, yields, Yields-bind, ◌!◌, get_or,
}
use code_learning.Sorting.{Sorts, IsGapSorted, IsSorted-of_steps}
use code_learning.Sorting.Merge.{msort, mergesort_by, mergesort}
use code_learning.Sorting.Merge.Laws.{msort-Sorted}
use code_learning.Sorting.Merge.Pieces.{Sorted, split}
use code_learning.Sorting.Merge.Lists.{IsAscending, IsOrder}

!-append_right :
    (x y z : List ℕ) (p : ℕ) → length x ≡ length y → length x ≤ p → (x ++ z) ! p ≡ (y ++ z) ! p
unfolding ◌!◌ get_or
!-append_right [] [] z p e le = refl
!-append_right [] (b ∷ y) z p e le = absurd (omega arith)
!-append_right (a ∷ x) [] z p e le = absurd (omega arith)
!-append_right (a ∷ x) (b ∷ y) z zero e le = absurd (omega arith)
!-append_right (a ∷ x) (b ∷ y) z (suc p) e le = !-append_right x y z p (omega arith) (omega arith)

-- neighbours ascend
IsGapSorted-of_ascending : (s post : List ℕ) → IsAscending s → IsGapSorted 1 (length s) (s ++ post)
unfolding ◌!◌ get_or
IsGapSorted-of_ascending [] post h p lt = absurd (omega arith)
IsGapSorted-of_ascending (x ∷ []) post h p lt = absurd (omega arith)
IsGapSorted-of_ascending (x ∷ y ∷ s) post ((le, h), k) zero lt = le
IsGapSorted-of_ascending (x ∷ y ∷ s) post ((le, h), k) (suc p) lt =
    rw (add_one p) (IsGapSorted-of_ascending (y ∷ s) post k p (omega arith))
  where
    add_one : (p : ℕ) → suc p + 1 ≡ suc (p + 1)
    add_one p = omega arith

pub Sorts-of_Sorted :
    (n : ℕ) (a s post : List ℕ) {size : ℕ} {r : List ℕ × List ℕ}
    → a ≡ s ++ post
    → length s ≡ n
    → Sorted [] s post size r
    → Sorts n a (r.0)
Sorts-of_Sorted n a s post {r = r} whole es f =
    rw (whole, f.array)
      (record {
        sorted =
            IsSorted-of_steps n (f.entries ++ post) (
              rw (sym es ∙ sym f.length_same)
                (IsGapSorted-of_ascending f.entries post f.ascending));
        counts =
            λ v. omega (arith, count-append v f.entries post, count-append v s post, f.counts v);
        size = omega (arith, f.length_same, length-append f.entries post, length-append s post);
        rest =
            λ p le. !-append_right f.entries s post p f.length_same (omega (arith, f.length_same));
      })

pub mergesort_by-Sorts :
    (takes_left : ℕ → ℕ → Bool) (base : ℕ → ℕ)
    → IsOrder takes_left
    → ((b : ℕ) → base b ≤ b)
    → (raw a : List ℕ) (n : ℕ) → n ≤ length a
    → length raw ≡ n
    → Yields (Sorts n a) (mergesort_by takes_left base (some raw) a n)
unfolding mergesort_by
mergesort_by-Sorts takes_left base order base-le raw a n fits size =
    let cut = split a n fits in
    let run : Yields (Sorted [] cut.left cut.right (length raw))
        (msort takes_left base (n + 1) a raw 0 n) =
      subst
        (λ x.
          Yields (Sorted [] cut.left cut.right (length raw))
            (msort takes_left base (n + 1) x raw 0 n))
        (sym cut.whole)
        (msort-Sorted takes_left base order base-le (n + 1) [] cut.left cut.right raw 0 n refl
          (omega (arith, cut.size)) (omega (arith, cut.size)) (omega arith)) in
    Yields-bind run (λ r f. yields (Sorts-of_Sorted n a cut.left cut.right cut.whole cut.size f))

-- Where `malloc` gives the temporary array, mergesort ends and sorts the first `n` entries, and
-- leaves the others alone.
pub mergesort-Sorts :
    (raw a : List ℕ) (n : ℕ)
    → n ≤ length a
    → length raw ≡ n
    → Yields (Sorts n a) (mergesort (some raw) a n)
unfolding mergesort
mergesort-Sorts =
    mergesort_by-Sorts leb (λ b. b)
      (record { left_le = λ x y e. ground arith; right_le = λ x y e. ground arith })
      (λ b. omega arith)
