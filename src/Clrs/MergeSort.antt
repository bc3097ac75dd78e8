-- ===== src/Clrs/MergeSort.antt =====
-- The merge sort of clrs/sorting.c: the loops of data_structure_and_algorithm/sort/mergesort.c, but
-- the left entry is taken only if it is smaller, and the temporary array is written from its start.
use code_learning.Base.{
  ℕ, ◌+◌, ◌≤◌, ◌≡◌, arith, List, ltb, length, Option, none, some, Run, ok, ◌>>=◌, Yields,
}
use code_learning.Sorting.{Sorts}
use code_learning.Sorting.Merge
use code_learning.Sorting.Merge.Results.{mergesort_by-Sorts}

-- `ti`, from 0
unfoldable pub merge : (a tmpa : List ℕ) → (b mid e : ℕ) → Run (List ℕ × List ℕ)
merge = Merge.merge ltb (λ b. 0)

unfoldable pub msort : ℕ → (a tmpa : List ℕ) → (b e : ℕ) → Run (List ℕ × List ℕ)
msort = Merge.msort ltb (λ b. 0)

unfoldable pub mergesort : (memory : Option (List ℕ)) → List ℕ → (n : ℕ) → Run (List ℕ)
mergesort none a n = ok a
mergesort (some tmpa) a n = msort (n + 1) a tmpa 0 n >>= λ (sorted, t). ok sorted

-- Where `malloc` gives the temporary array, mergesort ends and sorts the first `n` entries, and
-- leaves the others alone.
pub mergesort_clrs-Sorts :
    (raw a : List ℕ) (n : ℕ)
    → n ≤ length a
    → length raw ≡ n
    → Yields (Sorts n a) (mergesort (some raw) a n)
unfolding mergesort msort Merge.mergesort_by
mergesort_clrs-Sorts =
    mergesort_by-Sorts ltb (λ b. 0)
      (record { left_le = λ x y e. ground arith; right_le = λ x y e. ground arith })
      (λ b. omega arith)
