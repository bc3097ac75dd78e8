-- ===== src/Tests/Sorts.antt =====
-- The sorts on concrete arrays.
use code_learning.Base.{
  ℕ, ◌≡◌, refl, List, [], ◌∷◌, ◌+◌, arith, some, none, ok, fault, inl, inr, count, same, read,
  write, Yields,
}
use code_learning.Sorting.{Sorts}
use code_learning.Sorting.Shell.{shellsort}
use code_learning.Sorting.Shell.Pass.{shellsort-Sorts}
use code_learning.Sorting.Insertion.{insertion_sort}
use code_learning.Clrs.Bubble.{bubblesort}
use code_learning.Clrs.Select.{selectsort}
use code_learning.Clrs.Shell.{insertsort, shellsort_clrs, insertsort-shellsort_clrs}
use code_learning.Sorting.Merge
use code_learning.Sorting.Merge.Results.{mergesort-Sorts}
use code_learning.Clrs.MergeSort
use code_learning.Clrs.MergeSort.{mergesort_clrs-Sorts}
use code_learning.Clrs.FindSum.{plus, find_from, find_sum, sort_and_find}
use code_learning.Clrs.FindSum.Laws.{Answers, IsBounded, sort_and_find-Answers}
use code_learning.Clrs.Inversions
use code_learning.Clrs.Inversions.{inverse_pairs}
use code_learning.Clrs.Inversions.Counts.{inversion_count, smaller, inverted}
use code_learning.Clrs.Inversions.Results.{inverse_pairs-counts}

abbrev sample : List ℕ
sample = 34 ∷ 8 ∷ 64 ∷ 51 ∷ 32 ∷ 21 ∷ []

abbrev sorted_sample : List ℕ
sorted_sample = 8 ∷ 21 ∷ 32 ∷ 34 ∷ 51 ∷ 64 ∷ []

shellsort_run : shellsort sample 6 ≡ ok sorted_sample
unfolding shellsort
shellsort_run = refl

insertion_sort_run : insertion_sort sample 6 ≡ ok sorted_sample
unfolding insertion_sort
insertion_sort_run = refl

bubblesort_run : bubblesort sample 6 ≡ ok sorted_sample
unfolding bubblesort
bubblesort_run = refl

selectsort_run : selectsort sample 6 ≡ ok sorted_sample
unfolding selectsort
selectsort_run = refl

shellsort-Sorts_example : Yields (Sorts 5 sample) (shellsort sample 5)
shellsort-Sorts_example = shellsort-Sorts sample 5 (omega arith)

insertsort-shellsort_clrs_example :
    (insertsort sample 6 ≡ insertion_sort sample 6)
    × (shellsort_clrs sample 6 ≡ shellsort sample 6)
    × Yields (Sorts 6 sample) (insertsort sample 6)
    × Yields (Sorts 6 sample) (shellsort_clrs sample 6)
insertsort-shellsort_clrs_example = insertsort-shellsort_clrs sample 6 (omega arith)

abbrev raw_memory : List ℕ
raw_memory = 0 ∷ 0 ∷ 0 ∷ 0 ∷ 0 ∷ 0 ∷ []

mergesort_run : Merge.mergesort (some raw_memory) sample 6 ≡ ok sorted_sample
unfolding Merge.mergesort Merge.mergesort_by Merge.msort Merge.merge Merge.merge_loop Merge.copy
    read write
mergesort_run = refl

mergesort_clrs_run : MergeSort.mergesort (some raw_memory) sample 6 ≡ ok sorted_sample
unfolding MergeSort.mergesort MergeSort.msort Merge.msort Merge.merge Merge.merge_loop Merge.copy
    read write
mergesort_clrs_run = refl

mergesort-Sorts_example : Yields (Sorts 6 sample) (Merge.mergesort (some raw_memory) sample 6)
mergesort-Sorts_example = mergesort-Sorts raw_memory sample 6 (omega arith) refl

-- the array of the program's `main`
abbrev inverted_sample : List ℕ
inverted_sample = 3 ∷ 2 ∷ 8 ∷ 6 ∷ 1 ∷ 5 ∷ 7 ∷ 10 ∷ 5 ∷ []

abbrev nine_cells : List ℕ
nine_cells = 0 ∷ 0 ∷ 0 ∷ raw_memory

inverse_pairs_run :
    inverse_pairs (some nine_cells) inverted_sample 9 0
    ≡ ok (1 ∷ 2 ∷ 3 ∷ 5 ∷ 5 ∷ 6 ∷ 7 ∷ 8 ∷ 10 ∷ [], 13)
unfolding inverse_pairs Inversions.inversions Inversions.merge Inversions.count_loop
    Inversions.raise Merge.copy read write
inverse_pairs_run = refl

-- without memory, the first entry that is written goes through `NULL`
inverse_pairs_null : inverse_pairs none (2 ∷ 1 ∷ []) 2 0 ≡ fault
unfolding inverse_pairs Inversions.inversions Inversions.merge Inversions.count_loop
    Inversions.raise Merge.copy read write
inverse_pairs_null = refl

inverse_pairs-counts_example :
    Yields
      (λ r. Sorts 9 inverted_sample (r.0) × (r.1 ≡ 0 + inversion_count inverted_sample))
      (inverse_pairs (some nine_cells) inverted_sample 9 0)
unfolding inversion_count smaller inverted
inverse_pairs-counts_example =
    inverse_pairs-counts nine_cells inverted_sample [] 0 refl (omega arith)

-- The array of 02.3.7.c's `main`, as codes: 2^31 and each value. 10 is 5 and 5, one entry taken
-- twice.
abbrev codes : List ℕ
codes = 2147483668 ∷ 2147483653 ∷ 2147483661 ∷ []

abbrev sorted_codes : List ℕ
sorted_codes = 2147483653 ∷ 2147483661 ∷ 2147483668 ∷ []

abbrev three_cells : List ℕ
three_cells = 0 ∷ 0 ∷ 0 ∷ []

find_sum_run : find_sum sorted_codes 3 4294967329 ≡ ok (some (1, 2))
unfolding find_sum find_from plus read
find_sum_run = refl

find_sum_twice : find_sum sorted_codes 3 4294967306 ≡ ok (some (0, 0))
unfolding find_sum find_from plus read
find_sum_twice = refl

codes-IsBounded : IsBounded codes
unfolding count same
codes-IsBounded v (inl less) = ground arith
codes-IsBounded v (inr more) = ground arith

sort_and_find-Answers_example :
    Yields
      (λ r. Sorts 3 codes (r.0) × Answers 3 4294967329 (r.0) (r.1))
      (sort_and_find (some three_cells) codes 3 4294967329)
sort_and_find-Answers_example =
    sort_and_find-Answers three_cells codes 3 4294967329 (omega arith) refl codes-IsBounded
