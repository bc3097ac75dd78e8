-- ===== src/Tests/HeapSorts.antt =====
-- The heapsorts and the quicksort on concrete arrays.
use code_learning.Base.{ℕ, ◌≡◌, refl, List, [], ◌∷◌, arith, ok, fault, read, write, Yields}
use code_learning.Sorting.{Sorts}
use code_learning.Sorting.Heapsort
use code_learning.Sorting.Heapsort.Laws.{heapsort-Sorts}
use code_learning.Clrs.{swap}
use code_learning.Clrs.HeapSort
use code_learning.Clrs.HeapSort.Laws.{heapsort_clrs-Sorts}
use code_learning.Clrs.QuickSort.{
  move_down, move_up, take_right, take_left, partition, quicksort, my_qsort,
}
use code_learning.Clrs.QuickSort.Laws.{my_qsort-Sorts}

abbrev mixed : List ℕ
mixed = 4 ∷ 1 ∷ 5 ∷ 2 ∷ 5 ∷ []

heapsort_run : Heapsort.heapsort mixed 5 ≡ ok (1 ∷ 2 ∷ 4 ∷ 5 ∷ 5 ∷ [])
unfolding Heapsort.heapsort Heapsort.build Heapsort.shrink Heapsort.percdown Heapsort.percolate
    Heapsort.larger_child Heapsort.swap read write
heapsort_run = refl

-- an empty array is read at index 0
heapsort_empty : Heapsort.heapsort [] 0 ≡ fault
unfolding Heapsort.heapsort Heapsort.build Heapsort.shrink Heapsort.percdown Heapsort.percolate
    Heapsort.larger_child Heapsort.swap read write
heapsort_empty = refl

heapsort_clrs_run : HeapSort.heapsort mixed 5 ≡ ok (1 ∷ 2 ∷ 4 ∷ 5 ∷ 5 ∷ [])
unfolding HeapSort.heapsort HeapSort.buildheap HeapSort.build HeapSort.shrink HeapSort.sink
    HeapSort.bigger_child swap read write
heapsort_clrs_run = refl

-- with an entry behind the four that are sorted
my_qsort_run : my_qsort mixed 4 ≡ ok (1 ∷ 2 ∷ 4 ∷ 5 ∷ 5 ∷ [])
unfolding my_qsort quicksort partition move_down move_up take_right take_left read write
my_qsort_run = refl

-- without one: the pivot is the largest entry, and the entry behind the array is read
my_qsort_past : my_qsort (3 ∷ 1 ∷ 2 ∷ []) 3 ≡ fault
unfolding my_qsort quicksort partition move_down move_up take_right take_left read write
my_qsort_past = refl

heapsort-Sorts_example : Yields (Sorts 5 mixed) (Heapsort.heapsort mixed 5)
heapsort-Sorts_example = heapsort-Sorts mixed 5 (omega arith) (omega arith)

heapsort_clrs-Sorts_example : Yields (Sorts 4 mixed) (HeapSort.heapsort mixed 4)
heapsort_clrs-Sorts_example = heapsort_clrs-Sorts mixed 4 (omega arith)

my_qsort-Sorts_example : Yields (Sorts 4 mixed) (my_qsort mixed 4)
my_qsort-Sorts_example = my_qsort-Sorts mixed 4 (omega arith)
