-- ===== src/Tests/LeftistHeaps.antt =====
-- The leftist heap on concrete heaps, with the two helpers that the file leaves out.
use code_learning.Base.{◌≡◌, refl, arith, Bool, true, false, ok, Yields, same}
use code_learning.LeftistHeap.{Heap, empty, node, Externals, merge}
use code_learning.LeftistHeap.Contents.{occurs, rank}
use code_learning.LeftistHeap.Merge.{IsValid, Merged, merge-Merged}

abbrev swap_children : Heap → Heap
swap_children empty = empty
swap_children (node e l r n) = node e r l n

abbrev is_empty : Heap → Bool
is_empty empty = true
is_empty (node e l r n) = false

abbrev helpers : Externals
helpers = record {
  swapchildren = swap_children;
  isempty = is_empty;
  swapchildren_swaps = λ e l r n. refl;
  isempty_empty = refl;
  isempty_node = λ e l r n. refl;
}

abbrev sample : Heap
sample = node 3 (node 10 empty empty 0) (node 8 empty empty 0) 1

abbrev other : Heap
other = node 6 (node 12 empty empty 0) empty 0

sample-IsValid : IsValid sample
unfolding occurs rank same
sample-IsValid = record {
  heap = (
    λ v p. ground arith,
    λ v p. ground arith,
    (λ v p. absurd (omega arith), λ v p. absurd (omega arith), tt, tt),
    (λ v p. absurd (omega arith), λ v p. absurd (omega arith), tt, tt),
  );
  leftist = (refl, omega arith, (refl, omega arith, tt, tt), (refl, omega arith, tt, tt));
}

other-IsValid : IsValid other
unfolding occurs rank same
other-IsValid = record {
  heap = (
    λ v p. ground arith,
    λ v p. absurd (omega arith),
    (λ v p. absurd (omega arith), λ v p. absurd (omega arith), tt, tt),
    tt,
  );
  leftist = (refl, omega arith, (refl, omega arith, tt, tt), tt);
}

merge_run :
    merge helpers sample other
    ≡ ok
        (node 3 (node 6 (node 12 empty empty 0) (node 8 empty empty 0) 1) (node 10 empty empty 0) 1)
unfolding merge
merge_run = refl

merge-Merged_example : Yields (Merged sample other) (merge helpers sample other)
merge-Merged_example = merge-Merged helpers sample other sample-IsValid other-IsValid
