-- ===== src/Tests/SearchTrees.antt =====
-- The binary search tree on concrete trees.
use code_learning.Base.{◌<◌, ◌≡◌, refl, [], ◌∷◌, arith, ok, Yields, true, same}
use code_learning.SearchTree.{Tree, leaf, node, make_empty, delete, both}
use code_learning.SearchTree.Contents.{occurs, IsSearch}
use code_learning.SearchTree.Delete.{Removed, delete-Removed, delete-not_IsSearch}

abbrev sample : Tree
sample = node 6 (node 2 leaf leaf) (node 8 (node 7 leaf leaf) (node 9 leaf leaf))

sample-IsSearch : IsSearch sample
unfolding occurs same
sample-IsSearch = (
  λ v p. ground arith,
  λ v p. ground arith,
  (λ v p. absurd (omega arith), λ v p. absurd (omega arith), tt, tt),
  (
    λ v p. ground arith,
    λ v p. ground arith,
    (λ v p. absurd (omega arith), λ v p. absurd (omega arith), tt, tt),
    (λ v p. absurd (omega arith), λ v p. absurd (omega arith), tt, tt),
  ),
)

delete_run : delete 6 sample ≡ ok (node 9 (node 2 leaf leaf) (node 8 (node 7 leaf leaf) leaf))
unfolding delete
delete_run = refl

make_empty_run : make_empty sample ≡ (2 ∷ 7 ∷ 9 ∷ 8 ∷ 6 ∷ [], leaf)
unfolding make_empty
make_empty_run = refl

delete-Removed_example : Yields (Removed 6 sample) (delete 6 sample)
delete-Removed_example = delete-Removed 6 sample sample-IsSearch

abbrev right_part : Tree
right_part = node 8 (node 7 leaf leaf) (node 9 leaf leaf)

holds_two : (0 < occurs 7 right_part) × (0 < occurs 9 right_part)
unfolding occurs same
holds_two = (omega arith, omega arith)

two_children : both (node 2 leaf leaf) right_part ≡ true
unfolding both
two_children = refl

delete-not_IsSearch_example : Yields (λ t. ¬ IsSearch t) (delete 6 sample)
delete-not_IsSearch_example =
    delete-not_IsSearch 6 7 9 (node 2 leaf leaf) right_part sample-IsSearch two_children holds_two.0
      holds_two.1 (omega arith)
