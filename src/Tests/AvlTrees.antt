-- ===== src/Tests/AvlTrees.antt =====
-- The AVL tree on concrete trees.
use code_learning.Base.{◌≡◌, refl, arith, ok, fault, ◌>>=◌, Yields, true, same}
use code_learning.Avl.{Tree, leaf, node, height, insert_node, delete_node}
use code_learning.Avl.Contents.{occurs, IsSearch, IsBalanced}
use code_learning.Avl.Insert.{insert_node-Inserted}
use code_learning.Avl.Sides.{Inserted}
use code_learning.Avl.Delete.{delete_node-Removed, delete_node-fault}
use code_learning.Avl.Removal.{Ends, Removed}

abbrev sample : Tree
sample = node 4 (node 2 leaf leaf 1) (node 6 leaf (node 8 leaf leaf 1) 2) 3

sample-IsSearch : IsSearch sample
unfolding occurs same
sample-IsSearch = (
  λ v p. ground arith,
  λ v p. ground arith,
  (λ v p. absurd (omega arith), λ v p. absurd (omega arith), tt, tt),
  (
    λ v p. absurd (omega arith),
    λ v p. ground arith,
    tt,
    (λ v p. absurd (omega arith), λ v p. absurd (omega arith), tt, tt),
  ),
)

sample-IsBalanced : IsBalanced sample
unfolding height
sample-IsBalanced = (
  refl,
  omega arith,
  omega arith,
  (refl, omega arith, omega arith, tt, tt),
  (refl, omega arith, omega arith, tt, (refl, omega arith, omega arith, tt, tt)),
)

-- 1, 2, …, 5 in ascending order, with two rotations
insert_run :
    (insert_node true leaf 1 >>= λ a. insert_node true a 2 >>= λ b.
    insert_node true b 3 >>= λ c. insert_node true c 4 >>= λ d. insert_node true d 5)
    ≡ ok (node 2 (node 1 leaf leaf 1) (node 4 (node 3 leaf leaf 1) (node 5 leaf leaf 1) 2) 3)
unfolding insert_node
insert_run = refl

-- a single rotation to the left would restore the balance here
delete_run : delete_node sample 2 ≡ fault
unfolding delete_node
delete_run = refl

insert_node-Inserted_example : Yields (Inserted 9 sample) (insert_node true sample 9)
insert_node-Inserted_example = insert_node-Inserted 9 sample sample-IsSearch sample-IsBalanced

nine_absent : occurs 9 sample ≡ 0
unfolding occurs same
nine_absent = refl

delete_node-Removed_example : Ends (Removed 8 sample) (delete_node sample 8)
delete_node-Removed_example = delete_node-Removed 8 sample sample-IsSearch

delete_node-fault_example : delete_node sample 2 ≡ fault
delete_node-fault_example =
    delete_node-fault 2 4 6 (node 8 leaf leaf 1) 2 3 sample-IsSearch sample-IsBalanced refl
