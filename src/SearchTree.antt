-- ===== src/SearchTree.antt =====
-- data_structure_and_algorithm/binary_search_tree/binary_search_tree.c. A pointer to a node is the
-- tree below it, `leaf` is `NULL`. An element is an `int` that is only compared: its place in the
-- order of the `int`s. The fields that the source spells `left` are its `Left`.
pub mod Contents
pub mod Delete
use code_learning.Base.{
  ℕ, Bool, true, false, List, [], ◌∷◌, ◌++◌, ltb, if◌then◌else◌, Run, ok, fault, ◌>>=◌,
}

pub data Tree : Type 0 where
  leaf : Tree
  node : (element : ℕ) (left right : Tree) → Tree

-- `T->Element`
unfoldable pub element : Tree → Run ℕ
element leaf = fault
element (node e l r) = ok e

-- the elements of the nodes in the order in which `free` is called, and the `NULL` returned
unfoldable pub make_empty : Tree → List ℕ × Tree
make_empty leaf = ([], leaf)
make_empty (node e l r) = ((make_empty l).0 ++ ((make_empty r).0 ++ e ∷ []), leaf)

unfoldable pub find : ℕ → Tree → Tree
find x leaf = leaf
find x (node e l r) =
    let left = find x l in
    let right = find x r in if ltb x e then left else if ltb e x then right else node e l r

-- the loop as written, which follows `Right`
unfoldable pub find_min : Tree → Tree
find_min leaf = leaf
find_min (node e l leaf) = node e l leaf
find_min (node e l (node e' l' r')) = find_min (node e' l' r')

-- `T->Left && T->Right`
unfoldable pub both : Tree → Tree → Bool
both leaf r = false
both (node e l r) leaf = false
both (node e l r) (node e' l' r') = true

-- the last branch: the one child, or `NULL`
unfoldable pub splice : Tree → Tree → Tree
splice leaf r = r
splice (node e l r) leaf = node e l r
splice (node e l r) (node e' l' r') = node e l r

unfoldable pub delete : ℕ → Tree → Run Tree
unfolding element both splice find_min
delete x leaf = ok leaf
delete x (node e l r) =
    let left = delete x l >>= λ l'. ok (node e l' r) in
    let right = delete x r >>= λ r'. ok (node e l r') in
    let two = element (find_min r) >>= λ m. delete m r >>= λ r'. ok (node m l r') in
    if ltb x e then left else if ltb e x then right else if both l r then two else ok (splice l r)
