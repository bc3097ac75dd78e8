-- ===== src/Avl.antt =====
-- data_structure_and_algorithm/avl/avltree.c. A pointer is the tree below it, `leaf` is `NULL`; a
-- field of `NULL` is a fault. An element is an `int` that is only compared: its place in the order
-- of the `int`s. The traces that the code prints are left out, but for the printing of elements by
-- the traversals.
pub mod Contents
pub mod Insert
pub mod Insertions
pub mod Sides
pub mod Delete
pub mod Removal
pub mod Rotate
use code_learning.Base.{
  ℕ, ◌+◌, max, Bool, true, false, List, [], ◌∷◌, ◌++◌, ltb, ◌==◌, if◌then◌else◌, Run, ok, fault,
  ◌>>=◌,
}

pub data Tree : Type 0 where
  leaf : Tree
  node : (element : ℕ) (left right : Tree) (height : ℕ) → Tree

unfoldable pub height : Tree → ℕ
height leaf = 0
height (node e l r h) = h

-- what the traversals print
unfoldable pub preorder : Tree → List ℕ
preorder leaf = []
preorder (node e l r h) = e ∷ preorder l ++ preorder r

unfoldable pub inorder : Tree → List ℕ
inorder leaf = []
inorder (node e l r h) = inorder l ++ (e ∷ inorder r)

unfoldable pub postorder : Tree → List ℕ
postorder leaf = []
postorder (node e l r h) = postorder l ++ (postorder r ++ e ∷ [])

unfoldable pub findmin : Tree → Tree
findmin leaf = leaf
findmin (node e leaf r h) = node e leaf r h
findmin (node e (node e' l' r' h') r h) = findmin (node e' l' r' h')

unfoldable pub findmax : Tree → Tree
findmax leaf = leaf
findmax (node e l leaf h) = node e l leaf h
findmax (node e l (node e' l' r' h') h) = findmax (node e' l' r' h')

-- max(height(t->left), height(t->right)) + 1
abbrev pub higher : Tree → Tree → ℕ
higher l r = max (height l) (height r) + 1

-- `t->height = …`
unfoldable pub set_height : Tree → Run Tree
unfolding height
set_height leaf = fault
set_height (node e l r h) = ok (node e l r (higher l r))

unfoldable pub left_left_rotate : Tree → Run Tree
left_left_rotate (node e₂ (node e₁ a b h₁) c h₂) =
    let k₂ = node e₂ b c (higher b c) in ok (node e₁ a k₂ (max (height a) (higher b c) + 1))
left_left_rotate _ = fault

unfoldable pub right_right_rotate : Tree → Run Tree
right_right_rotate (node e₂ a (node e₁ b c h₁) h₂) =
    let k₂ = node e₂ a b (higher a b) in ok (node e₁ k₂ c (max (higher a b) (height c) + 1))
right_right_rotate _ = fault

unfoldable pub left_right_rotate : Tree → Run Tree
unfolding right_right_rotate left_left_rotate
left_right_rotate leaf = fault
left_right_rotate (node e l r h) = right_right_rotate l >>= λ l'. left_left_rotate (node e l' r h)

unfoldable pub right_left_rotate : Tree → Run Tree
unfolding right_right_rotate left_left_rotate
right_left_rotate leaf = fault
right_left_rotate (node e l r h) = left_left_rotate r >>= λ r'. right_right_rotate (node e l r' h)

unfoldable pub element : Tree → Run ℕ
element leaf = fault
element (node e l r h) = ok e

-- after `t->left = insert_node(t->left, x)`
unfoldable pub after_left : ℕ → Tree → Run Tree
unfolding element left_left_rotate left_right_rotate set_height
after_left x leaf = fault
after_left x (node e l r h) =
    (if height l == height r + 2
      then (do
        e' ← element l
        if ltb x e' then left_left_rotate (node e l r h) else left_right_rotate (node e l r h))
      else ok (node e l r h))
    >>= set_height

-- after `t->right = insert_node(t->right, x)`
unfoldable pub after_right : ℕ → Tree → Run Tree
unfolding element right_right_rotate right_left_rotate set_height
after_right x leaf = fault
after_right x (node e l r h) =
    (if height r == height l + 2
      then (do
        e' ← element r
        if ltb e' x then right_right_rotate (node e l r h) else right_left_rotate (node e l r h))
      else ok (node e l r h))
    >>= set_height

-- `memory` says whether `malloc` succeeds; the height of a new node is not set before the last
-- assignment, which overwrites it
unfoldable pub insert_node : (memory : Bool) → Tree → ℕ → Run Tree
unfolding set_height after_left after_right
insert_node memory leaf x = set_height (if memory then node x leaf leaf 0 else leaf)
insert_node memory (node e l r h) x =
    let left = insert_node memory l x >>= λ l'. after_left x (node e l' r h) in
    let right = insert_node memory r x >>= λ r'. after_right x (node e l r' h) in
    if ltb x e then left else if ltb e x then right else set_height (node e l r h)

unfoldable pub find : Tree → ℕ → Tree
find leaf x = leaf
find (node e l r h) x =
    let left = find l x in
    let right = find r x in if ltb x e then left else if ltb e x then right else node e l r h

abbrev pub is_null : Tree → Bool
is_null leaf = true
is_null (node e l r h) = false

-- after `t->left = delete_node(t->left, x)`
unfoldable pub deleted_left : ℕ → Tree → Run Tree
unfolding element right_right_rotate right_left_rotate
deleted_left x leaf = fault
deleted_left x (node e l r h) =
    if height r == height l + 2
    then (do
      e' ← element r
      if ltb x e' then right_left_rotate (node e l r h) else right_right_rotate (node e l r h))
    else ok (node e l r h)

-- after `t->right = delete_node(t->right, x)`
unfoldable pub deleted_right : ℕ → Tree → Run Tree
unfolding element left_left_rotate left_right_rotate
deleted_right x leaf = fault
deleted_right x (node e l r h) =
    if height l == height r + 2
    then (do
      e' ← element l
      if ltb x e' then left_left_rotate (node e l r h) else left_right_rotate (node e l r h))
    else ok (node e l r h)

-- `if (t) t->height = …`
unfoldable pub set_height_if : Tree → Run Tree
unfolding set_height
set_height_if leaf = ok leaf
set_height_if (node e l r h) = set_height (node e l r h)

-- `t->left && t->right`
unfoldable pub both : Tree → Tree → Bool
both l r = if is_null l then false else if is_null r then false else true

unfoldable pub delete_node : Tree → ℕ → Run Tree
unfolding find element findmin deleted_left deleted_right set_height_if both
delete_node leaf x = ok leaf
delete_node (node e l r h) x =
    let left = delete_node l x >>= λ l'. deleted_left x (node e l' r h) in
    let right = delete_node r x >>= λ r'. deleted_right x (node e l r' h) in
    let two = element (findmin r) >>= λ m. delete_node r m >>= λ r'. ok (node m l r' h) in
    let chosen =
      if ltb x e
      then left
      else if ltb e x
      then right
      else if both l r
      then two
      else ok (if is_null l then r else l) in
    if is_null (find (node e l r h) x) then ok (node e l r h) else chosen >>= set_height_if

-- the elements of the nodes in the order in which `free` is called
unfoldable pub destroy : Tree → List ℕ
destroy leaf = []
destroy (node e l r h) =
    (if is_null l then [] else destroy l) ++ ((if is_null r then [] else destroy r) ++ e ∷ [])
