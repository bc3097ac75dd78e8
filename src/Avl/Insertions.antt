-- ===== src/Avl/Insertions.antt =====
-- The trees that calls of `insert_node` build from the empty one.
use code_learning.Base.{
  ℕ, ◌+◌, ◌/◌, ◌^◌, ◌≤◌, ◌≡◌, List, [], ◌∷◌, length, count, max, ltb, ◌==◌, if◌then◌else◌, true,
  Run, ok, ◌>>=◌,
}
use code_learning.Avl.{Tree, height, insert_node}
use code_learning.Avl.Contents.{occurs, IsSearch, IsBalanced}

-- `insert_node` for one element after the other
unfoldable pub insert_all : List ℕ → Tree → Run Tree
insert_all [] t = ok t
insert_all (x ∷ xs) t = insert_node true t x >>= insert_all xs

-- the list without one `x`
unfoldable erase : ℕ → List ℕ → List ℕ
erase x [] = []
erase x (y ∷ ys) = let rest = y ∷ erase x ys in if x == y then ys else rest

-- 1 for an element of the list and 0 for another
abbrev pub member : ℕ → List ℕ → ℕ
member v xs = if ltb 0 (count v xs) then 1 else 0

-- an AVL tree with the elements of `t` and of `xs`
record Grown (xs : List ℕ) (t t' : Tree) : Type 0 where
  counts : (v : ℕ) → occurs v t' ≡ max (occurs v t) (member v xs)
  search : IsSearch t'
  balanced : IsBalanced t'

-- what the insertions of `xs` into the empty tree build
pub record Built (xs : List ℕ) (t : Tree) : Type 0 where
  pub counts : (v : ℕ) → occurs v t ≡ member v xs
  pub search : IsSearch t
  pub bound : 2 ^ (height t / 2) ≤ length xs + 1
