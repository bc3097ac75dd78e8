-- ===== src/SearchTree/Contents.antt =====
-- What a tree holds, and the order of a search tree.
use code_learning.Base.{
  ℕ, ◌+◌, ◌≤◌, ◌<◌, ◌≡◌, refl, arith, [], ◌∷◌, same, ltb, count, count-append, Yields, yields,
  Bool-cases, inl, inr, ltb→lt, ltb→ge,
}
use code_learning.SearchTree.{Tree, leaf, node, make_empty, find, find_min, element}

-- how often a number stands in the tree
unfoldable pub occurs : ℕ → Tree → ℕ
occurs v leaf = 0
occurs v (node e l r) = occurs v l + same v e + occurs v r

-- every element to the left is smaller, every one to the right larger
abbrev pub IsSearch : Tree → Type 0
IsSearch leaf = Unit {0}
IsSearch (node e l r) =
    ((v : ℕ) → 0 < occurs v l → v < e)
    × ((v : ℕ) → 0 < occurs v r → e < v)
    × IsSearch l
    × IsSearch r

same-le : (v e : ℕ) → same v e ≤ 1
unfolding same
same-le v e = ground arith

-- a search tree holds no number twice
pub occurs-le : (v : ℕ) (t : Tree) → IsSearch t → occurs v t ≤ 1
unfolding occurs same
occurs-le v leaf s = omega arith
occurs-le v (node e l r) s = ground (arith, occurs-le v l s.2, occurs-le v r s.3, s.0 v, s.1 v)

-- `MakeEmpty` frees each node once.
make_empty-counts :
    (v : ℕ) (t : Tree) → (count v (make_empty t).0 ≡ occurs v t) × ((make_empty t).1 ≡ leaf)
unfolding make_empty occurs count
make_empty-counts v leaf = (refl, refl)
make_empty-counts v (node e l r) = (
  omega (
    arith,
    count-append v (make_empty l).0 _,
    count-append v (make_empty r).0 (e ∷ []),
    make_empty-counts v l,
    make_empty-counts v r,
  ),
  refl,
)

-- what `Find` returns: a node with the element looked for, or `NULL` where the tree lacks it
abbrev Locates : ℕ → Tree → Tree → Type 0
Locates x t leaf = occurs x t ≡ 0
Locates x t (node e l r) = (e ≡ x) × (0 < occurs x t)

Locates-left :
    (x e : ℕ) (l r p : Tree)
    → IsSearch (node e l r)
    → x < e
    → Locates x l p
    → Locates x (node e l r) p
unfolding occurs same
Locates-left x e l r leaf s lt f = ground (arith, s.1 x)
Locates-left x e l r (node e' l' r') s lt f = (f.0, omega (arith, f.1))

Locates-right :
    (x e : ℕ) (l r p : Tree)
    → IsSearch (node e l r)
    → e < x
    → Locates x r p
    → Locates x (node e l r) p
unfolding occurs same
Locates-right x e l r leaf s lt f = ground (arith, s.0 x)
Locates-right x e l r (node e' l' r') s lt f = (f.0, omega (arith, f.1))

-- `Find` in a search tree returns a node that holds the element, and `NULL` only where the tree
-- does not hold it.
find-Locates : (x : ℕ) (t : Tree) → IsSearch t → Locates x t (find x t)
unfolding find occurs same
find-Locates x leaf s = refl
find-Locates x (node e l r) s = elim (Bool-cases (ltb x e)) [
  | inl lt ↦ rw lt (Locates-left x e l r (find x l) s (ltb→lt x e lt) (find-Locates x l s.2))
  | inr ge ↦ rw ge (elim (Bool-cases (ltb e x)) [
    | inl lt ↦ rw lt (Locates-right x e l r (find x r) s (ltb→lt e x lt) (find-Locates x r s.3))
    | inr le ↦ rw le (here (ltb→ge x e ge) (ltb→ge e x le))
  ])
]
  where
    here : e ≤ x → x ≤ e → Locates x (node e l r) (node e l r)
    here h k = (omega arith, ground arith)

-- the walk of `FindMin` ends in the largest element of a search tree, not in the smallest
abbrev Largest : Tree → Tree → Type 0
Largest t leaf = t ≡ leaf
Largest t (node m l r) = (0 < occurs m t) × ((v : ℕ) → 0 < occurs v t → v ≤ m)

-- `FindMin` of a search tree returns a node with the largest element of the tree, and `NULL` only
-- for the empty tree.
find_min-Largest : (t : Tree) → IsSearch t → Largest t (find_min t)
unfolding find_min occurs same
find_min-Largest leaf s = refl
find_min-Largest (node e l leaf) s = (ground arith, λ v p. ground (arith, s.0 v))
find_min-Largest (node e l (node e' l' r')) s =
    up (find_min (node e' l' r')) (find_min-Largest (node e' l' r') s.3)
  where
    up : (p : Tree) → Largest (node e' l' r') p → Largest (node e l (node e' l' r')) p
    up leaf h = cc
    up (node m a b) h = (omega (arith, h.0), λ v q. ground (arith, h.1 v, h.1 m, s.0 v, s.1 m))

-- the same, as the value that `Delete` reads through the pointer
pub find_min-element :
    (e : ℕ) (l r : Tree)
    → IsSearch (node e l r)
    → Yields
        (λ m. (0 < occurs m (node e l r)) × ((v : ℕ) → 0 < occurs v (node e l r) → v ≤ m))
        (element (find_min (node e l r)))
unfolding element
find_min-element e l r s = read_it (find_min (node e l r)) (find_min-Largest (node e l r) s)
  where
    read_it :
        (p : Tree)
        → Largest (node e l r) p
        → Yields
            (λ m. (0 < occurs m (node e l r)) × ((v : ℕ) → 0 < occurs v (node e l r) → v ≤ m))
            (element p)
    read_it leaf h = cc
    read_it (node m a b) h = yields h
