-- ===== src/SearchTree/Delete.antt =====
-- `Delete` from a search tree.
use code_learning.Base.{
  ℕ, ◌+◌, ◌-◌, ◌≤◌, ◌<◌, ◌≡◌, arith, same, ltb, true, false, ge→ltb, Yields, yields, Yields-bind,
  Yields-split,
}
use code_learning.SearchTree.{Tree, leaf, node, delete, both, splice, find_min, element}
use code_learning.SearchTree.Contents.{occurs, IsSearch, occurs-le, find_min-element}

-- one occurrence of `x` is gone, if there was one
abbrev pub Removed : ℕ → Tree → Tree → Type 0
Removed x t t' = (v : ℕ) → occurs v t' ≡ occurs v t - same v x

occurs-splice :
    (v : ℕ) (l r : Tree) → both l r ≡ false → occurs v (splice l r) ≡ occurs v l + occurs v r
unfolding both splice occurs
occurs-splice v leaf r h = omega arith
occurs-splice v (node e l r) leaf h = omega arith
occurs-splice v (node e l r) (node e' l' r') h = cc

-- the element that `Delete` moves up where there are two children
abbrev Moved : Tree → ℕ → Type 0
Moved r m = (0 < occurs m r) × ((v : ℕ) → 0 < occurs v r → v ≤ m)

Moved-up : (l r : Tree) → both l r ≡ true → IsSearch r → Yields (Moved r) (element (find_min r))
unfolding both
Moved-up leaf r h s = cc
Moved-up (node e l r) leaf h s = cc
Moved-up (node e l r) (node e' l' r') h s = find_min-element e' l' r' s

-- `Delete` from a search tree never goes through `NULL`, and removes the element and nothing else.
pub delete-Removed : (x : ℕ) (t : Tree) → IsSearch t → Yields (Removed x t) (delete x t)
unfolding delete occurs same
delete-Removed x leaf s = yields (λ v. omega arith)
delete-Removed x (node e l r) s =
    Yields-split (ltb x e)
      (λ lt.
        Yields-bind (delete-Removed x l s.2)
          λ l' h. yields (λ v. ground (arith, h v, s.1 v, occurs-le v l s.2)))
      (λ ge.
        Yields-split (ltb e x)
          (λ lt.
            Yields-bind (delete-Removed x r s.3)
              λ r' h. yields (λ v. ground (arith, h v, s.0 v, occurs-le v r s.3)))
          (λ le.
            Yields-split (both l r)
              (λ two. Yields-bind (Moved-up l r two s.3) λ m h.
                Yields-bind (delete-Removed m r s.3)
                  λ r' h'. yields (λ v. ground (arith, h' v, h.0, s.0 v, s.1 v)))
              (λ one. yields (λ v. ground (arith, occurs-splice v l r one, s.0 v, s.1 v)))))

-- `Delete` of the root of a search tree whose left subtree is not empty, and whose right subtree
-- holds two elements, returns a tree that is not in search order: it moves the largest element of
-- the right subtree up, not the smallest.
pub delete-not_IsSearch :
    (e y m : ℕ) (l r : Tree)
    → IsSearch (node e l r)
    → both l r ≡ true
    → 0 < occurs y r
    → 0 < occurs m r
    → y < m
    → Yields (λ t. ¬ IsSearch t) (delete e (node e l r))
unfolding delete same
delete-not_IsSearch e y m l r s two hy hm lt =
    rw (ge→ltb e e (omega arith), two)
      (Yields-bind (Moved-up l r two s.3) λ k h.
        Yields-bind (delete-Removed k r s.3)
          λ r' h'. yields (λ s'. ground (arith, s'.1 y, h' y, h.1 m)))
