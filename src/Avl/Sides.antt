-- ===== src/Avl/Sides.antt =====
-- The two subtrees of an AVL tree around an insertion.
use code_learning.Base.{
  ℕ, suc, ◌+◌, ◌<◌, ◌≡◌, refl, arith, same, max, inl, inr, ◌⊎◌, Yields, yields,
}
use code_learning.Avl.{Tree, leaf, node, height, set_height}
use code_learning.Avl.Contents.{occurs, IsSearch, IsBalanced, same-eq}
use code_learning.Avl.Rotate.{Restored}

-- where an insertion made the tree higher, its side towards `x` is the higher one
abbrev pub Lean : ℕ → Tree → Tree → Type 0
Lean x t leaf = ⊥
Lean x t (node e l r h) =
    (height t ≡ 0) ⊎ ((x < e) × (height l ≡ height r + 1)) ⊎ ((e < x) × (height r ≡ height l + 1))

pub record Inserted (x : ℕ) (t t' : Tree) : Type 0 where
  pub counts : (v : ℕ) → occurs v t' ≡ max (occurs v t) (same v x)
  pub search : IsSearch t'
  pub balanced : IsBalanced t'
  pub grown : (height t' ≡ height t) ⊎ ((height t' ≡ suc (height t)) × Lean x t t')

-- the node around the subtree in which `x` was inserted, before the heights are looked at
pub counts_left :
    (x e : ℕ) (l l' r : Tree) (h : ℕ)
    → IsSearch (node e l r h)
    → x < e
    → Inserted x l l'
    → (v : ℕ) → occurs v (node e l' r h) ≡ max (occurs v (node e l r h)) (same v x)
unfolding occurs same
counts_left x e l l' r h s lt i v = ground (arith, i.counts v, s.1 v)

pub counts_right :
    (x e : ℕ) (l r r' : Tree) (h : ℕ)
    → IsSearch (node e l r h)
    → e < x
    → Inserted x r r'
    → (v : ℕ) → occurs v (node e l r' h) ≡ max (occurs v (node e l r h)) (same v x)
unfolding occurs same
counts_right x e l r r' h s lt i v = ground (arith, i.counts v, s.0 v)

pub IsSearch-left :
    (x e : ℕ) (l l' r : Tree) (h : ℕ)
    → IsSearch (node e l r h)
    → x < e
    → Inserted x l l'
    → IsSearch (node e l' r h)
unfolding same
IsSearch-left x e l l' r h s lt i = (λ v p. ground (arith, i.counts v, s.0 v), s.1, i.search, s.3)

pub IsSearch-right :
    (x e : ℕ) (l r r' : Tree) (h : ℕ)
    → IsSearch (node e l r h)
    → e < x
    → Inserted x r r'
    → IsSearch (node e l r' h)
unfolding same
IsSearch-right x e l r r' h s lt i = (s.0, λ v p. ground (arith, i.counts v, s.1 v), s.2, i.search)

-- a rotation that restores the height ends the insertion
pub rotated :
    (x k : ℕ) (t u w : Tree)
    → k ≡ height t
    → ((v : ℕ) → occurs v u ≡ max (occurs v t) (same v x))
    → Restored k u w
    → Yields (Inserted x t) (set_height w)
unfolding set_height height occurs
rotated x k t u leaf e' c r =
    let b = r.turned in absurd (omega (arith, b.counts x, c x, same-eq x x refl))
rotated x k t u (node e l r' h) e' c r =
    let b = r.turned in
    let v = r.balanced in
    let same_height = r.height_is in
    yields (record {
      counts = λ w. omega (arith, b.counts w, c w);
      search = b.search;
      balanced = (refl, v.1, v.2, v.3, v.4);
      grown = inl (omega arith);
    })

-- an insertion makes a tree higher by one at most
pub Inserted-height :
    {x : ℕ} {t t' : Tree} → Inserted x t t' → (height t' ≡ height t) ⊎ (height t' ≡ suc (height t))
Inserted-height i = forget i.grown
  where
    forget : {A B C : Type 0} → A ⊎ (B × C) → A ⊎ B
    forget (inl p) = inl p
    forget (inr p) = inr p.0
