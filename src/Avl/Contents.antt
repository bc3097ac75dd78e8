-- ===== src/Avl/Contents.antt =====
-- What an AVL tree holds, its order and its balance.
use code_learning.Base.{
  ℕ, zero, suc, ◌+◌, ◌*◌, ◌/◌, ◌^◌, ◌≤◌, ◌<◌, ◌≡◌, refl, arith, [], ◌∷◌, same, count, count-append,
  length, length-append, ltb, Bool-cases, inl, inr, ltb→lt, ltb→ge, ap, if◌then◌else◌,
}
use native.Mathlib.Nat.{two-pow-succ}
use code_learning.Avl.{
  Tree, leaf, node, height, higher, preorder, inorder, postorder, find, is_null, destroy,
}

unfoldable pub occurs : ℕ → Tree → ℕ
occurs v leaf = 0
occurs v (node e l r h) = occurs v l + same v e + occurs v r

-- every element to the left is smaller, every one to the right larger
abbrev pub IsSearch : Tree → Type 0
IsSearch leaf = Unit {0}
IsSearch (node e l r h) =
    ((v : ℕ) → 0 < occurs v l → v < e)
    × ((v : ℕ) → 0 < occurs v r → e < v)
    × IsSearch l
    × IsSearch r

-- the heights are those of the tree, and those of two siblings differ by one at most
abbrev pub IsBalanced : Tree → Type 0
IsBalanced leaf = Unit {0}
IsBalanced (node e l r h) =
    (h ≡ higher l r)
    × (height l ≤ height r + 1)
    × (height r ≤ height l + 1)
    × IsBalanced l
    × IsBalanced r

pub occurs-le : (v : ℕ) (t : Tree) → IsSearch t → occurs v t ≤ 1
unfolding occurs same
occurs-le v leaf s = omega arith
occurs-le v (node e l r h) s = ground (arith, occurs-le v l s.2, occurs-le v r s.3, s.0 v, s.1 v)

pub same-eq : (a b : ℕ) → a ≡ b → same a b ≡ 1
unfolding same
same-eq a b e = ground arith

destroy_if : (t : Tree) → (if is_null t then [] else destroy t) ≡ destroy t
unfolding destroy
destroy_if leaf = refl
destroy_if (node e l r h) = refl

-- Each of the three traversals prints every element, as often as the tree holds it, and
-- `destroy_avltree` frees each node once.
pub traversals-counts :
    (v : ℕ) (t : Tree)
    → (count v (preorder t) ≡ occurs v t)
      × (count v (inorder t) ≡ occurs v t)
      × (count v (postorder t) ≡ occurs v t)
      × (count v (destroy t) ≡ occurs v t)
unfolding preorder inorder postorder destroy occurs count
traversals-counts v leaf = (refl, refl, refl, refl)
traversals-counts v (node e l r h) =
    let (p, i, o, d) = traversals-counts v l in
    let (p', i', o', d') = traversals-counts v r in
    (
      omega (arith, count-append v (preorder l) (preorder r)),
      omega (arith, count-append v (inorder l) (e ∷ inorder r)),
      omega (arith, count-append v (postorder l) _, count-append v (postorder r) (e ∷ [])),
      omega (
        arith,
        ap (count v) (destroy_if l),
        ap (count v) (destroy_if r),
        count-append v (if is_null l then [] else destroy l) _,
        count-append v (if is_null r then [] else destroy r) (e ∷ []),
      ),
    )

-- what `find` returns: a node with the element looked for, or `NULL` where the tree lacks it
abbrev pub Found : ℕ → Tree → Tree → Type 0
Found x t leaf = occurs x t ≡ 0
Found x t (node e l r h) = (e ≡ x) × (0 < occurs x t)

module _ (x e : ℕ) (l r : Tree) (h : ℕ) (s : IsSearch (node e l r h)) where
  Found-left : (p : Tree) → x < e → Found x l p → Found x (node e l r h) p
  unfolding occurs same
  Found-left leaf lt f = ground (arith, s.1 x)
  Found-left (node e' l' r' h') lt f = (f.0, omega (arith, f.1))

  Found-right : (p : Tree) → e < x → Found x r p → Found x (node e l r h) p
  unfolding occurs same
  Found-right leaf lt f = ground (arith, s.0 x)
  Found-right (node e' l' r' h') lt f = (f.0, omega (arith, f.1))

  Found-here : e ≤ x → x ≤ e → Found x (node e l r h) (node e l r h)
  unfolding occurs
  Found-here p q = (omega arith, omega (arith, same-eq x e (omega arith)))

-- `find` in a search tree returns a node that holds the element, and `NULL` only where the tree
-- does not hold it.
pub find-Found : (x : ℕ) (t : Tree) → IsSearch t → Found x t (find t x)
unfolding find occurs
find-Found x leaf s = refl
find-Found x (node e l r h) s = elim (Bool-cases (ltb x e)) [
  | inl lt ↦ rw lt (Found-left x e l r h s (find l x) (ltb→lt x e lt) (find-Found x l s.2))
  | inr ge ↦ rw ge (elim (Bool-cases (ltb e x)) [
    | inl lt ↦ rw lt (Found-right x e l r h s (find r x) (ltb→lt e x lt) (find-Found x r s.3))
    | inr le ↦ rw le (Found-here x e l r h s (ltb→ge x e ge) (ltb→ge e x le))
  ])
]

unfoldable pub size : Tree → ℕ
size leaf = 0
size (node e l r h) = size l + 1 + size r

-- the siblings of a tree of height 2 (k + 1) have height 2 k at least
bound_step : (k : ℕ) (t : Tree) → IsBalanced t → 2 * k ≤ height t → 2 ^ k ≤ size t + 1
unfolding height size
bound_step zero t b h = omega arith
bound_step (suc k) leaf b h = absurd (omega arith)
bound_step (suc k) (node e l r h) b le =
    omega
      (arith, two-pow-succ k, bound_step k l b.3 (omega arith), bound_step k r b.4 (omega arith))

-- a balanced tree of height `h` has at least 2^(h/2) - 1 nodes
pub height-size : (t : Tree) → IsBalanced t → 2 ^ (height t / 2) ≤ size t + 1
height-size t b = bound_step (height t / 2) t b (omega arith)

pub length-preorder : (t : Tree) → length (preorder t) ≡ size t
unfolding preorder size
length-preorder leaf = refl
length-preorder (node e l r h) =
    omega (arith, length-append (preorder l) (preorder r), length-preorder l, length-preorder r)
