-- ===== src/Avl/Delete.antt =====
-- `delete_node` of an AVL tree.
use code_learning.Base.{
  ℕ, ◌-◌, ◌≤◌, ◌<◌, ◌≡◌, refl, arith, same, ltb, ltb→lt, ltb→ge, lt→ltb, ge→ltb, true, false, Run,
  fault, if◌then◌else◌,
}
use code_learning.Avl.{Tree, leaf, node, delete_node, element, find, is_null, both, findmin}
use code_learning.Avl.Contents.{occurs, IsSearch, IsBalanced, occurs-le, same-eq, find-Found, Found}
use code_learning.Avl.Removal.{
  Ends-bind, value, faulty, Ends, Ends-weaken, Ends-split, Removed, Removed-Turned,
  deleted_left-Turned, deleted_right-Turned, set_height_if-Turned,
}

-- the element that `delete_node` moves up where there are two children
abbrev Least : Tree → ℕ → Type 0
Least t m = (0 < occurs m t) × ((v : ℕ) → 0 < occurs v t → m ≤ v)

findmin-Least : (t : Tree) → IsSearch t → Ends (Least t) (element (findmin t))
unfolding element findmin occurs same
findmin-Least leaf s = faulty
findmin-Least (node e leaf r h) s = value (ground arith, λ v p. ground (arith, s.1 v))
findmin-Least (node e (node e' l' r' h') r h) s = Ends-bind' (findmin-Least (node e' l' r' h') s.2)
  where
    Ends-bind' :
        {m : Run ℕ}
        → Ends (Least (node e' l' r' h')) m
        → Ends (Least (node e (node e' l' r' h') r h)) m
    Ends-bind' faulty = faulty
    Ends-bind' (value {a = m} p) =
        value (omega (arith, p.0), λ v q. ground (arith, p.1 v, p.0, s.0 m, s.1 v))

module _ (x e : ℕ) (l r : Tree) (h : ℕ) (s : IsSearch (node e l r h)) where
  Removed-left : (l' : Tree) → x < e → Removed x l l' → Removed x (node e l r h) (node e l' r h)
  unfolding occurs same
  Removed-left l' lt p = record {
    counts = λ v. ground (arith, p.counts v, s.1 v, occurs-le v l s.2);
    search = (λ v q. s.0 v (omega (arith, p.counts v)), s.1, p.search, s.3);
  }

  Removed-right : (r' : Tree) → e < x → Removed x r r' → Removed x (node e l r h) (node e l r' h)
  unfolding occurs same
  Removed-right r' lt p = record {
    counts = λ v. ground (arith, p.counts v, s.0 v, occurs-le v r s.3);
    search = (s.0, λ v q. s.1 v (omega (arith, p.counts v)), s.2, p.search);
  }

  -- with two children the least element of the right subtree takes the root's place
  Removed-both :
      (m : ℕ) (r' : Tree)
      → e ≡ x
      → Least r m
      → Removed m r r'
      → Removed x (node e l r h) (node m l r' h)
  unfolding occurs same
  Removed-both m r' same_key (here, least) p = record {
    counts = λ v. ground (arith, p.counts v, here, s.0 v, s.1 v, occurs-le v r s.3);
    search = (
      λ v q. ground (arith, s.0 v, s.1 m),
      λ v q. ground (arith, p.counts v, least v, occurs-le v r s.3),
      s.2,
      p.search,
    );
  }

  Removed-one : e ≡ x → both l r ≡ false → Removed x (node e l r h) (if is_null l then r else l)
  unfolding both
  Removed-one same_key one = child l r s one
    where
      child :
          (l r : Tree)
          → IsSearch (node e l r h)
          → (if is_null l then false else if is_null r then false else true) ≡ false
          → Removed x (node e l r h) (if is_null l then r else l)
      child leaf r s one =
          unfold occurs same in
          record { counts = λ v. ground (arith, s.1 v, occurs-le v r s.3); search = s.3 }
      child (node e' a b h') leaf s one =
          unfold occurs same in
          record {
            counts = λ v. ground (arith, s.0 v, occurs-le v (node e' a b h') s.2);
            search = s.2;
          }
      child (node e' a b h') (node e'' a' b' h'') s one = cc

absent-of_null : (x : ℕ) (t : Tree) → IsSearch t → is_null (find t x) ≡ true → occurs x t ≡ 0
absent-of_null x t s = look (find t x) (find-Found x t s)
  where
    look : (p : Tree) → Found x t p → is_null p ≡ true → occurs x t ≡ 0
    look leaf f e = f
    look (node e' l r h) f e = cc

-- `delete_node` of a search tree removes the element and nothing else and keeps the search order,
-- unless it goes through `NULL`.
pub delete_node-Removed : (x : ℕ) (t : Tree) → IsSearch t → Ends (Removed x t) (delete_node t x)
unfolding delete_node
delete_node-Removed x leaf s =
    value {a = leaf} (unfold occurs in record { counts = λ v. omega arith; search = tt })
delete_node-Removed x (node e l r h) s =
    Ends-split (is_null (find (node e l r h) x))
      (λ absent.
        value
          (record { counts = λ v. gone v (absent-of_null x (node e l r h) s absent); search = s }))
      (λ present.
        Ends-bind
          (Ends-split (ltb x e)
            (λ lt. Ends-bind (delete_node-Removed x l s.2) λ l' p.
              let q = Removed-left x e l r h s l' (ltb→lt x e lt) p in
              Ends-weaken (deleted_left-Turned x (node e l' r h) q.search)
                λ w t. Removed-Turned q t)
            (λ ge.
              Ends-split (ltb e x)
                (λ lt. Ends-bind (delete_node-Removed x r s.3) λ r' p.
                  let q = Removed-right x e l r h s r' (ltb→lt e x lt) p in
                  Ends-weaken (deleted_right-Turned x (node e l r' h) q.search)
                    λ w t. Removed-Turned q t)
                (λ le.
                  let same_key = eq_of_le (ltb→ge x e ge) (ltb→ge e x le) in
                  Ends-split (both l r)
                    (λ two. Ends-bind (findmin-Least r s.3) λ m least.
                      Ends-bind (delete_node-Removed m r s.3)
                        λ r' p. value (Removed-both x e l r h s m r' same_key least p))
                    (λ one. value (Removed-one x e l r h s same_key one)))))
          λ w p. Ends-weaken (set_height_if-Turned w p.search) λ w' t. Removed-Turned p t)
  where
    gone :
        (v : ℕ)
        → occurs x (node e l r h) ≡ 0
        → occurs v (node e l r h) ≡ occurs v (node e l r h) - same v x
    gone v absent = unfold same in ground arith

    eq_of_le : e ≤ x → x ≤ e → e ≡ x
    eq_of_le p q = omega arith

-- In an AVL tree whose left subtree is the one node `x` and whose right subtree is a node without
-- a left child and with a right child, `delete_node` of `x` goes through `NULL`: it rotates right
-- and left where one rotation is called for, since it compares `x`, and not the removed side, with
-- the right child's element.
pub delete_node-fault :
    (x e e₂ : ℕ) (c : Tree) (h₂ h : ℕ)
    → IsSearch (node e (node x leaf leaf 1) (node e₂ leaf c h₂) h)
    → IsBalanced (node e (node x leaf leaf 1) (node e₂ leaf c h₂) h)
    → is_null c ≡ false
    → delete_node (node e (node x leaf leaf 1) (node e₂ leaf c h₂) h) x ≡ fault
unfolding delete_node occurs
delete_node-fault x e e₂ leaf h₂ h s b present = cc
delete_node-fault x e e₂ (node e₃ c d h₃) h₂ h s b present =
    let lt : x < e = s.0 x (omega (arith, same-eq x x refl)) in
    let lt₂ : e < e₂ = s.1 e₂ (omega (arith, same-eq e₂ e₂ refl)) in
    let high : h₂ ≡ 2 = omega arith in
    rw (lt→ltb x e lt, ge→ltb x x (omega arith), high, lt→ltb x e₂ (omega arith))
