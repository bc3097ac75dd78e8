-- ===== src/Avl/Insert.antt =====
-- `insert_node` keeps an AVL tree.
use code_learning.Base.{
  ℕ, suc, ◌+◌, ◌≤◌, ◌<◌, ◌≡◌, refl, ◌≢◌, arith, same, ltb, ltb→lt, ltb→ge, lt→ltb, ge→ltb,
  Bool-cases, inl, inr, ◌⊎◌, true, false, fault, ◌==◌, if◌then◌else◌, ◌>>=◌, Yields, yields,
  Yields-bind, Yields-split,
}
use code_learning.Avl.{
  Tree, leaf, node, height, higher, insert_node, after_left, after_right, set_height, element,
  left_left_rotate, left_right_rotate, right_right_rotate, right_left_rotate,
}
use code_learning.Avl.Contents.{occurs, IsSearch, IsBalanced, occurs-le}
use code_learning.Avl.Rotate.{
  left_left_restores, left_right_restores, right_right_restores, right_left_restores,
}
use code_learning.Avl.Sides.{
  Lean, Inserted, counts_left, counts_right, IsSearch-left, IsSearch-right, rotated,
  Inserted-height,
}

module _ (x e : ℕ) (l r : Tree) (h : ℕ) (s : IsSearch (node e l r h))
    (b : IsBalanced (node e l r h)) where
  -- without a rotation the insertion on one side keeps the tree
  kept_left :
      (l' : Tree)
      → x < e
      → Inserted x l l'
      → height l' ≢ height r + 2
      → Yields (Inserted x (node e l r h)) (set_height (node e l' r h))
  unfolding set_height height occurs
  kept_left l' lt i ne =
      let g = Inserted-height i in
      yields {a = node e l' r (higher l' r)} (record {
        counts = counts_left x e l l' r h s lt i;
        search = IsSearch-left x e l l' r h s lt i;
        balanced = (refl, omega arith, omega arith, i.balanced, b.4);
        grown = elim (Bool-cases (ltb (height r) (height l'))) [
          | inr le ↦ inl (omega (arith, ltb→ge (height r) (height l') le))
          | inl gt ↦ elim (Bool-cases (height l' == height l)) [
            | inl e' ↦ inl (ground arith)
            | inr e' ↦ inr (ground arith, inr (inl (lt, ground arith)))
          ]
        ];
      })

  kept_right :
      (r' : Tree)
      → e < x
      → Inserted x r r'
      → height r' ≢ height l + 2
      → Yields (Inserted x (node e l r h)) (set_height (node e l r' h))
  unfolding set_height height occurs
  kept_right r' lt i ne =
      let g = Inserted-height i in
      yields {a = node e l r' (higher l r')} (record {
        counts = counts_right x e l r r' h s lt i;
        search = IsSearch-right x e l r r' h s lt i;
        balanced = (refl, omega arith, omega arith, b.3, i.balanced);
        grown = elim (Bool-cases (ltb (height l) (height r'))) [
          | inr le ↦ inl (omega (arith, ltb→ge (height l) (height r') le))
          | inl gt ↦ elim (Bool-cases (height r' == height r)) [
            | inl e' ↦ inl (ground arith)
            | inr e' ↦ inr (ground arith, inr (inr (lt, ground arith)))
          ]
        ];
      })

  -- with one side too high, the side of its root towards `x` says which rotation serves
  turned_left :
      (e' : ℕ) (a c : Tree) (h' : ℕ)
      → x < e
      → Inserted x l (node e' a c h')
      → h' ≡ height r + 2
      → Yields (Inserted x (node e l r h)) (
          (if ltb x e'
            then left_left_rotate (node e (node e' a c h') r h)
            else left_right_rotate (node e (node e' a c h') r h))
          >>= set_height)
  unfolding height
  turned_left e' a c h' lt i high =
      let counts = counts_left x e l (node e' a c h') r h s lt i in
      let search = IsSearch-left x e l (node e' a c h') r h s lt i in
      let v = i.balanced in
      elim (lean i.grown) [
        | inl q ↦ rw (lt→ltb x e' q.0) (
            Yields-bind
              (left_left_restores e' e a c r h' h search v b.4 (omega (arith, q.1))
                (omega (arith, q.1)))
              λ w z. rotated x (height r + 2) (node e l r h) _ w (omega arith) counts z)
        | inr q ↦ rw (ge→ltb x e' (omega (arith, q.0))) (
            Yields-bind
              (left_right_restores e' e a c r h' h search v b.4 (omega (arith, q.1))
                (omega (arith, q.1)))
              λ w z. rotated x (height r + 2) (node e l r h) _ w (omega arith) counts z)
      ]
    where
      lean :
          (h' ≡ height l) ⊎ ((h' ≡ suc (height l)) × Lean x l (node e' a c h'))
          → ((x < e') × (height a ≡ height c + 1)) ⊎ ((e' < x) × (height c ≡ height a + 1))
      lean (inl p) = absurd (omega arith)
      lean (inr (p, inl z)) = absurd (omega arith)
      lean (inr (p, inr q)) = q

  turned_right :
      (e' : ℕ) (a c : Tree) (h' : ℕ)
      → e < x
      → Inserted x r (node e' a c h')
      → h' ≡ height l + 2
      → Yields (Inserted x (node e l r h)) (
          (if ltb e' x
            then right_right_rotate (node e l (node e' a c h') h)
            else right_left_rotate (node e l (node e' a c h') h))
          >>= set_height)
  unfolding height
  turned_right e' a c h' lt i high =
      let counts = counts_right x e l r (node e' a c h') h s lt i in
      let search = IsSearch-right x e l r (node e' a c h') h s lt i in
      let v = i.balanced in
      elim (lean i.grown) [
        | inl q ↦ rw (ge→ltb e' x (omega (arith, q.0))) (
            Yields-bind
              (right_left_restores e' e l a c h' h search v b.3 (omega (arith, q.1))
                (omega (arith, q.1)))
              λ w z. rotated x (height l + 2) (node e l r h) _ w (omega arith) counts z)
        | inr q ↦ rw (lt→ltb e' x q.0) (
            Yields-bind
              (right_right_restores e' e l a c h' h search v b.3 (omega (arith, q.1))
                (omega (arith, q.1)))
              λ w z. rotated x (height l + 2) (node e l r h) _ w (omega arith) counts z)
      ]
    where
      lean :
          (h' ≡ height r) ⊎ ((h' ≡ suc (height r)) × Lean x r (node e' a c h'))
          → ((x < e') × (height a ≡ height c + 1)) ⊎ ((e' < x) × (height c ≡ height a + 1))
      lean (inl p) = absurd (omega arith)
      lean (inr (p, inl z)) = absurd (omega arith)
      lean (inr (p, inr q)) = q

  -- a tree that is too high is not `NULL`
  open_left :
      (l' : Tree)
      → x < e
      → Inserted x l l'
      → height l' ≡ height r + 2
      → Yields (Inserted x (node e l r h)) (
          (element l' >>= λ e'.
          if ltb x e' then left_left_rotate (node e l' r h) else left_right_rotate (node e l' r h))
          >>= set_height)
  unfolding element
  open_left leaf lt i high = absurd (zero_high high)
    where
      zero_high : height leaf ≡ height r + 2 → ⊥
      zero_high = unfold height in omega arith
  open_left (node e' a c h') lt i high = turned_left e' a c h' lt i (unfold height in high)

  open_right :
      (r' : Tree)
      → e < x
      → Inserted x r r'
      → height r' ≡ height l + 2
      → Yields (Inserted x (node e l r h)) (
          (element r' >>= λ e'.
          if ltb e' x
          then right_right_rotate (node e l r' h)
          else right_left_rotate (node e l r' h))
          >>= set_height)
  unfolding element
  open_right leaf lt i high = absurd (zero_high high)
    where
      zero_high : height leaf ≡ height l + 2 → ⊥
      zero_high = unfold height in omega arith
  open_right (node e' a c h') lt i high = turned_right e' a c h' lt i (unfold height in high)

  after_left-Inserted :
      (l' : Tree)
      → x < e
      → Inserted x l l'
      → Yields (Inserted x (node e l r h)) (after_left x (node e l' r h))
  unfolding after_left
  after_left-Inserted l' lt i = elim (Bool-cases (height l' == height r + 2)) [
    | inr ne ↦ rw ne (kept_left l' lt i (ground arith))
    | inl high ↦ rw high (open_left l' lt i (ground arith))
  ]

  after_right-Inserted :
      (r' : Tree)
      → e < x
      → Inserted x r r'
      → Yields (Inserted x (node e l r h)) (after_right x (node e l r' h))
  unfolding after_right
  after_right-Inserted r' lt i = elim (Bool-cases (height r' == height l + 2)) [
    | inr ne ↦ rw ne (kept_right r' lt i (ground arith))
    | inl high ↦ rw high (open_right r' lt i (ground arith))
  ]

  already_there : e ≤ x → x ≤ e → Yields (Inserted x (node e l r h)) (set_height (node e l r h))
  unfolding set_height height occurs same
  already_there p q = yields {a = node e l r (higher l r)} (record {
    counts = λ v. ground (arith, occurs-le v (node e l r h) s);
    search = s;
    balanced = (refl, b.1, b.2, b.3, b.4);
    grown = inl (omega arith);
  })

-- `insert_node` in an AVL tree, with memory for a new node, ends without going through `NULL`. The
-- new tree is an AVL tree that holds the new element and what the old one held, and is higher by
-- one at most.
pub insert_node-Inserted :
    (x : ℕ) (t : Tree) → IsSearch t → IsBalanced t → Yields (Inserted x t) (insert_node true t x)
unfolding insert_node
insert_node-Inserted x leaf s b = single
  where
    single : Yields (Inserted x leaf) (set_height (node x leaf leaf 0))
    single =
        unfold set_height height occurs in
        yields {a = node x leaf leaf (higher leaf leaf)} (record {
          counts = λ v. omega arith;
          search = (λ v p. absurd (omega arith), λ v p. absurd (omega arith), tt, tt);
          balanced = (refl, omega arith, omega arith, tt, tt);
          grown = inr (omega arith, inl (omega arith));
        })
insert_node-Inserted x (node e l r h) s b =
    Yields-split (ltb x e)
      (λ lt.
        Yields-bind (insert_node-Inserted x l s.2 b.3)
          λ l' i. after_left-Inserted x e l r h s b l' (ltb→lt x e lt) i)
      (λ ge.
        Yields-split (ltb e x)
          (λ lt.
            Yields-bind (insert_node-Inserted x r s.3 b.4)
              λ r' i. after_right-Inserted x e l r h s b r' (ltb→lt e x lt) i)
          (λ le. already_there x e l r h s b (ltb→ge x e ge) (ltb→ge e x le)))

-- Where `malloc` fails for a new element, `insert_node` goes on to write through `NULL`.
insert_node-no_memory :
    (x : ℕ) (t : Tree) → IsSearch t → occurs x t ≡ 0 → insert_node false t x ≡ fault
unfolding insert_node occurs same
insert_node-no_memory x leaf s absent = unfold set_height in refl
insert_node-no_memory x (node e l r h) s absent =
    ground (arith, insert_node-no_memory x l s.2, insert_node-no_memory x r s.3)
