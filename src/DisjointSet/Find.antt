-- ===== src/DisjointSet/Find.antt =====
-- `find_route_compress` returns the root and shortens the way to it.
use code_learning.Base.{
  ℕ, zero, suc, ◌≤◌, ◌<◌, ◌≡◌, ◌≢◌, inl, inr, refl, sym, ap, ◌∙◌, arith, Bool-cases, List, ok, read,
  read-set, length_of_read, write-ok, set, some, ◌==◌, ◌>>=◌, Yields, yields,
}
use code_learning.Base.Int.{ℤ, pos, negsuc}
use code_learning.DisjointSet.{parent, find_route_compress}
use code_learning.DisjointSet.Roots.{Root, top, up, IsRoot, Root-IsRoot, find-Root}
use code_learning.DisjointSet.Union.{parent-pos}

parent-positive : (e : ℤ) (p : ℕ) → parent e ≡ some p → 1 ≤ p
unfolding parent
parent-positive (pos zero) p h = cc
parent-positive (pos (suc n)) p h = ground arith
parent-positive (negsuc n) p h = cc

Root-positive : {s : List ℤ} {p r n : ℕ} → Root s p r n → 1 ≤ p → 1 ≤ r
Root-positive (top h q) le = le
Root-positive (up {e} h q d) le = Root-positive d (parent-positive e _ q)

-- an element has one root
Root-unique : {s : List ℤ} {x x' r r' n n' : ℕ} → Root s x r n → Root s x' r' n' → x ≡ x' → r ≡ r'
Root-unique (top h q) (top h' q') i = i
Root-unique {s} (top h q) (up h' q' d') i = let h'' = ap (read s) i ∙ h' in cc
Root-unique {s} (up h q d) (top h' q') i = let h'' = ap (read s) i ∙ h' in cc
Root-unique {s} (up {x} h q d) (up {x = x'} h' q' d') i =
    let h'' = ap (read s) i ∙ h' in Root-unique d d' (cc)

-- the tree of `x`, whose parent is `p`, with `x` hung under the root `r`
module _ (s : List ℤ) (x p r n : ℕ) (e : ℤ) (hx : read s x ≡ ok e) (qx : parent e ≡ some p)
    (d : Root s p r n) where
  abbrev after : List ℤ
  after = set s x (pos r)

  root_apart : x ≢ r
  root_apart i = clash (Root-IsRoot d)
    where
      clash : IsRoot s r → ⊥
      clash (f, hf, qf) = let h : read s x ≡ ok f = ap (read s) i ∙ hf in cc

  root_after : Root after r r 0
  root_after = keep (Root-IsRoot d)
    where
      keep : IsRoot s r → Root after r r 0
      keep (f, hf, qf) =
          let ne = root_apart in
          top (ground (arith, read-set s x r (pos r) (length_of_read s x hx))) qf

  Root-after : {y q m : ℕ} → Root s y q m → (m' : ℕ) × (m' ≤ m) × Root after y q m'
  Root-after (top {x = y} {e = f} h z) =
      (0, omega arith, top (ground (arith, read-set s x y (pos r) (length_of_read s x hx), at y)) z)
    where
      at : (y : ℕ) → x ≡ y → read s y ≡ ok e
      at y i = ap (read s) (sym i) ∙ hx
  Root-after (up {x = y} {p = p'} {r = q} {n = m} {e = f} h z w) =
      let (m', le, w') = Root-after w in
      elim (Bool-cases (x == y)) [
        | inr ne ↦ (
          suc m',
          omega arith,
          up (ground (arith, read-set s x y (pos r) (length_of_read s x hx))) z w',
        )
        | inl i ↦
            let same_root = Root-unique d w (same_parent y p' f h z (ground arith)) in
            let here : x ≡ y = ground arith in
            rw (← same_root, ← here)
              (
                1,
                omega arith,
                up (ground (arith, read-set s x x (pos r) (length_of_read s x hx)))
                    (parent-pos r (Root-positive d (parent-positive e p qx))) root_after,
              )
      ]
    where
      same_parent : (y p' : ℕ) (f : ℤ) → read s y ≡ ok f → parent f ≡ some p' → x ≡ y → p ≡ p'
      same_parent y p' f h z i = let h' : read s x ≡ ok f = ap (read s) i ∙ h in cc

-- `find_route_compress` returns the root of an element, and afterwards every element has the root
-- that it had and lies no deeper than before.
pub find_route_compress-Root :
    (s : List ℤ) (k x r n : ℕ)
    → Root s x r n
    → n < k
    → Yields
        (λ (found, t).
          (found ≡ r) × ((y q m : ℕ) → Root s y q m → (m' : ℕ) × (m' ≤ m) × Root t y q m'))
        (find_route_compress k s x)
unfolding find_route_compress
find_route_compress-Root s k x r zero (top h z) lt =
    rw (h, ◌>>=◌, z) (yields (refl, λ y q m w. (m, omega arith, w)))
find_route_compress-Root s k x r (suc n) (up {p} {e} h z d) lt =
    rw (h, ◌>>=◌, z, find-Root k d (omega arith), write-ok s x (pos r) (length_of_read s x h))
      (yields (refl, λ y q m w. Root-after s x p r n e h z d w))
