-- ===== src/DisjointSet/Union.antt =====
-- The two unions hang one root under another.
use code_learning.Base.{
  ℕ, zero, suc, ◌+◌, ◌≤◌, ◌<◌, ◌≡◌, ◌≢◌, ◌⊎◌, inl, inr, refl, sym, ap, ◌∙◌, arith, Bool, Bool-cases,
  true, false, List, ok, read, read-set, length_of_read, write-ok, set, length-set, none, some,
  ◌==◌, ◌||◌, if◌then◌else◌, Yields, yields, Yields-split,
}
use code_learning.Base.Int.{ℤ, pos, negsuc, neg_part, ltb_ℤ, eqb_ℤ, ◌-ℤ◌}
use code_learning.DisjointSet.{parent, setunion, setunion_high}
use code_learning.DisjointSet.Roots.{Root, top, up, IsRoot}

-- in `t` the root `c` of `s` has the parent `p`, another root
record Linked (s t : List ℤ) (c p : ℕ) : Type 0 where
  child : read t c ≡ ok (pos p)
  names : parent (pos p) ≡ some p
  root : IsRoot t p
  rest : (x : ℕ) → x ≢ c → x ≢ p → read t x ≡ read s x
  was_child : IsRoot s c
  was_root : IsRoot s p
  apart : c ≢ p

parent_clash : (s : List ℤ) (x p : ℕ) (e : ℤ) → read s x ≡ ok e → parent e ≡ some p → IsRoot s x → ⊥
parent_clash s x p e h q (e', h', q') = cc

module _ {s t : List ℤ} {c p : ℕ} (l : Linked s t c p) where
  -- the elements of the tree of `c` have now the root `p`, the others theirs
  Linked-Root :
      {x r n : ℕ}
      → Root s x r n
      → (m : ℕ) × (m ≡ n + (if r == c then 1 else 0)) × Root t x (if r == c then p else r) m
  Linked-Root (top {x} {e} h q) = elim (Bool-cases (x == c)) [
    | inl e' ↦
        let i : c ≡ x = ground arith in
        rw (e', ← i) (1, omega arith, up l.child l.names (top (l.root).1 (l.root).2))
    | inr ne ↦ rw ne (elim (Bool-cases (x == p)) [
      | inl e' ↦
          let i : p ≡ x = ground arith in rw (← i) (0, omega arith, top (l.root).1 (l.root).2)
      | inr ne' ↦ (0, omega arith, top (l.rest x (λ i. ground arith) (λ i. ground arith) ∙ h) q)
    ])
  ]
  Linked-Root (up {x} {e} h q d) =
      let (m, le, d') = Linked-Root d in
      (suc m, omega arith, up (l.rest x (not_root l.was_child) (not_root l.was_root) ∙ h) q d')
    where
      not_root : {y : ℕ} → IsRoot s y → x ≢ y
      not_root {y} r i = parent_clash s y _ e (ap (read s) (sym i) ∙ h) q r

-- the trees of `root1` and `root2` are one tree, under one of the two, and all others are as
-- before; no element has come to lie deeper by more than one
pub record Joined (s : List ℤ) (root1 root2 : ℕ) (t : List ℤ) : Type 0 where
  pub root : ℕ
  pub one_of : (root ≡ root1) ⊎ (root ≡ root2)
  pub roots :
      (x r n : ℕ)
      → Root s x r n
      → (m : ℕ) × (m ≤ n + 1) × Root t x (if (r == root1) || (r == root2) then root else r) m

at_most : (m n : ℕ) (b : Bool) → m ≡ n + (if b then 1 else 0) → m ≤ n + 1
at_most m n true e = omega arith
at_most m n false e = omega arith

Linked-second : {s t : List ℤ} {root1 root2 : ℕ} → Linked s t root2 root1 → Joined s root1 root2 t
Linked-second {s} {t} {root1} {root2} l = record {
  root = root1;
  one_of = inl refl;
  roots = λ x r n d.
      let (m, le, d') = Linked-Root l d in (m, at_most m n (r == root2) le, rw (same_root r) at d');
}
  where
    same_root :
        (r : ℕ)
        → (if r == root2 then root1 else r) ≡ (if (r == root1) || (r == root2) then root1 else r)
    same_root r = ground arith

Linked-first : {s t : List ℤ} {root1 root2 : ℕ} → Linked s t root1 root2 → Joined s root1 root2 t
Linked-first {s} {t} {root1} {root2} l = record {
  root = root2;
  one_of = inr refl;
  roots = λ x r n d.
      let (m, le, d') = Linked-Root l d in (m, at_most m n (r == root1) le, rw (same_root r) at d');
}
  where
    same_root :
        (r : ℕ)
        → (if r == root1 then root2 else r) ≡ (if (r == root1) || (r == root2) then root2 else r)
    same_root r = ground arith

pub parent-pos : (p : ℕ) → 1 ≤ p → parent (pos p) ≡ some p
unfolding parent
parent-pos zero h = absurd (omega arith)
parent-pos (suc p) h = refl

module _ (s : List ℤ) (c p : ℕ) (h : 1 ≤ p) (rc : IsRoot s c) (rp : IsRoot s p) (ne : c ≢ p) where
  set-Linked : Linked s (set s c (pos p)) c p
  set-Linked =
      let (e, he, qe) = rc in
      let (f, hf, qf) = rp in
      let inside = length_of_read s c he in
      record {
        child = ground (arith, read-set s c c (pos p) inside);
        names = parent-pos p h;
        root = (f, ground (arith, read-set s c p (pos p) inside), qf);
        rest = λ x nc np. ground (arith, read-set s c x (pos p) inside);
        was_child = rc;
        was_root = rp;
        apart = ne;
      }

-- `setunion` of two different roots joins their trees.
setunion-Joined :
    (s : List ℤ) (root1 root2 : ℕ)
    → 1 ≤ root1
    → IsRoot s root1
    → IsRoot s root2
    → root1 ≢ root2
    → Yields (Joined s root1 root2) (setunion s root1 root2)
unfolding setunion
setunion-Joined s root1 root2 h r1 r2 ne =
    let (e, he, qe) = r2 in
    rw (write-ok s root2 (pos root1) (length_of_read s root2 he))
      (yields (Linked-second (set-Linked s root2 root1 h r2 r1 (λ i. ne (sym i)))))

parent-negsuc : (n : ℕ) → parent (negsuc n) ≡ none
parent-negsuc n = unfold parent in refl

lower-root : (e : ℤ) → parent e ≡ none → parent (e -ℤ pos 1) ≡ none
unfolding parent ◌-ℤ◌
lower-root (pos zero) h = refl
lower-root (pos (suc n)) h = cc
lower-root (negsuc n) h = ground arith

raised-Linked :
    (s : List ℤ) (root1 root2 : ℕ) (a : ℤ)
    → 1 ≤ root1
    → read s root1 ≡ ok a
    → parent a ≡ none
    → IsRoot s root2
    → root1 ≢ root2
    → Linked s (set (set s root1 (a -ℤ pos 1)) root2 (pos root1)) root2 root1
raised-Linked s root1 root2 a h ha qa (b, hb, qb) ne =
    let inside = length_of_read s root1 ha in
    let inside₂ = length_of_read s root2 hb in
    let s' = set s root1 (a -ℤ pos 1) in
    let outer =
      λ (x : ℕ). read-set s' root2 x (pos root1) (omega (arith, length-set s root1 (a -ℤ pos 1))) in
    let inner = λ (x : ℕ). read-set s root1 x (a -ℤ pos 1) inside in
    record {
      child = ground (arith, outer root2);
      names = parent-pos root1 h;
      root = (a -ℤ pos 1, ground (arith, outer root1, inner root1), lower-root a qa);
      rest = λ x nc np. ground (arith, outer x, inner x);
      was_child = (b, hb, qb);
      was_root = (a, ha, qa);
      apart = λ i. ne (sym i);
    }

-- `setunion_high` of two different roots joins their trees, under the one or the other.
pub setunion_high-Joined :
    (s : List ℤ) (root1 root2 : ℕ)
    → 1 ≤ root1
    → 1 ≤ root2
    → IsRoot s root1
    → IsRoot s root2
    → root1 ≢ root2
    → Yields (Joined s root1 root2) (setunion_high s root1 root2)
unfolding setunion_high
setunion_high-Joined s root1 root2 h h' (a, ha, qa) (b, hb, qb) ne =
    let inside = length_of_read s root1 ha in
    let inside₂ = length_of_read s root2 hb in
    let s' = set s root1 (a -ℤ pos 1) in
    rw (ha, hb)
      (Yields-split (ltb_ℤ a b)
        (λ lt.
          rw (write-ok s root1 (pos root2) inside)
            (yields (Linked-first (set-Linked s root1 root2 h' (a, ha, qa) (b, hb, qb) ne))))
        (λ ge. elim (Bool-cases (eqb_ℤ a b)) [
          | inl e ↦
              rw
                (
                  e,
                  write-ok s root1 (a -ℤ pos 1) inside,
                  write-ok s' root2 (pos root1) (omega (arith, length-set s root1 (a -ℤ pos 1))),
                )
                (yields (Linked-second (raised-Linked s root1 root2 a h ha qa (b, hb, qb) ne)))
          | inr e ↦
              rw (e, write-ok s root2 (pos root1) inside₂)
                (yields (
                  Linked-second
                    (set-Linked s root2 root1 h (b, hb, qb) (a, ha, qa) (λ i. ne (sym i)))))
        ]))

-- Where the tree of `root1` is the higher one by the recorded heights, and an element of it lies as
-- deep as its height, `setunion_high` hangs it under the lower tree and leaves the height of that
-- one as it was, though the element lies deeper now.
pub setunion_high-too_low :
    (s : List ℤ) (root1 root2 a x : ℕ) (b : ℤ)
    → 1 ≤ root2
    → read s root1 ≡ ok (negsuc a)
    → read s root2 ≡ ok b
    → parent b ≡ none
    → root1 ≢ root2
    → neg_part b < suc a
    → Root s x root1 (suc a)
    → Yields
        (λ t. (read t root2 ≡ ok b) × (m : ℕ) × Root t x root2 m × (neg_part b < m))
        (setunion_high s root1 root2)
unfolding setunion_high
setunion_high-too_low s root1 root2 a x b h ha hb qb ne lt d =
    let inside = length_of_read s root1 ha in
    let l = set-Linked s root1 root2 h (negsuc a, ha, parent-negsuc a) (b, hb, qb) ne in
    let (m, e, d') = Linked-Root l d in
    let self : (root1 == root1) ≡ true = ground arith in
    rw (ha, hb)
      (Yields-split (ltb_ℤ (negsuc a) b)
        (λ lt'. rw (write-ok s root1 (pos root2) inside) (
          yields {a = set s root1 (pos root2)} (
            ground (arith, read-set s root1 root2 (pos root2) inside),
            m,
            rw self at d',
            ground arith,
          )))
        (λ e. absurd (ground arith)))
