-- ===== src/Clrs/MaxSubarray/Cross.antt =====
-- The largest sum over a middle.
use mathlib.Core.Path.{subst}
use code_learning.Base.{
  ℕ, suc, ◌+◌, ◌-◌, ◌≤◌, ◌<◌, ◌≡◌, refl, ap, ◌∙◌, arith, List, some, ok, ◌>>=◌, Yields, yields,
  Yields-bind,
}
use code_learning.Base.Int.{ℤ, pos, ◌+ℤ◌, ◌≤ℤ◌, pos_part, neg_part, int_laws, eq_of_parts}
use code_learning.Clrs.MaxSubarray.{Subarr, add, cross_left, cross_right, maxcross}
use code_learning.Clrs.MaxSubarray.Spans.{
  entry, span, IsSummable, Attains, IsInt, add-ok, plus_none, read-entry, span-one, span-append,
}
use code_learning.Clrs.MaxSubarray.Halves.{
  LeftMost, RightMost, cross_left-LeftMost, cross_right-RightMost,
}

module _ (arr : List ℤ) (n : ℕ) (s : IsSummable arr n) (mid : ℕ) (inside : mid < n) where
  -- `max` is the largest sum of a stretch over the middle that ends before `end`; it may start before
  -- `beg`.
  pub record Crossing (end : ℕ) (sub : Subarr) : Type 0 where
    pub attains : Attains arr n sub
    pub upper :
        (p c d : ℕ) → p + suc c ≡ mid → mid + d < end → span arr p (suc c + suc d) ≤ℤ sub.max

  cross_left_start :
      (P : ℤ × ℕ → Type 0) (m : ℤ) (left : ℕ)
      → Yields P (cross_left mid arr (span arr mid 0) m left)
      → Yields P (cross_left mid arr (pos 0) m left)
  unfolding span
  cross_left_start P m left h = h

  cross_right_start :
      (P : ℤ × ℕ → Type 0) (k : ℕ) (m : ℤ) (right : ℕ)
      → Yields P (cross_right k arr (mid + 0) (span arr mid 0) m right)
      → Yields P (cross_right k arr mid (pos 0) m right)
  unfolding span
  cross_right_start P k m right h =
      subst (λ j. Yields P (cross_right k arr j (pos 0) m right)) (plus_none mid) h

  -- a stretch over the middle
  over :
      (p c d : ℕ)
      → p + suc c ≡ mid
      → span arr p (suc c + suc d) ≡ span arr p (suc c) +ℤ span arr mid (suc d)
  over p c d e =
      span-append arr p (suc c) (suc d) ∙ ap (λ j. span arr p (suc c) +ℤ span arr j (suc d)) e

  -- the sum of the two largest
  both-Crossing :
      (end : ℕ) (l r : ℤ × ℕ)
      → end ≤ n
      → LeftMost arr n s mid inside 0 l
      → RightMost arr n s mid inside (end - mid) (end - mid) r
      → (add (r.0) (l.0) ≡ ok (r.0 +ℤ l.0))
        × Crossing end (record { left = some (l.1); right = some (r.1); max = r.0 +ℤ l.0 })
  both-Crossing end l r le f g =
      let whole = over (l.1) f.count g.count f.ends in
      let sum : span arr (l.1) (suc f.count + suc g.count) ≡ r.0 +ℤ l.0 =
        whole
        ∙ (ap (λ x. x +ℤ span arr mid (suc g.count)) f.sum
            ∙ ap (λ y. l.0 +ℤ y) g.sum
            ∙ plus_comm (l.0) (r.0)) in
      (
        add-ok (r.0) (l.0) (
            subst IsInt sum
              (s.in_range (l.1) (suc f.count + suc g.count) (omega (arith, f.ends, g.within)))),
        record {
          attains = (
            l.1,
            f.count + suc g.count,
            omega (arith, f.ends, g.within),
            ap (span arr (l.1)) (one_more f.count (suc g.count)) ∙ sum,
            refl,
            ap some (g.ends ∙ last (l.1) f.count g.count f.ends),
          );
          upper = λ p c d e lt. omega (
            int_laws,
            ap pos_part (over p c d e),
            ap neg_part (over p c d e),
            f.upper p c (omega arith) e,
            g.upper d (omega arith),
          );
        },
      )
    where
      plus_comm : (x y : ℤ) → x +ℤ y ≡ y +ℤ x
      plus_comm x y = eq_of_parts _ _ (omega int_laws)

      one_more : (c d : ℕ) → suc (c + d) ≡ suc c + d
      one_more c d = omega arith

      last : (i c d : ℕ) → i + suc c ≡ mid → mid + d ≡ i + (c + suc d)
      last i c d e = omega arith

  pub maxcross-Crossing :
      (beg end : ℕ)
      → 0 < mid
      → mid < end
      → end ≤ n
      → Yields (Crossing end) (maxcross arr beg mid end)
  unfolding maxcross
  maxcross-Crossing beg end h lt le =
      rw (read-entry arr (mid - 1) (omega (arith, s.fits)), ◌>>=◌)
        (Yields-bind
          (cross_left_start (LeftMost arr n s mid inside 0) (entry arr (mid - 1)) (mid - 1) (
            cross_left-LeftMost arr n s mid inside mid 0 (entry arr (mid - 1)) (mid - 1)
              (plus_none mid)
              (record {
                count = 0;
                ends = omega arith;
                sum = span-one arr (mid - 1);
                upper = λ p c le h. absurd (omega arith);
              })))
          (λ l f.
            rw (read-entry arr mid (omega (arith, s.fits)), ◌>>=◌)
              (Yields-bind
                (cross_right_start (RightMost arr n s mid inside (end - mid) (end - mid))
                  (end - mid) (entry arr mid) mid
                  (cross_right-RightMost arr n s mid inside (end - mid) 0 (entry arr mid) mid
                    (end - mid) (omega arith) (omega arith)
                    (record {
                      count = 0;
                      within = omega arith;
                      ends = omega arith;
                      sum = span-one arr mid;
                      upper = λ c lt. absurd (omega arith);
                    })))
                (λ r g.
                  let (sum, done) = both-Crossing end l r le f g in
                  rw (sum, ◌>>=◌) (yields done)))))
