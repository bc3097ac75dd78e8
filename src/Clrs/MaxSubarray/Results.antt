-- ===== src/Clrs/MaxSubarray/Results.antt =====
-- The divide-and-conquer algorithm, and the agreement of the three.
use mathlib.Core.Path.{subst}
use native.Mathlib.Decide.{dec_lt}
use code_learning.Base.{
  ℕ, zero, suc, ◌+◌, ◌-◌, ◌/◌, ◌≤◌, ◌<◌, ◌≡◌, refl, ap, arith, false, ltb, List, some, ok, ◌>>=◌,
  Yields, yields, Yields-bind, Yields-weaken, Yields-value, Bool-cases, inl, inr,
}
use code_learning.Base.Int.{ℤ, ◌≤ℤ◌, ltb_ℤ}
use code_learning.Clrs.MaxSubarray.{
  Subarr, largest, maxsubarr, dmaxsubarray, lmaxsubarray, bmaxsubarray,
}
use code_learning.Clrs.MaxSubarray.Spans.{
  entry, span, IsSummable, Attains, IsUpper, IsUpper-unique, read-entry, span-one,
}
use code_learning.Clrs.MaxSubarray.Brute.{bmaxsubarray-IsUpper}
use code_learning.Clrs.MaxSubarray.Linear.{lmaxsubarray-IsUpper}
use code_learning.Clrs.MaxSubarray.Cross.{Crossing, maxcross-Crossing}

module _ (arr : List ℤ) (n : ℕ) (s : IsSummable arr n) where
  -- `max` is the sum of some stretch of the array, and none from `beg` to `end` has a larger one
  record Best (beg end : ℕ) (sub : Subarr) : Type 0 where
    attains : Attains arr n sub
    upper : (i r : ℕ) → beg ≤ i → i + r < end → span arr i (suc r) ≤ℤ sub.max

  -- one of the three, and no smaller than any
  record IsLargest (left right middle sub : Subarr) : Type 0 where
    attains : Attains arr n sub
    over_left : left.max ≤ℤ sub.max
    over_right : right.max ≤ℤ sub.max
    over_middle : middle.max ≤ℤ sub.max

  largest-IsLargest :
      (left right middle : Subarr)
      → Attains arr n left
      → Attains arr n right
      → Attains arr n middle
      → IsLargest left right middle (largest left right middle)
  unfolding largest
  largest-IsLargest left right middle l r m = elim (Bool-cases (ltb_ℤ left.max right.max)) [
    | inl right_more ↦ rw right_more (elim (Bool-cases (ltb_ℤ right.max middle.max)) [
      | inl more ↦ rw more (record {
        attains = m;
        over_left = ground arith;
        over_right = ground arith;
        over_middle = omega arith;
      })
      | inr less ↦ rw less (record {
        attains = r;
        over_left = ground arith;
        over_right = omega arith;
        over_middle = ground arith;
      })
    ])
    | inr left_more ↦ rw left_more (elim (Bool-cases (ltb_ℤ left.max middle.max)) [
      | inl more ↦ rw more (record {
        attains = m;
        over_left = ground arith;
        over_right = ground arith;
        over_middle = omega arith;
      })
      | inr less ↦ rw less (record {
        attains = l;
        over_left = omega arith;
        over_right = ground arith;
        over_middle = ground arith;
      })
    ])
  ]

  largest-Best :
      (beg mid end : ℕ) (inside : mid < n) (left right middle : Subarr)
      → Best beg mid left
      → Best mid end right
      → Crossing arr n s mid inside end middle
      → Best beg end (largest left right middle)
  largest-Best beg mid end inside left right middle l r m =
      let best = largest-IsLargest left right middle l.attains r.attains m.attains in
      record {
        attains = best.attains;
        upper = λ i t bi lt. elim (dec_lt (i + t) mid) [
          | yes before ↦ omega (arith, l.upper i t bi before, best.over_left)
          | no over ↦ elim (dec_lt i mid) [
            | no after ↦ omega (arith, r.upper i t (omega arith) lt, best.over_right)
            | yes start ↦
                let c = mid - i - 1 in
                let d = i + t - mid in
                let whole = m.upper i c d (omega arith) (omega arith) in
                omega (
                  arith,
                  subst (λ j. span arr i j ≤ℤ middle.max) (lengths i t mid start over) whole,
                  best.over_middle,
                )
          ]
        ];
      }
    where
      lengths :
          (i t mid : ℕ) → i < mid → ¬ (i + t < mid) → suc (mid - i - 1) + suc (i + t - mid) ≡ suc t
      lengths i t mid lt ge = omega arith

  alone : (beg i r : ℕ) → i ≡ beg → r ≡ 0 → span arr i (suc r) ≤ℤ entry arr beg
  alone beg i r e e' = rw (e, e', span-one arr beg) (omega arith)

  maxsubarr-Best :
      (k beg end : ℕ)
      → beg < end
      → end ≤ n
      → end < k + beg
      → Yields (Best beg end) (maxsubarr k arr beg end)
  unfolding maxsubarr
  maxsubarr-Best zero beg end lt le fuel = absurd (omega arith)
  maxsubarr-Best (suc k) beg end lt le fuel = elim (Bool-cases (ltb (beg + 1) end)) [
    | inr one ↦
        rw (one, read-entry arr beg (omega (arith, s.fits)), ◌>>=◌)
          (yields (record {
            attains = (beg, 0, omega arith, span-one arr beg, refl, ap some (only beg end lt one));
            upper = λ i r bi h. alone beg i r (ground arith) (ground arith);
          }))
    | inl more ↦ rw more (
        let mid = (beg + end) / 2 in
        let inside : mid < n = ground arith in
        Yields-bind (maxsubarr-Best k beg mid (ground arith) (ground arith) (ground arith))
          (λ left l.
            Yields-bind (maxsubarr-Best k mid end (ground arith) le (ground arith)) (λ right r.
              Yields-bind
                (maxcross-Crossing arr n s mid inside beg end (ground arith) (ground arith) le)
                (λ middle m. yields (largest-Best beg mid end inside left right middle l r m)))))
  ]
    where
      only : (beg end : ℕ) → beg < end → ltb (beg + 1) end ≡ false → end - 1 ≡ beg + 0
      only beg end lt e = ground arith

  -- dmaxsubarray ends, `max` is the largest sum of a subarray, and `left` and `right` are where it is.
  dmaxsubarray-IsUpper :
      0 < n → Yields (λ sub. Attains arr n sub × IsUpper arr n sub.max) (dmaxsubarray arr n)
  unfolding dmaxsubarray
  dmaxsubarray-IsUpper some_entry =
      Yields-weaken (maxsubarr-Best (n + 1) 0 n some_entry (omega arith) (omega arith))
        (λ sub b. (b.attains, λ i r lt. b.upper i r (omega arith) lt))

  -- Where the array has an entry and no sum of its stretches overflows, the three algorithms end with
  -- the same `max`: the largest sum of a stretch, which dmaxsubarray's `left` and `right` delimit.
  pub maxsubarray-agree :
      0 < n
      → (d l b : Subarr) × (dmaxsubarray arr n ≡ ok d)
        × (lmaxsubarray arr n ≡ ok l)
        × (bmaxsubarray arr n ≡ ok b)
        × (d.max ≡ l.max)
        × (l.max ≡ b.max)
        × Attains arr n d
        × IsUpper arr n d.max
  maxsubarray-agree some_entry =
      let (d, run_d, ((i, r, lt, e, pl, pr), ud)) =
        Yields-value (dmaxsubarray-IsUpper some_entry) in
      let (l, run_l, ((i', r', lt', e', pl', pr'), ul)) =
        Yields-value (lmaxsubarray-IsUpper arr n s some_entry) in
      let (b, run_b, (ab, ub)) = Yields-value (bmaxsubarray-IsUpper arr n s some_entry) in
      (
        d,
        l,
        b,
        run_d,
        run_l,
        run_b,
        IsUpper-unique arr n d.max l.max (i, r, lt, e) ud (i', r', lt', e') ul,
        IsUpper-unique arr n l.max b.max (i', r', lt', e') ul ab ub,
        (i, r, lt, e, pl, pr),
        ud,
      )
