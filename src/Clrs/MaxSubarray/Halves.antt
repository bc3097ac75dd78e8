-- ===== src/Clrs/MaxSubarray/Halves.antt =====
-- The two loops over the middle: the largest sum of a stretch that ends there, and of one that starts
-- there.
use mathlib.Core.Path.{subst}
use native.Mathlib.Decide.{dec_lt}
use code_learning.Base.{
  ℕ, zero, suc, ◌+◌, ◌≤◌, ◌<◌, ◌≡◌, refl, sym, ap, ◌∙◌, arith, List, ok, ◌>>=◌, Yields, yields,
  Bool-cases, inl, inr,
}
use code_learning.Base.Int.{ℤ, ◌+ℤ◌, ◌≤ℤ◌, ltb_ℤ}
use code_learning.Clrs.MaxSubarray.{add, cross_left, cross_right}
use code_learning.Clrs.MaxSubarray.Spans.{
  entry, span, IsSummable, add-ok, add-span, plus_next, below_suc, read-entry, span-front,
}

module _ (arr : List ℤ) (n : ℕ) (s : IsSummable arr n) (mid : ℕ) (inside : mid < n) where
  -- the largest sum of a stretch that ends before `mid` and starts from `i` on, and where it starts
  pub record LeftMost (i : ℕ) (r : ℤ × ℕ) : Type 0 where
    pub count : ℕ
    pub ends : r.1 + suc count ≡ mid
    pub sum : span arr (r.1) (suc count) ≡ r.0
    pub upper : (p c : ℕ) → i ≤ p → p + suc c ≡ mid → span arr p (suc c) ≤ℤ r.0

  -- the largest sum of up to `u` of the `k` entries from `mid` on, and where it ends
  pub record RightMost (k u : ℕ) (r : ℤ × ℕ) : Type 0 where
    pub count : ℕ
    pub within : count < k
    pub ends : r.1 ≡ mid + count
    pub sum : span arr mid (suc count) ≡ r.0
    pub upper : (c : ℕ) → c < u → span arr mid (suc c) ≤ℤ r.0

  add-front :
      (i d : ℕ) → suc i + d ≡ mid → add (span arr (suc i) d) (entry arr i) ≡ ok (span arr i (suc d))
  add-front i d e =
      let same : span arr i (suc d) ≡ span arr (suc i) d +ℤ entry arr i =
        span-front arr i d ∙ ap (λ j. span arr j d +ℤ entry arr i) (one_more i) in
      rw
        (add-ok (span arr (suc i) d) (entry arr i)
          (rw (sym same) (s.in_range i (suc d) (omega arith))))
        (ap ok (sym same))
    where
      one_more : (i : ℕ) → i + 1 ≡ suc i
      one_more i = omega arith

  -- the stretches that start from `i` on, where one starts at `i`
  from_next :
      (i d : ℕ) (m : ℤ)
      → suc i + d ≡ mid
      → span arr i (suc d) ≤ℤ m
      → ((p c : ℕ) → suc i ≤ p → p + suc c ≡ mid → span arr p (suc c) ≤ℤ m)
      → (p c : ℕ) → i ≤ p
      → p + suc c ≡ mid
      → span arr p (suc c) ≤ℤ m
  from_next i d m e here later p c le ends = elim (dec_lt i p) [
    | yes lt ↦ later p c lt ends
    | no ge ↦
        subst (λ j. span arr j (suc c) ≤ℤ m) (omega arith)
          (subst (λ j. span arr i (suc j) ≤ℤ m) (omega arith) here)
  ]

  pub cross_left-LeftMost :
      (i d : ℕ) (m : ℤ) (left : ℕ)
      → i + d ≡ mid
      → LeftMost i (m, left)
      → Yields (LeftMost 0) (cross_left i arr (span arr i d) m left)
  unfolding cross_left
  cross_left-LeftMost zero d m left e f = yields f
  cross_left-LeftMost (suc i) d m left e f =
      rw (read-entry arr i (omega (arith, s.fits)), ◌>>=◌, add-front i d e)
        (elim (Bool-cases (ltb_ℤ m (span arr i (suc d)))) [
          | inl more ↦ rw more (
              cross_left-LeftMost i (suc d) (span arr i (suc d)) i (omega arith) (record {
                count = d;
                ends = omega arith;
                sum = refl;
                upper =
                    from_next i d (span arr i (suc d)) e (omega arith)
                      (λ p c le h. ground (arith, f.upper p c le h));
              }))
          | inr less ↦ rw less (
              cross_left-LeftMost i (suc d) m left (omega arith) (record {
                count = f.count;
                ends = f.ends;
                sum = f.sum;
                upper = from_next i d m e (ground arith) f.upper;
              }))
        ])

  pub cross_right-RightMost :
      (r c : ℕ) (m : ℤ) (right k : ℕ)
      → c + r ≡ k
      → mid + k ≤ n
      → RightMost k c (m, right)
      → Yields (RightMost k k) (cross_right r arr (mid + c) (span arr mid c) m right)
  unfolding cross_right
  cross_right-RightMost zero c m right k e le f = yields (record {
    count = f.count;
    within = f.within;
    ends = f.ends;
    sum = f.sum;
    upper = λ c' lt. f.upper c' (omega arith);
  })
  cross_right-RightMost (suc r) c m right k e le f =
      rw
        (
          read-entry arr (mid + c) (omega (arith, s.fits)),
          ◌>>=◌,
          add-span arr n mid c s (omega arith),
          plus_next mid c,
        )
        (elim (Bool-cases (ltb_ℤ m (span arr mid (suc c)))) [
          | inl more ↦ rw more (
              cross_right-RightMost r (suc c) (span arr mid (suc c)) (mid + c) k (omega arith) le
                (record {
                  count = c;
                  within = omega arith;
                  ends = refl;
                  sum = refl;
                  upper =
                      below_suc (λ d. span arr mid (suc d) ≤ℤ span arr mid (suc c)) c (omega arith)
                        (λ d ld. ground (arith, f.upper d ld));
                }))
          | inr less ↦ rw less (
              cross_right-RightMost r (suc c) m right k (omega arith) le (record {
                count = f.count;
                within = f.within;
                ends = f.ends;
                sum = f.sum;
                upper = below_suc (λ d. span arr mid (suc d) ≤ℤ m) c (ground arith) f.upper;
              }))
        ])
