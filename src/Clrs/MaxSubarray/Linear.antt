-- ===== src/Clrs/MaxSubarray/Linear.antt =====
-- The linear algorithm: the second loop, and the choice between the two.
use mathlib.Core.Path.{subst}
use native.Mathlib.Decide.{dec_lt}
use code_learning.Base.{
  ℕ, zero, suc, ◌+◌, ◌<◌, ◌≡◌, refl, sym, ap, ◌⊎◌, arith, Bool, if◌then◌else◌, List, some, ok,
  ◌>>=◌, Yields, yields, Yields-bind, Yields-weaken, Bool-cases, inl, inr,
}
use code_learning.Base.Int.{ℤ, pos, ◌≤ℤ◌, ◌<ℤ◌, ltb_ℤ, pos_part, neg_part, int_laws}
use code_learning.Clrs.MaxSubarray.{Subarr, sweep, lmaxsubarray}
use code_learning.Clrs.MaxSubarray.Spans.{
  entry, span, IsSummable, Attains, IsUpper, add-span, plus_none, plus_next, read-entry, span-one,
}
use code_learning.Clrs.MaxSubarray.Scan.{
  Scanned, positive, largest_entry, IsUpper-of_largest, scan_start,
}

module _ (arr : List ℤ) (n : ℕ) (s : IsSummable arr n) where
  -- a longer stretch that ends with the same entry
  ends :
      (l d p c : ℕ)
      → ((p c : ℕ) → p + c ≡ l + d → span arr p c ≤ℤ span arr l d)
      → p + c ≡ l + d
      → span arr p (suc c) ≤ℤ span arr l (suc d)
  unfolding span
  ends l d p c suffix e = omega (
    int_laws,
    suffix p c e,
    ap (λ j. pos_part (entry arr j)) e,
    ap (λ j. neg_part (entry arr j)) e,
  )

  abbrev Passed : (t : ℕ) (m : ℤ) → Type 0
  Passed t m = (p c : ℕ) → p + c < t → (span arr p (suc c) ≤ℤ m) ⊎ (span arr p (suc c) ≤ℤ pos 0)

  -- the stretches that end before the next entry, and those that end with it
  Passed-next :
      (t : ℕ) (m m' : ℤ)
      → m ≤ℤ m'
      → Passed t m
      → ((p c : ℕ) → p + c ≡ t → (span arr p (suc c) ≤ℤ m') ⊎ (span arr p (suc c) ≤ℤ pos 0))
      → Passed (suc t) m'
  Passed-next t m m' le passed new p c lt = elim (dec_lt (p + c) t) [
    | yes h ↦ elim (passed p c h) [ inl a ↦ inl (omega arith) | inr b ↦ inr b ]
    | no h ↦ new p c (omega arith)
  ]

  -- the comparison with the best sum so far
  sweep_entry :
      (l d : ℕ) (sub : Subarr)
      → l + d < n
      → Attains arr n sub
      → (sub₁ : Subarr) × (sub₁ ≡ (
          if ltb_ℤ (span arr l (suc d)) sub.max
          then sub
          else record { left = some l; right = some (l + d); max = span arr l (suc d) }))
        × Attains arr n sub₁
        × (sub.max ≤ℤ sub₁.max)
        × (span arr l (suc d) ≤ℤ sub₁.max)
  sweep_entry l d sub lt at = elim (Bool-cases (ltb_ℤ (span arr l (suc d)) sub.max)) [
    | inl less ↦ (sub, rw less refl, at, omega arith, ground arith)
    | inr more ↦ (
      record { left = some l; right = some (l + d); max = span arr l (suc d) },
      rw more refl,
      (l, d, lt, refl, refl, refl),
      ground arith,
      omega arith,
    )
  ]

  -- stretches of any length, the empty ones included
  suffix-next :
      (t : ℕ) (m : ℤ)
      → pos 0 ≤ℤ m
      → ((p c : ℕ) → p + c ≡ t → span arr p (suc c) ≤ℤ m)
      → (p c : ℕ) → p + c ≡ suc t
      → span arr p c ≤ℤ m
  unfolding span
  suffix-next t m h long p zero e = h
  suffix-next t m h long p (suc c) e = long p c (omega arith)

  from_here :
      (P : Subarr → Type 0) (r q : ℕ) (sub : Subarr)
      → Yields P (sweep r arr q (q + 0) (span arr q 0) sub)
      → Yields P (sweep r arr q q (pos 0) sub)
  unfolding span
  from_here P r q sub h = subst (λ j. Yields P (sweep r arr q j (pos 0) sub)) (plus_none q) h

  -- an empty stretch
  span-none : (i : ℕ) → span arr i 0 ≡ pos 0
  unfolding span
  span-none i = refl

  abbrev Swept : Subarr → Type 0
  Swept sub = Attains arr n sub × Passed n sub.max

  sweep-Swept :
      (r l d : ℕ) (sub : Subarr)
      → l + d + r ≡ n
      → ((p c : ℕ) → p + c ≡ l + d → span arr p c ≤ℤ span arr l d)
      → Attains arr n sub
      → Passed (l + d) sub.max
      → Yields Swept (sweep r arr l (l + d) (span arr l d) sub)
  unfolding sweep
  sweep-Swept zero l d sub e suffix at passed = yields (at, λ p c lt. passed p c (omega arith))
  sweep-Swept (suc r) l d sub e suffix at passed =
      let (sub₁, e₁, at₁, grown, above) = sweep_entry l d sub (omega arith) at in
      let next = λ (p : ℕ) (c : ℕ) (h : p + c ≡ l + d). ends l d p c suffix h in
      rw (read-entry arr (l + d) (omega (arith, s.fits)), ◌>>=◌, add-span arr n l d s (omega arith))
        (elim (Bool-cases (ltb_ℤ (pos 0) (span arr l (suc d)))) [
          | inl plus ↦
              rw (plus, sym e₁, plus_next l d)
                (sweep-Swept r l (suc d) sub₁ (omega arith)
                  (λ p c h.
                    suffix-next (l + d) (span arr l (suc d)) (ground arith) next p c (omega arith))
                  at₁
                  (λ p c lt.
                    Passed-next (l + d) sub.max sub₁.max grown passed
                      (λ p c h. inl (omega (arith, next p c h))) p c (omega arith)))
          | inr minus ↦ rw minus (
              from_here Swept r (l + d + 1) sub (
                sweep-Swept r (l + d + 1) 0 sub (omega arith)
                  (λ p c h. rw (span-none (l + d + 1)) (
                    suffix-next (l + d) (pos 0) (omega arith) (λ p c h. ground (arith, next p c h))
                      p c (omega arith)))
                  at
                  (λ p c lt.
                    Passed-next (l + d) sub.max sub.max (omega arith) passed
                      (λ p c h. inr (ground (arith, next p c h))) p c (omega arith))))
        ])

  -- a positive entry is above none
  IsUpper-of_positive :
      (sub : Subarr) (k : ℕ) → k < n → (pos 0 <ℤ entry arr k) → Swept sub → IsUpper arr n sub.max
  IsUpper-of_positive sub k lt plus (at, passed) i r lt' = elim (passed k 0 (omega arith)) [
    | inl a ↦ elim (passed i r lt') [
      | inl b ↦ b
      | inr b ↦ omega (arith, ap pos_part (span-one arr k), ap neg_part (span-one arr k))
    ]
    | inr a ↦ absurd (omega (arith, ap pos_part (span-one arr k), ap neg_part (span-one arr k)))
  ]

  only_empty : (p c : ℕ) → p + c ≡ 0 + 0 → span arr p c ≤ℤ span arr 0 0
  unfolding span
  only_empty p zero e = omega arith
  only_empty p (suc c) e = absurd (omega arith)

  -- the second loop, where the scan asks for it
  chosen :
      0 < n
      → (found : Bool × Subarr) → Scanned arr n s found
      → Yields
          (λ sub. Attains arr n sub × IsUpper arr n sub.max)
          (if found.0
            then sweep n arr 0 0
                (pos 0)
                (record { left = some 0; right = some 0; max = entry arr 0 })
            else ok found.1)
  chosen h found (largest_entry sub at up) = yields (at, IsUpper-of_largest arr n s sub.max up)
  chosen h found (positive sub k lt plus) =
      Yields-weaken
        (from_here Swept n 0 (record { left = some 0; right = some 0; max = entry arr 0 })
          (sweep-Swept n 0 0 (record { left = some 0; right = some 0; max = entry arr 0 })
            (omega arith) (λ p c e. only_empty p c e) (0, 0, h, span-one arr 0, refl, refl)
            (λ p c l. absurd (omega arith))))
        (λ sub' swept. (swept.0, IsUpper-of_positive sub' k lt plus swept))

  -- lmaxsubarray ends, `max` is the largest sum of a subarray, and `left` and `right` are where it is.
  pub lmaxsubarray-IsUpper :
      0 < n → Yields (λ sub. Attains arr n sub × IsUpper arr n sub.max) (lmaxsubarray arr n)
  unfolding lmaxsubarray
  lmaxsubarray-IsUpper some_entry =
      rw (read-entry arr 0 (omega (arith, s.fits)), ◌>>=◌)
        (Yields-bind (scan_start arr n s n refl some_entry) (λ found f. chosen some_entry found f))
