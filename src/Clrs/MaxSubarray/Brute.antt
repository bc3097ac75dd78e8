-- ===== src/Clrs/MaxSubarray/Brute.antt =====
-- The brute-force algorithm.
use mathlib.Core.Path.{subst}
use code_learning.Base.{
  ℕ, zero, suc, ◌+◌, ◌<◌, ◌≡◌, refl, arith, List, none, some, ◌>>=◌, Yields, yields, Yields-bind,
  Yields-weaken, Bool-cases, inl, inr,
}
use code_learning.Base.Int.{ℤ, pos, ◌≤ℤ◌, ltb_ℤ}
use code_learning.Clrs.MaxSubarray.{Subarr, brute_inner, brute_outer, bmaxsubarray}
use code_learning.Clrs.MaxSubarray.Spans.{
  entry, span, IsSummable, Attained, IsUpper, add-span, plus_none, plus_next, below_suc,
  first_entry, read-entry,
}

record Raised (arr : List ℤ) (n i c : ℕ) (sub sub' : Subarr) : Type 0 where
  attained : Attained arr n sub'.max
  grown : sub.max ≤ℤ sub'.max
  upper : (c' : ℕ) → c' < c → span arr i (suc c') ≤ℤ sub'.max

module _ (arr : List ℤ) (n : ℕ) (s : IsSummable arr n) where
  brute_inner-Raised :
      (r i c : ℕ) (sub : Subarr)
      → i + c + r ≡ n
      → Attained arr n sub.max
      → ((c' : ℕ) → c' < c → span arr i (suc c') ≤ℤ sub.max)
      → Yields (Raised arr n i (c + r) sub) (brute_inner r arr i (i + c) (span arr i c) sub)
  unfolding brute_inner
  brute_inner-Raised zero i c sub e at up =
      yields (record { attained = at; grown = omega arith; upper = λ c' lt. up c' (omega arith) })
  brute_inner-Raised (suc r) i c sub e at up =
      rw
        (
          read-entry arr (i + c) (omega (arith, s.fits)),
          ◌>>=◌,
          add-span arr n i c s (omega arith),
          plus_next i c,
        )
        (elim (Bool-cases (ltb_ℤ sub.max (span arr i (suc c)))) [
          | inl more ↦ rw more (
              Yields-weaken
                (brute_inner-Raised r i (suc c)
                  (record { left = some i; right = some (i + c); max = span arr i (suc c) })
                  (omega arith) (i, c, omega arith, refl)
                  (below_suc (λ d. span arr i (suc d) ≤ℤ span arr i (suc c)) c (omega arith)
                    (λ d lt. ground (arith, up d))))
                (λ sub' f. record {
                  attained = f.attained;
                  grown = ground (arith, f.grown);
                  upper = λ c' lt. f.upper c' (omega arith);
                }))
          | inr less ↦ rw less (
              Yields-weaken
                (brute_inner-Raised r i (suc c) sub (omega arith) at
                  (below_suc (λ d. span arr i (suc d) ≤ℤ sub.max) c (ground arith) up))
                (λ sub' f. record {
                  attained = f.attained;
                  grown = f.grown;
                  upper = λ c' lt. f.upper c' (omega arith);
                }))
        ])

  inner :
      (r i : ℕ) (sub : Subarr)
      → i + suc r ≡ n
      → Attained arr n sub.max
      → Yields (Raised arr n i (0 + suc r) sub) (brute_inner (suc r) arr i i (pos 0) sub)
  unfolding span
  inner r i sub e at =
      subst (λ j. Yields (Raised arr n i (0 + suc r) sub) (brute_inner (suc r) arr i j (pos 0) sub))
        (plus_none i)
        (brute_inner-Raised (suc r) i 0 sub (omega arith) at (λ c lt. absurd (omega arith)))

  brute_outer-IsUpper :
      (r i : ℕ) (sub : Subarr)
      → i + r ≡ n
      → Attained arr n sub.max
      → ((p c : ℕ) → p < i → p + c < n → span arr p (suc c) ≤ℤ sub.max)
      → Yields (λ sub'. Attained arr n sub'.max × IsUpper arr n sub'.max) (brute_outer r arr i sub)
  unfolding brute_outer
  brute_outer-IsUpper zero i sub e at up = yields (at, λ p c lt. up p c (omega arith) lt)
  brute_outer-IsUpper (suc r) i sub e at up = Yields-bind (inner r i sub e at) (λ sub₁ f.
      brute_outer-IsUpper r (i + 1) sub₁ (omega arith) f.attained (λ p c lt.
        below_suc (λ p. (c : ℕ) → p + c < n → span arr p (suc c) ≤ℤ sub₁.max) i
          (λ c lt'. f.upper c (omega arith)) (λ d ld c lt'. omega (arith, f.grown, up d c ld lt')) p
          (omega arith) c))

  -- bmaxsubarray ends, and `max` is the largest sum of a subarray.
  pub bmaxsubarray-IsUpper :
      0 < n → Yields (λ sub. Attained arr n sub.max × IsUpper arr n sub.max) (bmaxsubarray arr n)
  unfolding bmaxsubarray
  bmaxsubarray-IsUpper some_entry =
      rw (read-entry arr 0 (omega (arith, s.fits)), ◌>>=◌)
        (brute_outer-IsUpper n 0 (record { left = none; right = none; max = entry arr 0 })
          (omega arith) (first_entry arr n some_entry) (λ p c lt. absurd (omega arith)))
