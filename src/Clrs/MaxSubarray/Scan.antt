-- ===== src/Clrs/MaxSubarray/Scan.antt =====
-- The first loop of the linear algorithm: a positive entry or the largest of the entries.
use code_learning.Base.{
  ℕ, zero, suc, ◌+◌, ◌<◌, ◌≡◌, refl, sym, ap, arith, Bool, true, false, if◌then◌else◌, List, none,
  some, ◌>>=◌, Yields, yields, Bool-cases, inl, inr,
}
use code_learning.Base.Int.{ℤ, pos, ◌≤ℤ◌, ◌<ℤ◌, ltb_ℤ, int_laws}
use code_learning.Clrs.MaxSubarray.{Subarr, scan}
use code_learning.Clrs.MaxSubarray.Spans.{
  entry, span, IsSummable, Attains, IsUpper, plus_none, below_suc, read-entry, span-one,
}

module _ (arr : List ℤ) (n : ℕ) (s : IsSummable arr n) where
  -- the scan finds a positive entry, or the largest of the entries
  pub data Scanned : Bool × Subarr → Type 0 where
    positive : (sub : Subarr) (k : ℕ) → k < n → (pos 0 <ℤ entry arr k) → Scanned (true, sub)
    largest_entry :
        (sub : Subarr)
        → Attains arr n sub
        → ((k : ℕ) → k < n → (entry arr k ≤ℤ sub.max) × (entry arr k ≤ℤ pos 0))
        → Scanned (false, sub)

  -- one entry that is not positive
  scan_entry :
      (i : ℕ) (sub : Subarr)
      → i < n
      → Attains arr n sub
      → ltb_ℤ (pos 0) (entry arr i) ≡ false
      → ((k : ℕ) → k < i → (entry arr k ≤ℤ sub.max) × (entry arr k ≤ℤ pos 0))
      → (sub₁ : Subarr) × (sub₁ ≡ (
          if ltb_ℤ (entry arr i) sub.max
          then sub
          else record { left = some i; right = some i; max = entry arr i }))
        × Attains arr n sub₁
        × ((k : ℕ) → k < suc i → (entry arr k ≤ℤ sub₁.max) × (entry arr k ≤ℤ pos 0))
  scan_entry i sub lt at neg up = elim (Bool-cases (ltb_ℤ (entry arr i) sub.max)) [
    | inl less ↦ (
      sub,
      rw less refl,
      at,
      below_suc (λ k. (entry arr k ≤ℤ sub.max) × (entry arr k ≤ℤ pos 0)) i
          (ground arith, ground arith) up,
    )
    | inr more ↦ (
      record { left = some i; right = some i; max = entry arr i },
      rw more refl,
      (i, 0, omega arith, span-one arr i, refl, ap some (sym (plus_none i))),
      below_suc (λ k. (entry arr k ≤ℤ entry arr i) × (entry arr k ≤ℤ pos 0)) i
          (omega arith, ground arith) (λ k lk. (ground (arith, up k lk), (up k lk).1)),
    )
  ]

  scan-Scanned :
      (r i : ℕ) (sub : Subarr)
      → i + r ≡ n
      → Attains arr n sub
      → ((k : ℕ) → k < i → (entry arr k ≤ℤ sub.max) × (entry arr k ≤ℤ pos 0))
      → Yields Scanned (scan r arr i sub)
  unfolding scan
  scan-Scanned zero i sub e at up = yields (largest_entry sub at (λ k lt. up k (omega arith)))
  scan-Scanned (suc r) i sub e at up =
      rw (read-entry arr i (omega (arith, s.fits)), ◌>>=◌)
        (elim (Bool-cases (ltb_ℤ (pos 0) (entry arr i))) [
          | inl plus ↦ rw plus (yields (positive sub i (omega arith) (ground arith)))
          | inr minus ↦
              let (sub₁, e₁, at₁, up₁) = scan_entry i sub (omega arith) at minus up in
              rw (minus, sym e₁)
                (scan-Scanned r (i + 1) sub₁ (omega arith) at₁ (λ k lt. up₁ k (omega arith)))
        ])

  span-last :
      (i r : ℕ)
      → ((k : ℕ) → k < n → entry arr k ≤ℤ pos 0)
      → i + r < n
      → (span arr i (suc r) ≤ℤ entry arr (i + r))
  unfolding span
  span-last i zero h lt = omega int_laws
  span-last i (suc r) h lt =
      omega (int_laws, span-last i r h (omega arith), h (i + r) (omega arith))

  -- no sum of entries that are not positive is above the largest entry
  pub IsUpper-of_largest :
      (m : ℤ) → ((k : ℕ) → k < n → (entry arr k ≤ℤ m) × (entry arr k ≤ℤ pos 0)) → IsUpper arr n m
  IsUpper-of_largest m h i r lt =
      omega (arith, span-last i r (λ k lk. (h k lk).1) lt, (h (i + r) lt).0)

  pub scan_start :
      (r : ℕ)
      → r ≡ n
      → 0 < n
      → Yields Scanned (scan r arr 0 (record { left = none; right = none; max = entry arr 0 }))
  unfolding scan
  scan_start zero e h = absurd (omega arith)
  scan_start (suc r) e h =
      rw (read-entry arr 0 (omega (arith, s.fits)), ◌>>=◌)
        (elim (Bool-cases (ltb_ℤ (pos 0) (entry arr 0))) [
          | inl plus ↦ rw plus (yields (positive _ 0 h (ground arith)))
          | inr minus ↦
              rw (minus, itself (entry arr 0))
                (scan-Scanned r (0 + 1)
                  (record { left = some 0; right = some 0; max = entry arr 0 }) (omega arith)
                  (0, 0, omega arith, span-one arr 0, refl, refl)
                  (λ k lk.
                    below_suc (λ k. (entry arr k ≤ℤ entry arr 0) × (entry arr k ≤ℤ pos 0)) 0
                      (omega arith, ground arith) (λ d ld. absurd (omega arith)) k (omega arith)))
        ])
    where
      itself : (x : ℤ) → ltb_ℤ x x ≡ false
      itself x = ground arith
