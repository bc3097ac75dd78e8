-- ===== src/Tests/MaxSubarrays.antt =====
-- The maximum subarray on concrete arrays.
use code_learning.Base.{
  ℕ, zero, suc, ◌+◌, ◌≤◌, ◌≡◌, refl, List, [], ◌∷◌, arith, none, some, ok, read, get_or,
}
use code_learning.Base.Int.{ℤ, pos, negsuc, ◌+ℤ◌}
use code_learning.Clrs.MaxSubarray.{
  Subarr, add, brute_inner, brute_outer, bmaxsubarray, scan, sweep, lmaxsubarray, cross_left,
  cross_right, maxcross, largest, maxsubarr, dmaxsubarray,
}
use code_learning.Clrs.MaxSubarray.Spans.{entry, span, IsSummable, IsInt, Attains, IsUpper}
use code_learning.Clrs.MaxSubarray.Results.{maxsubarray-agree}

-- 2, -3 and 4
abbrev mixed_signs : List ℤ
mixed_signs = pos 2 ∷ negsuc 2 ∷ pos 4 ∷ []

dmaxsubarray_run :
    dmaxsubarray mixed_signs 3 ≡ ok (record { left = some 2; right = some 2; max = pos 4 })
unfolding dmaxsubarray maxsubarr maxcross cross_left cross_right largest add read ◌+ℤ◌
dmaxsubarray_run = refl

lmaxsubarray_run :
    lmaxsubarray mixed_signs 3 ≡ ok (record { left = some 2; right = some 2; max = pos 4 })
unfolding lmaxsubarray scan sweep add read ◌+ℤ◌
lmaxsubarray_run = refl

-- where the first entry is the largest sum, the places are not set
bmaxsubarray_unset :
    bmaxsubarray (pos 2 ∷ negsuc 2 ∷ []) 2 ≡ ok (record { left = none; right = none; max = pos 2 })
unfolding bmaxsubarray brute_outer brute_inner add read ◌+ℤ◌
bmaxsubarray_unset = refl

mixed_signs-IsSummable : IsSummable mixed_signs 3
unfolding span entry get_or ◌+ℤ◌
mixed_signs-IsSummable = record { fits = omega arith; in_range = bounded }
  where
    bounded : (i r : ℕ) → i + r ≤ 3 → IsInt (span mixed_signs i r)
    bounded i zero le = (omega arith, omega arith)
    bounded zero (suc zero) le = (omega arith, omega arith)
    bounded zero (suc (suc zero)) le = (omega arith, omega arith)
    bounded zero (suc (suc (suc zero))) le = (omega arith, omega arith)
    bounded zero (suc (suc (suc (suc r)))) le = absurd (omega arith)
    bounded (suc zero) (suc zero) le = (omega arith, omega arith)
    bounded (suc zero) (suc (suc zero)) le = (omega arith, omega arith)
    bounded (suc zero) (suc (suc (suc r))) le = absurd (omega arith)
    bounded (suc (suc zero)) (suc zero) le = (omega arith, omega arith)
    bounded (suc (suc zero)) (suc (suc r)) le = absurd (omega arith)
    bounded (suc (suc (suc i))) (suc r) le = absurd (omega arith)

maxsubarray-agree_example :
    (d l b : Subarr) × (dmaxsubarray mixed_signs 3 ≡ ok d)
    × (lmaxsubarray mixed_signs 3 ≡ ok l)
    × (bmaxsubarray mixed_signs 3 ≡ ok b)
    × (d.max ≡ l.max)
    × (l.max ≡ b.max)
    × Attains mixed_signs 3 d
    × IsUpper mixed_signs 3 d.max
maxsubarray-agree_example = maxsubarray-agree mixed_signs 3 mixed_signs-IsSummable (omega arith)
