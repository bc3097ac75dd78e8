-- ===== src/Clrs/QuickSort/Scans.antt =====
-- The inner loops of `quicksort`: where `j` and `i` stop.
use code_learning.Base.{
  ℕ, zero, suc, ◌+◌, ◌≤◌, ◌<◌, ◌≡◌, ltb, leb, List, arith, length, ◌!◌, read-ok, ◌>>=◌, Yields,
  yields, Yields-weaken, Bool-cases, inl, inr,
}
use code_learning.Clrs.QuickSort.{move_down, move_up}

-- where `j` stops
pub record Lowered (a : List ℕ) (tmp i j j₁ : ℕ) : Type 0 where
  pub above : i ≤ j₁
  pub below : j₁ ≤ j
  pub passed : (q : ℕ) → j₁ < q → q ≤ j → tmp ≤ a ! q
  pub small : i < j₁ → a ! j₁ ≤ tmp

pub move_down-Lowered :
    (a : List ℕ) (tmp i j : ℕ)
    → i ≤ j
    → j < length a
    → Yields (Lowered a tmp i j) (move_down a tmp i j)
unfolding move_down
move_down-Lowered a tmp i zero le lt = yields (record {
  above = le;
  below = omega arith;
  passed = λ q l h. absurd (omega arith);
  small = λ l. absurd (omega arith);
})
move_down-Lowered a tmp i (suc j) le lt = elim (Bool-cases (ltb i (suc j))) [
  | inr e ↦ rw e (
      yields (record {
        above = le;
        below = omega arith;
        passed = λ q l h. absurd (omega arith);
        small = λ l. absurd (ground arith);
      }))
  | inl e ↦
      rw (e, read-ok a (suc j) lt, ◌>>=◌)
        (elim (Bool-cases (leb tmp (a ! suc j))) [
          | inr small ↦ rw small (
              yields (record {
                above = le;
                below = omega arith;
                passed = λ q l h. absurd (omega arith);
                small = λ l. ground arith;
              }))
          | inl big ↦ rw big (
              Yields-weaken (move_down-Lowered a tmp i j (ground arith) (omega arith)) (λ j₁ f.
                record {
                  above = f.above;
                  below = omega (arith, f.below);
                  passed = λ q l h. ground (arith, f.passed q);
                  small = f.small;
                }))
        ])
]

-- where `i` stops
pub record Raised (a : List ℕ) (tmp i j i₂ : ℕ) : Type 0 where
  pub above : i ≤ i₂
  pub below : i₂ ≤ j
  pub passed : (p : ℕ) → i ≤ p → p < i₂ → a ! p ≤ tmp
  pub big : i₂ < j → tmp ≤ a ! i₂

pub move_up-Raised :
    (r : ℕ) (a : List ℕ) (tmp i j : ℕ)
    → j ≡ i + r
    → j < length a
    → Yields (Raised a tmp i j) (move_up r a tmp i)
unfolding move_up
move_up-Raised zero a tmp i j e lt = yields (record {
  above = omega arith;
  below = omega arith;
  passed = λ p l h. absurd (omega arith);
  big = λ l. absurd (omega arith);
})
move_up-Raised (suc r) a tmp i j e lt =
    rw (read-ok a i (omega arith), ◌>>=◌)
      (elim (Bool-cases (leb (a ! i) tmp)) [
        | inr big ↦ rw big (
            yields (record {
              above = omega arith;
              below = omega arith;
              passed = λ p l h. absurd (omega arith);
              big = λ l. ground arith;
            }))
        | inl small ↦ rw small (
            Yields-weaken (move_up-Raised r a tmp (i + 1) j (omega arith) lt) (λ i₂ f. record {
              above = omega (arith, f.above);
              below = f.below;
              passed = λ p l h. ground (arith, f.passed p);
              big = f.big;
            }))
      ])
