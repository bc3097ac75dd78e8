-- ===== src/Base/Exchange.antt =====
-- Two entries of an array trade places.
use Prim.Native.Nat.{ℕ, ◌<◌}
use mathlib.Core.Bool.{false}
use mathlib.Core.Path.{◌≡◌, ◌∙◌}
use mathlib.Core.List.{List}
use native.Mathlib.Omega.{arith}
use code_learning.Base.Tests.{◌==◌, if◌then◌else◌}
use code_learning.Base.Lists.{
  length, set, length-set, list_ext, ◌!◌, !-set, same, count-set, SameCounts,
}

unfoldable pub exchange : List ℕ → ℕ → ℕ → List ℕ
exchange a i j = set (set a i (a ! j)) j (a ! i)

pub length-exchange : (a : List ℕ) (i j : ℕ) → length (exchange a i j) ≡ length a
unfolding exchange
length-exchange a i j = length-set (set a i (a ! j)) j (a ! i) ∙ length-set a i (a ! j)

module _ (a : List ℕ) (i j : ℕ) (hi : i < length a) (hj : j < length a) where
  pub !-exchange :
      (p : ℕ) → exchange a i j ! p ≡ (if j == p then a ! i else if i == p then a ! j else a ! p)
  unfolding exchange
  !-exchange p =
      ground
        (arith, !-set (set a i (a ! j)) j p (a ! i), length-set a i (a ! j), !-set a i p (a ! j) hi)

  pub count-exchange : SameCounts (exchange a i j) a
  unfolding exchange
  count-exchange v =
      let b = set a i (a ! j) in
      omega (
        arith,
        count-set v b j (a ! i) (omega (arith, length-set a i (a ! j))),
        kept,
        count-set v a i (a ! j) hi,
      )
    where
      kept : same v (set a i (a ! j) ! j) ≡ same v (a ! j)
      kept = ground (arith, !-set a i j (a ! j) hi)

-- the moved hole is an exchange of the array that has `tmp` in it
pub set-exchange :
    (a : List ℕ) (tmp i c : ℕ)
    → i < length a
    → c < length a
    → (i == c) ≡ false
    → set (set a i (a ! c)) c tmp ≡ exchange (set a i tmp) i c
set-exchange a tmp i c hi hc ne =
    list_ext _ _
      (omega (
        arith,
        length-set (set a i (a ! c)) c tmp,
        length-set a i (a ! c),
        length-exchange (set a i tmp) i c,
        length-set a i tmp,
      ))
      (λ p lt. ground (
        arith,
        !-set (set a i (a ! c)) c p tmp,
        length-set a i (a ! c),
        !-set a i p (a ! c) hi,
        length-set a i tmp,
        !-exchange (set a i tmp) i c (omega (arith, length-set a i tmp))
            (omega (arith, length-set a i tmp)) p,
        !-set a i p tmp hi,
        !-set a i c tmp hi,
        !-set a i i tmp hi,
      ))

-- a write of what is there
pub set-same : (a : List ℕ) (i : ℕ) → i < length a → set a i (a ! i) ≡ a
set-same a i h =
    list_ext _ _ (length-set a i (a ! i)) (λ p lt. ground (arith, !-set a i p (a ! i) h))
