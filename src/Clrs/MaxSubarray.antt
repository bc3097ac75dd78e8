-- ===== src/Clrs/MaxSubarray.antt =====
-- clrs/exercises/04.1.3maxsubarray.c: the largest sum of a subarray, by three algorithms. A sum
-- outside `int` is undefined and faults here. `left` and `right` are `none` where the code leaves
-- them unset.
pub mod Spans
pub mod Brute
pub mod Scan
pub mod Linear
pub mod Halves
pub mod Cross
pub mod Results
use code_learning.Base.{
  ℕ, zero, suc, ◌+◌, ◌-◌, ◌/◌, ◌^◌, ◌&&◌, ltb, leb, if◌then◌else◌, Bool, true, false, List, Option,
  none, some, Run, ok, fault, out_of_fuel, ◌>>=◌, read,
}
use code_learning.Base.Int.{ℤ, pos, ◌+ℤ◌, ltb_ℤ, pos_part, neg_part}

pub record Subarr : Type 0 where
  pub left : Option ℕ
  pub right : Option ℕ
  pub max : ℤ

-- the sum of two `int`s
unfoldable pub add : ℤ → ℤ → Run ℤ
add x y =
    let sum = x +ℤ y in
    if ltb (pos_part sum) (2 ^ 31) && leb (neg_part sum) (2 ^ 31) then ok sum else fault

-- the inner loop of `bmaxsubarray`, with n - j for the first argument
unfoldable pub brute_inner : (rounds : ℕ) → List ℤ → (i j : ℕ) → (tmp : ℤ) → Subarr → Run Subarr
brute_inner zero arr i j tmp sub = ok sub
brute_inner (suc rounds) arr i j tmp sub = do
  x ← read arr j
  t ← add tmp x
  brute_inner rounds arr i (j + 1) t
      (if ltb_ℤ sub.max t then record { left = some i; right = some j; max = t } else sub)

-- the outer loop, with n - i for the first argument
unfoldable pub brute_outer : (rounds : ℕ) → List ℤ → (i : ℕ) → Subarr → Run Subarr
brute_outer zero arr i sub = ok sub
brute_outer (suc rounds) arr i sub = do
  sub₁ ← brute_inner (suc rounds) arr i i (pos 0) sub
  brute_outer rounds arr (i + 1) sub₁

unfoldable pub bmaxsubarray : List ℤ → (n : ℕ) → Run Subarr
bmaxsubarray arr n = do
  x ← read arr 0
  brute_outer n arr 0 (record { left = none; right = none; max = x })

-- the first loop of `lmaxsubarray`, with n - i for the first argument: whether `sign` is 1
unfoldable pub scan : (rounds : ℕ) → List ℤ → (i : ℕ) → Subarr → Run (Bool × Subarr)
scan zero arr i sub = ok (false, sub)
scan (suc rounds) arr i sub = do
  x ← read arr i
  let rest =
      scan rounds arr (i + 1)
        (if ltb_ℤ x sub.max then sub else record { left = some i; right = some i; max = x })
  if ltb_ℤ (pos 0) x then ok (true, sub) else rest

-- the second loop, with n - right for the first argument, and `tmp` by its fields
unfoldable pub sweep : (rounds : ℕ) → List ℤ → (left right : ℕ) → (tmp : ℤ) → Subarr → Run Subarr
sweep zero arr left right tmp sub = ok sub
sweep (suc rounds) arr left right tmp sub = do
  x ← read arr right
  t ← add tmp x
  let further =
      sweep rounds arr left (right + 1) t
        (if ltb_ℤ t sub.max then sub else record { left = some left; right = some right; max = t })
  let anew = sweep rounds arr (right + 1) (right + 1) (pos 0) sub
  if ltb_ℤ (pos 0) t then further else anew

unfoldable pub lmaxsubarray : List ℤ → (n : ℕ) → Run Subarr
lmaxsubarray arr n = do
  x ← read arr 0
  (positive, sub) ← scan n arr 0 (record { left = none; right = none; max = x })
  let swept = read arr 0 >>= λ y.
      sweep n arr 0 0 (pos 0) (record { left = some 0; right = some 0; max = y })
  if positive then swept else ok sub

-- the first loop of `maxcross`, with i + 1 for the first argument: `maxleft` and `cross.left`
unfoldable pub cross_left : (i : ℕ) → List ℤ → (tmp maxleft : ℤ) → (left : ℕ) → Run (ℤ × ℕ)
cross_left zero arr tmp maxleft left = ok (maxleft, left)
cross_left (suc i) arr tmp maxleft left = do
  x ← read arr i
  t ← add tmp x
  let further = cross_left i arr t t i
  let rest = cross_left i arr t maxleft left
  if ltb_ℤ maxleft t then further else rest

-- the second loop, with end - j for the first argument
unfoldable pub cross_right :
    (rounds : ℕ) → List ℤ → (j : ℕ) → (tmp maxright : ℤ) → (right : ℕ) → Run (ℤ × ℕ)
cross_right zero arr j tmp maxright right = ok (maxright, right)
cross_right (suc rounds) arr j tmp maxright right = do
  x ← read arr j
  t ← add tmp x
  let further = cross_right rounds arr (j + 1) t t j
  let rest = cross_right rounds arr (j + 1) t maxright right
  if ltb_ℤ maxright t then further else rest

-- `mid` is at least 1 where it is called; `beg` is not used
unfoldable pub maxcross : List ℤ → (beg mid end : ℕ) → Run Subarr
maxcross arr beg mid end = do
  x ← read arr (mid - 1)
  (maxleft, left) ← cross_left mid arr (pos 0) x (mid - 1)
  y ← read arr mid
  (maxright, right) ← cross_right (end - mid) arr mid (pos 0) y mid
  sum ← add maxright maxleft
  ok (record { left = some left; right = some right; max = sum })

-- `max` on what the pointers point to
unfoldable pub largest : (left right middle : Subarr) → Subarr
largest left right middle =
    let best = if ltb_ℤ left.max right.max then right else left in
    if ltb_ℤ best.max middle.max then middle else best

unfoldable pub maxsubarr : ℕ → List ℤ → (beg end : ℕ) → Run Subarr
maxsubarr zero arr beg end = out_of_fuel
maxsubarr (suc k) arr beg end =
    let mid = (beg + end) / 2 in
    let divided : Run Subarr = (do
      left ← maxsubarr k arr beg mid
      right ← maxsubarr k arr mid end
      middle ← maxcross arr beg mid end
      ok (largest left right middle)) in
    let single =
      read arr beg >>= λ x. ok (record { left = some beg; right = some (end - 1); max = x }) in
    if ltb (beg + 1) end then divided else single

unfoldable pub dmaxsubarray : List ℤ → (len : ℕ) → Run Subarr
dmaxsubarray arr len = maxsubarr (len + 1) arr 0 len
