-- ===== src/Clrs/FindSum.antt =====
-- clrs/exercises/02.3.7.c: two entries of a sorted array with a given sum. The sum of two codes is
-- the code of the sum and 2^31 more, and `x` is given the same way: its value plus 2^32. A sum
-- outside `int` is undefined and faults here.
pub mod Laws
use code_learning.Base.{
  ℕ, zero, suc, ◌+◌, ◌-◌, ◌^◌, List, ◌&&◌, ◌==◌, ltb, leb, if◌then◌else◌, Option, none, some, Run,
  ok, fault, out_of_fuel, ◌>>=◌, read,
}
use code_learning.Clrs.MergeSort.{mergesort}

-- a[i] + a[j]
unfoldable pub plus : (u v : ℕ) → Run ℕ
plus u v = if leb (2 ^ 31) (u + v) && ltb (u + v) (2 ^ 31 + 2 ^ 32) then ok (u + v) else fault

-- The loop, with `j + 1` for `j`, which ends at -1: the two places, or `none` where the function ends
-- without a value. The last test of the source holds wherever it is reached.
unfoldable pub find_from : ℕ → (a : List ℕ) → (x i j_next : ℕ) → Run (Option (ℕ × ℕ))
find_from zero a x i j_next = out_of_fuel
find_from (suc k) a x i j_next =
    let fewer = find_from k a x i (j_next - 1) in
    let more = find_from k a x (i + 1) j_next in
    let body : Run (Option (ℕ × ℕ)) = (do
      u ← read a i
      v ← read a (j_next - 1)
      sum ← plus u v
      let other = if ltb x sum then fewer else more
      if sum == x then ok (some (i, j_next - 1)) else other) in
    if ltb i j_next then body else ok none

unfoldable pub find_sum : (a : List ℕ) → (n x : ℕ) → Run (Option (ℕ × ℕ))
find_sum a n x = find_from (n + 1) a x 0 n

-- the calls of `main`: the sorted array and the places
unfoldable pub sort_and_find :
    (memory : Option (List ℕ)) → (a : List ℕ) → (n x : ℕ) → Run (List ℕ × Option (ℕ × ℕ))
sort_and_find memory a n x = do
  sorted ← mergesort memory a n
  places ← find_sum sorted n x
  ok (sorted, places)
