-- ===== src/Clrs/Inversions.antt =====
-- clrs/problems/02.4inversions.c: the inversions of an array, counted by a merge sort. `*num` is an
-- `int`, and it only grows: a sum over the largest `int` is undefined and faults here.
pub mod Counts
pub mod Loop
pub mod Results
use code_learning.Base.{
  ℕ, zero, suc, ◌+◌, ◌-◌, ◌/◌, ◌^◌, List, [], ◌∷◌, ◌&&◌, ltb, leb, if◌then◌else◌, Option, none,
  some, Run, ok, fault, out_of_fuel, ◌>>=◌, read, write,
}
use code_learning.Sorting.Merge.{copy}

-- *num += d
unfoldable pub raise : (num d : ℕ) → Run ℕ
raise num d = if ltb (num + d) (2 ^ 31) then ok (num + d) else fault

-- the first three loops of `merge`: the temporary array and `*num`; `tmp` counts the entries that
-- the right half has given
unfoldable pub count_loop :
    ℕ → (a tmparr : List ℕ) → (num i j index tmp mid e : ℕ) → Run (List ℕ × ℕ)
count_loop zero a tmparr num i j index tmp mid e = out_of_fuel
count_loop (suc k) a tmparr num i j index tmp mid e =
    let both : Run (List ℕ × ℕ) = (do
      x ← read a i
      y ← read a j
      let left = write tmparr index x >>= λ t. count_loop k a t num (i + 1) j (index + 1) tmp mid e
      let right = raise num (j - i - tmp) >>= λ n.
          write tmparr index y >>= λ t. count_loop k a t n i (j + 1) (index + 1) (tmp + 1) mid e
      if leb x y then left else right) in
    let rests = copy (mid - i) a tmparr i index >>= λ t. copy (e - j) a t j (index + (mid - i)) in
    if ltb i mid && ltb j e then both else (rests >>= λ t. ok (t, num))

-- the array, the temporary array and `*num`
unfoldable pub merge : (a tmparr : List ℕ) → (num b mid e : ℕ) → Run ((List ℕ × List ℕ) × ℕ)
merge a tmparr num b mid e = do
  (t, n) ← count_loop (e - b + 1) a tmparr num b mid 0 0 mid e
  sorted ← copy (e - b) t a 0 b
  ok ((sorted, t), n)

unfoldable pub inversions : ℕ → (a tmparr : List ℕ) → (num b e : ℕ) → Run ((List ℕ × List ℕ) × ℕ)
inversions zero a tmparr num b e = out_of_fuel
inversions (suc k) a tmparr num b e =
    let mid = (b + e) / 2 in
    let halves : Run ((List ℕ × List ℕ) × ℕ) = (do
      (l, n) ← inversions k a tmparr num b mid
      (r, m) ← inversions k (l.0) (l.1) n mid e
      merge (r.0) (r.1) m b mid e) in
    if ltb (b + 1) e then halves else ok ((a, tmparr), num)

-- `memory` is what `malloc` gives. The code's test of it does not see `NULL`, which has no entry to
-- write to.
unfoldable pub inverse_pairs : (memory : Option (List ℕ)) → List ℕ → (n num : ℕ) → Run (List ℕ × ℕ)
inverse_pairs none a n num = inversions (n + 1) a [] num 0 n >>= λ r. ok (r.0.0, r.1)
inverse_pairs (some tmparr) a n num = inversions (n + 1) a tmparr num 0 n >>= λ r. ok (r.0.0, r.1)
