-- ===== src/Sorting/Insertion.antt =====
-- data_structure_and_algorithm/sort/insertion_sort.c: insertion sort is shellsort's pass with
-- increment 1.
use code_learning.Base.{
  ℕ, zero, suc, ◌+◌, ◌-◌, ◌≤◌, ◌≡◌, refl, List, arith, ltb, leb, if◌then◌else◌, Run, ok,
  out_of_fuel, ◌>>=◌, Yields, yields, Yields-weaken, read, write, length,
}
use code_learning.Sorting.{Sorts, IsSorted-of_steps}
use code_learning.Sorting.Shell.{shift, pass}
use code_learning.Sorting.Shell.Pass.{pass_orders}

-- for (j = i; j > 0 && a[j-1] > tmp; j--) a[j] = a[j-1];  a[j] = tmp;
unfoldable pub insertion_shift : ℕ → List ℕ → (j tmp : ℕ) → Run (List ℕ)
insertion_shift zero a j tmp = out_of_fuel
insertion_shift (suc k) a j tmp =
    let body : Run (List ℕ) = do
      y ← read a (j - 1)
      let move = write a j y >>= λ b. insertion_shift k b (j - 1) tmp
      if ltb tmp y then move else write a j tmp
    in if ltb 0 j then body else write a j tmp

-- for (i = 1; i < n; i++) …, with the rounds left
unfoldable pub insertion_rounds : ℕ → List ℕ → (i : ℕ) → Run (List ℕ)
insertion_rounds zero a i = ok a
insertion_rounds (suc rounds) a i = do
  tmp ← read a i
  b ← insertion_shift (i + 1) a i tmp
  insertion_rounds rounds b (i + 1)

unfoldable pub insertion_sort : List ℕ → ℕ → Run (List ℕ)
unfolding insertion_rounds insertion_shift read write
insertion_sort a n = insertion_rounds (n - 1) a 1

leb_one : (j : ℕ) → leb 1 j ≡ ltb 0 j
leb_one j = ground arith

insertion_shift-shift :
    (k : ℕ) (a : List ℕ) (j tmp : ℕ) → insertion_shift k a j tmp ≡ shift k a 1 j tmp
unfolding insertion_shift shift
insertion_shift-shift zero a j tmp = refl
insertion_shift-shift (suc k) a j tmp = simp (insertion_shift-shift k, leb_one, shift)

insertion_rounds-pass :
    (rounds : ℕ) (a : List ℕ) (i : ℕ) → insertion_rounds rounds a i ≡ pass rounds a 1 i
unfolding insertion_rounds pass
insertion_rounds-pass zero a i = refl
insertion_rounds-pass (suc rounds) a i = simp (insertion_shift-shift, insertion_rounds-pass rounds)

-- `insertion_sort` on the first `n` entries of an array returns, without a fault, with these
-- entries sorted, each number as often as before, and the rest of the array as it was.
pub insertion_sort-Sorts :
    (a : List ℕ) (n : ℕ) → n ≤ length a → Yields (Sorts n a) (insertion_sort a n)
unfolding insertion_sort
insertion_sort-Sorts a zero size = yields (record {
  sorted = λ p q le lt. absurd (omega arith);
  counts = λ v. refl;
  size = refl;
  rest = λ p h. refl;
})
insertion_sort-Sorts a (suc n) size = rw (insertion_rounds-pass (suc n - 1) a 1) (
    Yields-weaken (pass_orders a 1 (suc n) (omega arith) (omega arith) size) λ b r.
      let same = r.same in
      record {
        sorted = IsSorted-of_steps (suc n) b r.ordered;
        counts = same.counts;
        size = same.size;
        rest = same.rest;
      })
