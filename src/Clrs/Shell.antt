-- ===== src/Clrs/Shell.antt =====
-- `insertsort` and `shellsort` of clrs/sorting.c, which make the same moves as the sorts of
-- data_structure_and_algorithm/sort.
use code_learning.Base.{
  ℕ, zero, suc, ◌+◌, ◌-◌, ◌/◌, ◌≤◌, ◌≡◌, refl, List, arith, ltb, leb, if◌then◌else◌, Run, ok,
  out_of_fuel, ◌>>=◌, Yields, read, write, length,
}
use code_learning.Sorting.{Sorts}
use code_learning.Sorting.Shell.{shift, pass, gaps, shellsort}
use code_learning.Sorting.Shell.Pass.{shellsort-Sorts}
use code_learning.Sorting.Insertion.{
  insertion_shift, insertion_rounds, insertion_sort, insertion_sort-Sorts,
}

-- for (j = i; j > 0 && a[j-1] > tmp; j--) a[j] = a[j-1];  a[j] = tmp;
insert_shift : ℕ → List ℕ → (j tmp : ℕ) → Run (List ℕ)
insert_shift zero a j tmp = out_of_fuel
insert_shift (suc k) a j tmp =
    let body : Run (List ℕ) = do
      y ← read a (j - 1)
      let move = write a j y >>= λ b. insert_shift k b (j - 1) tmp
      if ltb tmp y then move else write a j tmp
    in if ltb 0 j then body else write a j tmp

-- for (i = 1; i < n; i++) …, with the rounds left
insert_rounds : ℕ → List ℕ → (i : ℕ) → Run (List ℕ)
insert_rounds zero a i = ok a
insert_rounds (suc rounds) a i = do
  tmp ← read a i
  b ← insert_shift (i + 1) a i tmp
  insert_rounds rounds b (i + 1)

unfoldable pub insertsort : List ℕ → ℕ → Run (List ℕ)
unfolding insert_rounds insert_shift read write
insertsort a n = insert_rounds (n - 1) a 1

-- for (j = i; j >= sep && tmp < a[j-sep]; j -= sep) a[j] = a[j-sep];  a[j] = tmp;
sep_shift : ℕ → List ℕ → (sep j tmp : ℕ) → Run (List ℕ)
sep_shift zero a sep j tmp = out_of_fuel
sep_shift (suc k) a sep j tmp =
    let body : Run (List ℕ) = do
      y ← read a (j - sep)
      let move = write a j y >>= λ b. sep_shift k b sep (j - sep) tmp
      if ltb tmp y then move else write a j tmp
    in if leb sep j then body else write a j tmp

-- for (i = sep; i < n; i++) …, with the rounds left
sep_pass : ℕ → List ℕ → (sep i : ℕ) → Run (List ℕ)
sep_pass zero a sep i = ok a
sep_pass (suc rounds) a sep i = do
  tmp ← read a i
  b ← sep_shift (i + 1) a sep i tmp
  sep_pass rounds b sep (i + 1)

-- for (sep = n/2; sep >= 1; sep /= 2) …
sep_rounds : ℕ → List ℕ → (sep n : ℕ) → Run (List ℕ)
sep_rounds zero a sep n = out_of_fuel
sep_rounds (suc k) a sep n =
    let round = sep_pass (n - sep) a sep sep >>= λ b. sep_rounds k b (sep / 2) n in
    if leb 1 sep then round else ok a

unfoldable pub shellsort_clrs : List ℕ → ℕ → Run (List ℕ)
unfolding sep_rounds sep_pass sep_shift read write
shellsort_clrs a n = sep_rounds (n / 2 + 1) a (n / 2) n

insert_shift-eq :
    (k : ℕ) (a : List ℕ) (j tmp : ℕ) → insert_shift k a j tmp ≡ insertion_shift k a j tmp
unfolding insert_shift insertion_shift
insert_shift-eq zero a j tmp = refl
insert_shift-eq (suc k) a j tmp = simp (insert_shift-eq k, insertion_shift)

insert_rounds-eq :
    (rounds : ℕ) (a : List ℕ) (i : ℕ) → insert_rounds rounds a i ≡ insertion_rounds rounds a i
unfolding insert_rounds insertion_rounds
insert_rounds-eq zero a i = refl
insert_rounds-eq (suc rounds) a i = simp (insert_shift-eq, insert_rounds-eq rounds)

sep_shift-eq : (k : ℕ) (a : List ℕ) (sep j tmp : ℕ) → sep_shift k a sep j tmp ≡ shift k a sep j tmp
unfolding sep_shift shift
sep_shift-eq zero a sep j tmp = refl
sep_shift-eq (suc k) a sep j tmp = simp (sep_shift-eq k, shift)

sep_pass-eq : (rounds : ℕ) (a : List ℕ) (sep i : ℕ) → sep_pass rounds a sep i ≡ pass rounds a sep i
unfolding sep_pass pass
sep_pass-eq zero a sep i = refl
sep_pass-eq (suc rounds) a sep i = simp (sep_shift-eq, sep_pass-eq rounds)

at_least_one : (j : ℕ) → leb 1 j ≡ ltb 0 j
at_least_one j = ground arith

sep_rounds-eq : (k : ℕ) (a : List ℕ) (sep n : ℕ) → sep_rounds k a sep n ≡ gaps k a sep n
unfolding sep_rounds gaps
sep_rounds-eq zero a sep n = refl
sep_rounds-eq (suc k) a sep n = simp (sep_pass-eq, sep_rounds-eq k, at_least_one, gaps)

-- `insertsort` and `shellsort` of clrs, on the first `n` entries of an array, do what the sorts of
-- data_structure_and_algorithm do, and so sort these entries.
pub insertsort-shellsort_clrs :
    (a : List ℕ) (n : ℕ)
    → n ≤ length a
    → (insertsort a n ≡ insertion_sort a n)
      × (shellsort_clrs a n ≡ shellsort a n)
      × Yields (Sorts n a) (insertsort a n)
      × Yields (Sorts n a) (shellsort_clrs a n)
unfolding insertsort insertion_sort shellsort_clrs shellsort
insertsort-shellsort_clrs a n h =
    let p : insertsort a n ≡ insertion_sort a n = insert_rounds-eq (n - 1) a 1 in
    let q : shellsort_clrs a n ≡ shellsort a n = sep_rounds-eq (n / 2 + 1) a (n / 2) n in
    (p, q, rw p (insertion_sort-Sorts a n h), rw q (shellsort-Sorts a n h))
