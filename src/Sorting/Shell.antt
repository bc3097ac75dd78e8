-- ===== src/Sorting/Shell.antt =====
-- data_structure_and_algorithm/sort/shellsort.c. Each loop is a function over its variables; the
-- printing of the array after a pass is left out.
pub mod Pass
use code_learning.Base.{
  ℕ, zero, suc, ◌+◌, ◌-◌, ◌/◌, List, ltb, leb, if◌then◌else◌, Run, ok, out_of_fuel, ◌>>=◌, read,
  write,
}

-- for (j = i; j >= increment; j -= increment) …; a[j] = tmp;
unfoldable pub shift : ℕ → List ℕ → (increment j tmp : ℕ) → Run (List ℕ)
shift zero a increment j tmp = out_of_fuel
shift (suc k) a increment j tmp =
    let body : Run (List ℕ) = do
      y ← read a (j - increment)
      let move = write a j y >>= λ b. shift k b increment (j - increment) tmp
      if ltb tmp y then move else write a j tmp
    in if leb increment j then body else write a j tmp

-- for (i = increment; i < n; i++) …, with the rounds left
unfoldable pub pass : ℕ → List ℕ → (increment i : ℕ) → Run (List ℕ)
pass zero a increment i = ok a
pass (suc rounds) a increment i = do
  tmp ← read a i
  b ← shift (i + 1) a increment i tmp
  pass rounds b increment (i + 1)

-- for (increment = n / 2; increment > 0; increment /= 2) …
unfoldable pub gaps : ℕ → List ℕ → (increment n : ℕ) → Run (List ℕ)
gaps zero a increment n = out_of_fuel
gaps (suc k) a increment n =
    let round = pass (n - increment) a increment increment >>= λ b. gaps k b (increment / 2) n in
    if ltb 0 increment then round else ok a

unfoldable pub shellsort : List ℕ → ℕ → Run (List ℕ)
unfolding gaps pass shift read write
shellsort a n = gaps (n / 2 + 1) a (n / 2) n
