-- ===== src/Clrs/Select.antt =====
-- `selectsort` of clrs/sorting.c.
pub mod Laws
use code_learning.Base.{ℕ, zero, suc, ◌+◌, ◌-◌, List, ltb, if◌then◌else◌, Run, ok, ◌>>=◌, read}
use code_learning.Clrs.{swap}

-- for (j = n-1; j > i; j--) if (a[j] < a[min]) min = j;, with the rounds left
unfoldable pub least : ℕ → List ℕ → (j min : ℕ) → Run ℕ
least zero a j min = ok min
least (suc rounds) a j min = do
  x ← read a j
  y ← read a min
  least rounds a (j - 1) (if ltb x y then j else min)

-- for (i = 0; i < n-1; i++) …, with the rounds left
unfoldable pub select_rounds : ℕ → List ℕ → (i n : ℕ) → Run (List ℕ)
select_rounds zero a i n = ok a
select_rounds (suc rounds) a i n = do
  min ← least (n - 1 - i) a (n - 1) i
  b ← swap a i min
  select_rounds rounds b (i + 1) n

unfoldable pub selectsort : List ℕ → ℕ → Run (List ℕ)
unfolding select_rounds least swap read
selectsort a n = select_rounds (n - 1) a 0 n
