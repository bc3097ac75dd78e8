-- ===== src/Clrs/Bubble.antt =====
-- `bubblesort` of clrs/sorting.c.
pub mod Laws
use code_learning.Base.{ℕ, zero, suc, ◌+◌, ◌-◌, List, ltb, if◌then◌else◌, Run, ok, ◌>>=◌, read}
use code_learning.Clrs.{swap}

-- for (j = n-1; j > i; j--) …, with the rounds left
unfoldable pub bubble : ℕ → List ℕ → (j : ℕ) → Run (List ℕ)
bubble zero a j = ok a
bubble (suc rounds) a j = do
  x ← read a j
  y ← read a (j - 1)
  b ← if ltb x y then swap a j (j - 1) else ok a
  bubble rounds b (j - 1)

-- for (i = 0; i < n-1; i++) …, with the rounds left
unfoldable pub bubble_rounds : ℕ → List ℕ → (i n : ℕ) → Run (List ℕ)
bubble_rounds zero a i n = ok a
bubble_rounds (suc rounds) a i n =
    bubble (n - 1 - i) a (n - 1) >>= λ b. bubble_rounds rounds b (i + 1) n

unfoldable pub bubblesort : List ℕ → ℕ → Run (List ℕ)
unfolding bubble_rounds bubble swap read
bubblesort a n = bubble_rounds (n - 1) a 0 n
