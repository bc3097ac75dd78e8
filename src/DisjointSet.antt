-- ===== src/DisjointSet.antt =====
-- data_structure_and_algorithm/the_disjoint_set/disjset.c. An entry of the array is the parent of
-- its index where it is positive; the index of another entry is a root, and the entry is minus the
-- height of its tree. The size `numsets` is not defined in the file and is an argument. The test
-- `x[x] <= 0` of `find_route_compress` is read as `s[x] <= 0`.
pub mod Find
pub mod Roots
pub mod Union
use code_learning.Base.{
  ℕ, zero, suc, Bool, true, false, List, if◌then◌else◌, Run, ok, fault, out_of_fuel, ◌>>=◌, read,
  write, Option, none, some,
}
use code_learning.Base.Int.{ℤ, pos, negsuc, ltb_ℤ, eqb_ℤ, ◌-ℤ◌}

-- for (i = numsets; i > 0; i--) s[i] = 0;
unfoldable pub initialize : (numsets : ℕ) → List ℤ → Run (List ℤ)
initialize zero s = ok s
initialize (suc i) s = write s (suc i) (pos 0) >>= initialize i

unfoldable pub setunion : List ℤ → (root1 root2 : ℕ) → Run (List ℤ)
setunion s root1 root2 = write s root2 (pos root1)

unfoldable pub setunion_high : List ℤ → (root1 root2 : ℕ) → Run (List ℤ)
unfolding ◌-ℤ◌
setunion_high s root1 root2 = do
  a ← read s root1
  b ← read s root2
  let raised = if eqb_ℤ a b then write s root1 (a -ℤ pos 1) else ok s
  let under = raised >>= λ t. write t root2 (pos root1)
  if ltb_ℤ a b then write s root1 (pos root2) else under

-- the index that a positive entry names
unfoldable pub parent : ℤ → Option ℕ
parent (pos zero) = none
parent (pos (suc p)) = some (suc p)
parent (negsuc n) = none

-- `find`, in at most as many calls as the first argument says
unfoldable pub find : ℕ → List ℤ → ℕ → Run ℕ
unfolding parent
find zero s x = out_of_fuel
find (suc k) s x = read s x >>= λ e. elim (parent e) [ none ↦ ok x | some p ↦ find k s p ]

unfoldable pub find_route_compress : ℕ → List ℤ → ℕ → Run (ℕ × List ℤ)
unfolding find
find_route_compress k s x = read s x >>= λ e. elim (parent e) [
  | none ↦ ok (x, s)
  | some p ↦ find k s p >>= λ r. write s x (pos r) >>= λ t. ok (r, t)
]
