-- ===== src/Clrs/QuickSort.antt =====
-- The quicksort of clrs/sorting.c. `e - 1` is -1 for an empty stretch at 0; as a number it is 0, and
-- the test `i < j` fails as well.
pub mod Partition
pub mod Scans
pub mod Laws
use code_learning.Base.{
  ℕ, zero, suc, ◌+◌, ◌-◌, ltb, leb, if◌then◌else◌, List, Run, ok, out_of_fuel, ◌>>=◌, read, write,
}

-- while (i < j && a[j] >= tmp) j--;
unfoldable pub move_down : (a : List ℕ) → (tmp i j : ℕ) → Run ℕ
move_down a tmp i zero = ok zero
move_down a tmp i (suc j) =
    let rest = move_down a tmp i j in
    let body : Run ℕ = read a (suc j) >>= λ y. if leb tmp y then rest else ok (suc j) in
    if ltb i (suc j) then body else ok (suc j)

-- while (i < j && a[i] <= tmp) i++; with j - i for the first argument
unfoldable pub move_up : (rounds : ℕ) → (a : List ℕ) → (tmp i : ℕ) → Run ℕ
move_up zero a tmp i = ok i
move_up (suc rounds) a tmp i =
    let rest = move_up rounds a tmp (i + 1) in read a i >>= λ x. if leb x tmp then rest else ok i

-- if (i < j) a[i++] = a[j];
unfoldable pub take_right : (a : List ℕ) → (i j : ℕ) → Run (List ℕ × ℕ)
take_right a i j =
    let body : Run (List ℕ × ℕ) = read a j >>= λ y. write a i y >>= λ a₁. ok (a₁, i + 1) in
    if ltb i j then body else ok (a, i)

-- if (i < j) a[j--] = a[i];
unfoldable pub take_left : (a : List ℕ) → (i j : ℕ) → Run (List ℕ × ℕ)
take_left a i j =
    let body : Run (List ℕ × ℕ) = read a i >>= λ x. write a j x >>= λ a₁. ok (a₁, j - 1) in
    if ltb i j then body else ok (a, j)

-- the outer loop: the array and `i`
unfoldable pub partition : ℕ → (a : List ℕ) → (tmp i j : ℕ) → Run (List ℕ × ℕ)
partition zero a tmp i j = out_of_fuel
partition (suc k) a tmp i j =
    let body : Run (List ℕ × ℕ) = (do
      j₁ ← move_down a tmp i j
      (a₁, i₁) ← take_right a i j₁
      i₂ ← move_up (j₁ - i₁) a₁ tmp i₁
      (a₂, j₂) ← take_left a₁ i₂ j₁
      partition k a₂ tmp i₂ j₂) in
    if ltb i j then body else ok (a, i)

unfoldable pub quicksort : ℕ → (a : List ℕ) → (b e : ℕ) → Run (List ℕ)
quicksort zero a b e = out_of_fuel
quicksort (suc k) a b e = do
  tmp ← read a b
  (a₁, i) ← partition (e - b + 1) a tmp b (e - 1)
  a₂ ← write a₁ i tmp
  let halves : Run (List ℕ) = quicksort k a₂ b i >>= λ a₃. quicksort k a₃ (i + 1) e
  if ltb (b + 2) e then halves else ok a₂

unfoldable pub my_qsort : List ℕ → (n : ℕ) → Run (List ℕ)
my_qsort a n = quicksort (n + 1) a 0 n
