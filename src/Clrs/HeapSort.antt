-- ===== src/Clrs/HeapSort.antt =====
-- The heapsort of clrs/sorting.c. Its nodes count from 1; the entry of node `k` is at k - 1.
pub mod Laws
use code_learning.Base.{
  ℕ, zero, suc, ◌+◌, ◌-◌, ◌*◌, ◌/◌, ltb, leb, if◌then◌else◌, List, Run, ok, out_of_fuel, ◌>>=◌,
  read,
}
use code_learning.Clrs.{swap}

unfoldable pub bigger_child : (a : List ℕ) → (k n : ℕ) → Run ℕ
bigger_child a k n =
    let compared : Run ℕ = (do
      x ← read a (2 * k - 1)
      y ← read a (2 * k)
      ok (if ltb y x then 2 * k else 2 * k + 1)) in
    if ltb n (2 * k + 1) then ok (2 * k) else compared

unfoldable pub sink : (fuel : ℕ) → (a : List ℕ) → (k n : ℕ) → Run (List ℕ)
sink zero a k n = out_of_fuel
sink (suc fuel) a k n =
    let body : Run (List ℕ) = (do
      child ← bigger_child a k n
      x ← read a (k - 1)
      y ← read a (child - 1)
      b ← (if ltb x y then swap a (k - 1) (child - 1) else ok a)
      sink fuel b child n) in
    if leb (2 * k) n then body else ok a

-- the loop of `buildheap`, from `i` down to 1
unfoldable pub build : (i : ℕ) → List ℕ → (n : ℕ) → Run (List ℕ)
build zero a n = ok a
build (suc i) a n = sink (n + 1) a (suc i) n >>= λ b. build i b n

unfoldable pub buildheap : List ℕ → (n : ℕ) → Run (List ℕ)
buildheap a n = build (n / 2) a n

-- the loop of `heapsort`, from `i` down to 1
unfoldable pub shrink : (i : ℕ) → List ℕ → Run (List ℕ)
shrink zero a = ok a
shrink (suc i) a = do b ← swap a 0 (suc i - 1); c ← sink (suc i) b 1 (suc i - 1); shrink i c

unfoldable pub heapsort : List ℕ → (n : ℕ) → Run (List ℕ)
heapsort a n = buildheap a n >>= λ b. shrink n b
