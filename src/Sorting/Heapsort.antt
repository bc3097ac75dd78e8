-- ===== src/Sorting/Heapsort.antt =====
-- data_structure_and_algorithm/sort/heapsort.c.
pub mod Laws
use code_learning.Base.{
  ℕ, zero, suc, ◌+◌, ◌-◌, ◌*◌, ◌/◌, ◌==◌, ltb, if◌then◌else◌, List, Run, ok, out_of_fuel, ◌>>=◌,
  read, write,
}

unfoldable pub swap : List ℕ → (i j : ℕ) → Run (List ℕ)
swap m i j = do tmp ← read m i; y ← read m j; m₁ ← write m i y; write m₁ j tmp

-- the child that the loop of `percdown` goes on with
unfoldable pub larger_child : (a : List ℕ) → (child n : ℕ) → Run ℕ
larger_child a child n =
    let compared : Run ℕ = (do
      y ← read a (child + 1)
      x ← read a child
      ok (if ltb x y then child + 1 else child)) in
    if child == n - 1 then ok child else compared

-- the loop of `percdown`, and the assignment behind it
unfoldable pub percolate : ℕ → (a : List ℕ) → (tmp i n : ℕ) → Run (List ℕ)
percolate zero a tmp i n = out_of_fuel
percolate (suc k) a tmp i n =
    let body : Run (List ℕ) = (do
      child ← larger_child a (2 * i + 1) n
      x ← read a child
      let further = write a i x >>= λ a₁. percolate k a₁ tmp child n
      if ltb tmp x then further else write a i tmp) in
    if ltb (2 * i + 1) n then body else write a i tmp

unfoldable pub percdown : (a : List ℕ) → (i n : ℕ) → Run (List ℕ)
percdown a i n = read a i >>= λ tmp. percolate (n + 1) a tmp i n

-- the first loop of `heapsort`, for `i` rounds
unfoldable pub build : (i : ℕ) → List ℕ → (n : ℕ) → Run (List ℕ)
build zero a n = ok a
build (suc i) a n = percdown a i n >>= λ b. build i b n

-- the second loop, from `i` down to 1
unfoldable pub shrink : (i : ℕ) → List ℕ → Run (List ℕ)
shrink zero a = ok a
shrink (suc i) a = do b ← swap a 0 (suc i); c ← percdown b 0 (suc i); shrink i c

unfoldable pub heapsort : List ℕ → (n : ℕ) → Run (List ℕ)
heapsort a n = build (n / 2 + 1) a n >>= λ b. shrink (n - 1) b
