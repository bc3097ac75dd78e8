-- ===== src/Sorting.antt =====
-- What the array sorts of data_structure_and_algorithm/sort and clrs/sorting.c promise. An array
-- entry is an `int` that the code only compares and moves, so it is kept as its place in the order
-- of the `int`s (the value plus 2^31), a natural number.
pub mod HeapOrder
pub mod Heapsort
pub mod Insertion
pub mod Merge
pub mod Range
pub mod Shell
use code_learning.Base.{ℕ, zero, suc, ◌+◌, ◌≤◌, ◌<◌, ◌≡◌, List, arith, length, ◌!◌, SameCounts}

-- the first `n` entries ascend
abbrev pub IsSorted : ℕ → List ℕ → Type 0
IsSorted n a = (p q : ℕ) → p ≤ q → q < n → a ! p ≤ a ! q

-- entries `g` apart ascend, as far as index `m`
abbrev pub IsGapSorted : ℕ → ℕ → List ℕ → Type 0
IsGapSorted g m a = (p : ℕ) → p + g < m → a ! p ≤ a ! (p + g)

-- `b` is `a` with its first `n` entries rearranged
pub record Rearranges (n : ℕ) (a b : List ℕ) : Type 0 where
  pub counts : SameCounts b a
  pub size : length b ≡ length a
  pub rest : (p : ℕ) → n ≤ p → b ! p ≡ a ! p

-- `b` is `a` with its first `n` entries sorted
pub record Sorts (n : ℕ) (a b : List ℕ) : Type 0 where
  pub sorted : IsSorted n b
  pub counts : SameCounts b a
  pub size : length b ≡ length a
  pub rest : (p : ℕ) → n ≤ p → b ! p ≡ a ! p

pub Rearranges-trans :
    {n : ℕ} {a b c : List ℕ} → Rearranges n a b → Rearranges n b c → Rearranges n a c
Rearranges-trans f g = record {
  counts = λ v. omega (arith, f.counts v, g.counts v);
  size = omega arith;
  rest = λ p h. omega (arith, f.rest p h, g.rest p h);
}

-- ascending neighbours are enough
pub IsSorted-of_steps : (n : ℕ) (a : List ℕ) → IsGapSorted 1 n a → IsSorted n a
IsSorted-of_steps n a h zero zero le lt = omega arith
IsSorted-of_steps n a h (suc p) zero le lt = absurd (omega arith)
IsSorted-of_steps n a h p (suc q) le lt =
    ground (arith, h q, IsSorted-of_steps n a h p q, eq_index p (suc q))
  where
    eq_index : (i j : ℕ) → i ≡ j → a ! i ≡ a ! j
    eq_index i j e = rw e
