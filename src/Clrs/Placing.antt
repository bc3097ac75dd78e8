-- ===== src/Clrs/Placing.antt =====
-- Bubble sort and selection sort both fill the array from the front, each round with a least entry
-- of those that are left.
use code_learning.Base.{
  ℕ, ◌+◌, ◌≤◌, ◌<◌, ◌≡◌, List, arith, length, ◌!◌, !-exchange, length-exchange, count-exchange,
  exchange,
}
use code_learning.Sorting.{Sorts, Rearranges}

-- the entries before `i` are in their final places
abbrev pub Placed : ℕ → ℕ → List ℕ → Type 0
Placed i n a = (p q : ℕ) → p < i → p ≤ q → q < n → a ! p ≤ a ! q

abbrev pub IsLeast : ℕ → ℕ → ℕ → List ℕ → Type 0
IsLeast m j n a = (q : ℕ) → j ≤ q → q < n → a ! m ≤ a ! q

pub Placed-suc : (i n : ℕ) (a : List ℕ) → Placed i n a → IsLeast i i n a → Placed (i + 1) n a
Placed-suc i n a h l p q lt le lt' = ground (arith, h p q, l q, eq_index p i)
  where
    eq_index : (j k : ℕ) → j ≡ k → a ! j ≡ a ! k
    eq_index j k e = rw e

pub Placed-exchange :
    (i n j k : ℕ) (a : List ℕ)
    → i ≤ j
    → j < n
    → i ≤ k
    → k < n
    → n ≤ length a
    → Placed i n a
    → Placed i n (exchange a j k)
Placed-exchange i n j k a hj hj' hk hk' size h p q lt le lt' = ground (
  arith,
  !-exchange a j k (omega arith) (omega arith) p,
  !-exchange a j k (omega arith) (omega arith) q,
  h p q,
  h p j,
  h p k,
)

pub Rearranges-exchange :
    (n j k : ℕ) (a : List ℕ) → j < n → k < n → n ≤ length a → Rearranges n a (exchange a j k)
Rearranges-exchange n j k a hj hk size = record {
  counts = count-exchange a j k (omega arith) (omega arith);
  size = length-exchange a j k;
  rest = λ p h. ground (arith, !-exchange a j k (omega arith) (omega arith) p);
}

pub Sorts-of_Placed :
    (i n : ℕ) (a b : List ℕ) → n ≤ i + 1 → Placed i n b → Rearranges n a b → Sorts n a b
Sorts-of_Placed i n a b le h r = record {
  sorted = λ p q le' lt. ground (arith, h p q, eq_index p q);
  counts = r.counts;
  size = r.size;
  rest = r.rest;
}
  where
    eq_index : (j k : ℕ) → j ≡ k → b ! j ≡ b ! k
    eq_index j k e = rw e

-- a round: what was placed stays, and the next place holds a least entry
pub record Round (i n : ℕ) (a b : List ℕ) : Type 0 where
  pub placed : Placed i n b
  pub least : IsLeast i i n b
  pub same : Rearranges n a b
