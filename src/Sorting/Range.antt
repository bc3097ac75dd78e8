-- ===== src/Sorting/Range.antt =====
-- Rearrangements of the entries of an array from index `b` to before index `e`.
use code_learning.Base.{
  ℕ, ◌≤◌, ◌<◌, ◌≡◌, refl, List, arith, ltb, length, ◌!◌, SameCounts, exchange, !-exchange,
  length-exchange, count-exchange, Bool-cases, inl, inr,
}
use code_learning.Sorting.{Sorts}

-- `r` is `a` with these entries rearranged, within their bounds
pub record Within (b e : ℕ) (a r : List ℕ) : Type 0 where
  pub counts : SameCounts r a
  pub size : length r ≡ length a
  pub rest : (p : ℕ) → p < b → r ! p ≡ a ! p
  pub behind : (p : ℕ) → e ≤ p → r ! p ≡ a ! p
  pub upper : (m : ℕ) → ((p : ℕ) → b ≤ p → p < e → a ! p ≤ m) → (p : ℕ) → b ≤ p → p < e → r ! p ≤ m
  pub lower : (m : ℕ) → ((p : ℕ) → b ≤ p → p < e → m ≤ a ! p) → (p : ℕ) → b ≤ p → p < e → m ≤ r ! p

pub Within-refl : (b e : ℕ) (a : List ℕ) → Within b e a a
Within-refl b e a = record {
  counts = λ v. refl;
  size = refl;
  rest = λ p h. refl;
  behind = λ p h. refl;
  upper = λ m h. h;
  lower = λ m h. h;
}

pub Within-trans : {b e : ℕ} {a r t : List ℕ} → Within b e a r → Within b e r t → Within b e a t
Within-trans f g = record {
  counts = λ v. omega (arith, f.counts v, g.counts v);
  size = omega (arith, f.size, g.size);
  rest = λ p h. omega (arith, f.rest p h, g.rest p h);
  behind = λ p h. omega (arith, f.behind p h, g.behind p h);
  upper = λ m h. g.upper m (f.upper m h);
  lower = λ m h. g.lower m (f.lower m h);
}

pub Within-exchange :
    (b e : ℕ) (a : List ℕ) (i j : ℕ)
    → e ≤ length a
    → b ≤ i
    → i < e
    → b ≤ j
    → j < e
    → Within b e a (exchange a i j)
Within-exchange b e a i j fits bi ie bj je =
    let at = !-exchange a i j (omega arith) (omega arith) in
    record {
      counts = count-exchange a i j (omega arith) (omega arith);
      size = length-exchange a i j;
      rest = λ p h. ground (arith, at p);
      behind = λ p h. ground (arith, at p);
      upper = λ m h p lo hi. ground (arith, at p, h i, h j, h p);
      lower = λ m h p lo hi. ground (arith, at p, h i, h j, h p);
    }

-- a rearrangement of a part
pub Within-wider :
    {b e : ℕ} (b' e' : ℕ) {a r : List ℕ} → b' ≤ b → e ≤ e' → Within b e a r → Within b' e' a r
Within-wider {b = b} {e = e} b' e' {a = a} {r = r} lb le f = record {
  counts = f.counts;
  size = f.size;
  rest = λ p h. f.rest p (omega arith);
  behind = λ p h. f.behind p (omega arith);
  upper = λ m h p lo hi. elim (Bool-cases (ltb p b)) [
    | inl below ↦ ground (arith, f.rest p, h p)
    | inr above ↦ elim (Bool-cases (ltb p e)) [
      | inl inside ↦
          f.upper m (λ q lq hq. h q (omega arith) (omega arith)) p (ground arith) (ground arith)
      | inr past ↦ ground (arith, f.behind p, h p)
    ]
  ];
  lower = λ m h p lo hi. elim (Bool-cases (ltb p b)) [
    | inl below ↦ ground (arith, f.rest p, h p)
    | inr above ↦ elim (Bool-cases (ltb p e)) [
      | inl inside ↦
          f.lower m (λ q lq hq. h q (omega arith) (omega arith)) p (ground arith) (ground arith)
      | inr past ↦ ground (arith, f.behind p, h p)
    ]
  ];
}

-- the entries ascend, and are those of `a`
pub record SortsRange (b e : ℕ) (a r : List ℕ) : Type 0 where
  pub sorted : (p q : ℕ) → b ≤ p → p ≤ q → q < e → r ! p ≤ r ! q
  pub within : Within b e a r

pub Sorts-of_range : (n : ℕ) (a r : List ℕ) → SortsRange 0 n a r → Sorts n a r
Sorts-of_range n a r f = record {
  sorted = λ p q le lt. f.sorted p q (omega arith) le lt;
  counts = f.within.counts;
  size = f.within.size;
  rest = f.within.behind;
}
