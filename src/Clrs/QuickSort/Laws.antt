-- ===== src/Clrs/QuickSort/Laws.antt =====
-- The quicksort of clrs/sorting.c sorts.
use mathlib.Core.Path.{subst}
use code_learning.Base.{
  ℕ, zero, suc, ◌+◌, ◌-◌, ◌≤◌, ◌<◌, ◌≡◌, refl, sym, ◌∙◌, false, ltb, if◌then◌else◌, List, arith,
  length, length-set, set, ◌!◌, !-set, !-set_self, set-same, read-ok, write-ok, ok, ◌>>=◌, Yields,
  yields, Yields-bind, Yields-weaken, Bool-cases, inl, inr,
}
use code_learning.Sorting.{Sorts}
use code_learning.Sorting.Range.{
  Within, Within-refl, Within-trans, Within-wider, SortsRange, Sorts-of_range,
}
use code_learning.Clrs.QuickSort.{quicksort, my_qsort}
use code_learning.Clrs.QuickSort.Partition.{Parted, partition-Parted, partition-done}

-- the two sides of a pivot, sorted
join :
    (b e i t : ℕ) (w l r : List ℕ)
    → b ≤ i
    → i < e
    → w ! i ≡ t
    → ((p : ℕ) → b ≤ p → p < i → w ! p ≤ t)
    → ((q : ℕ) → i < q → q < e → t ≤ w ! q)
    → SortsRange b i w l
    → SortsRange (i + 1) e l r
    → SortsRange b e w r
join b e i t w l r bi ie at low high left right = record {
  sorted = λ p q bp pq qe. ordered p q bp pq qe;
  within =
      Within-trans (Within-wider b e (omega arith) (omega arith) left.within)
        (Within-wider b e (omega arith) (omega arith) right.within);
}
  where
    small : (p : ℕ) → b ≤ p → p < i → r ! p ≤ t
    small p bp pi = omega (arith, right.within.rest p, left.within.upper t low p)

    pivot : r ! i ≡ t
    pivot = omega (arith, right.within.rest i, left.within.behind i)

    big : (q : ℕ) → i + 1 ≤ q → q < e → t ≤ r ! q
    big = right.within.lower t (λ q lo hi. omega (arith, left.within.behind q, high q))

    ordered : (p q : ℕ) → b ≤ p → p ≤ q → q < e → r ! p ≤ r ! q
    ordered p q bp pq qe = ground (
      arith,
      small p,
      small q,
      pivot,
      big p,
      big q,
      right.within.rest p,
      right.within.rest q,
      left.sorted p q,
      right.sorted p q,
    )

-- a stretch of at most two entries is sorted by the partition alone
short :
    (b e i t : ℕ) (a w : List ℕ)
    → e ≤ b + 2
    → b ≤ i
    → i < e
    → w ! i ≡ t
    → ((p : ℕ) → b ≤ p → p < i → w ! p ≤ t)
    → ((q : ℕ) → i < q → q < e → t ≤ w ! q)
    → Within b e a w
    → SortsRange b e a w
short b e i t a w le bi ie at low high f = record {
  sorted = λ p q bp pq qe. ground (arith, low p, low q, high p, high q);
  within = f;
}

no_more : (b e : ℕ) → e ≤ b → ltb (b + 2) e ≡ false
no_more b e h = ground arith

-- what follows the partition, where shorter stretches are sorted
sides :
    (k : ℕ)
    → ((a : List ℕ) (b e : ℕ)
        → b ≤ e
        → e < length a
        → e < k + b
        → Yields (SortsRange b e a) (quicksort k a b e))
    → (a : List ℕ) (b e t : ℕ) (a₁ : List ℕ) (i : ℕ) → e < length a
    → e < suc k + b
    → Parted b e a t a₁ i i i
    → Yields (SortsRange b e a) (
        if ltb (b + 2) e
        then (quicksort k (set a₁ i t) b i >>= λ a₃. quicksort k a₃ (i + 1) e)
        else ok (set a₁ i t))
sides k sort a b e t a₁ i fits lt v =
    let w = set a₁ i t in
    let hi : i < length a₁ = omega (arith, v.size, v.last) in
    let size : length w ≡ length a = length-set a₁ i t ∙ v.size in
    let low : (p : ℕ) → b ≤ p → p < i → w ! p ≤ t =
      λ p lo h. ground (arith, !-set a₁ i p t hi, v.low p) in
    let high : (q : ℕ) → i < q → q < e → t ≤ w ! q =
      λ q lo h. ground (arith, !-set a₁ i q t hi, v.high q) in
    elim (Bool-cases (ltb (b + 2) e)) [
      | inr few ↦ rw few (
          yields (
            short b e i t a w (ground arith) v.first v.last (!-set_self a₁ i t hi) low high
              v.within))
      | inl many ↦ rw many (
          Yields-bind (sort w b i v.first (omega (arith, v.last)) (omega (arith, v.last, v.first)))
            (λ l f.
              Yields-weaken
                (sort l (i + 1) e (omega (arith, v.last)) (omega (arith, f.within.size))
                  (omega (arith, v.first)))
                (λ r g.
                  let both =
                    join b e i t w l r v.first v.last (!-set_self a₁ i t hi) low high f g in
                  record { sorted = both.sorted; within = Within-trans v.within both.within })))
    ]

quicksort-SortsRange :
    (k : ℕ) (a : List ℕ) (b e : ℕ)
    → b ≤ e
    → e < length a
    → e < k + b
    → Yields (SortsRange b e a) (quicksort k a b e)
unfolding quicksort
quicksort-SortsRange zero a b e be fits lt = absurd (omega arith)
quicksort-SortsRange (suc k) a b e be fits lt = elim (Bool-cases (ltb b e)) [
  | inr empty ↦
      rw
        (
          read-ok a b (omega arith),
          ◌>>=◌,
          partition-done (e - b + 1) a (a ! b) b (e - 1) (omega arith) (ground arith),
          write-ok a b (a ! b) (omega arith),
          set-same a b (omega arith),
          no_more b e (ground arith),
        )
        (yields
          (record { sorted = λ p q bp pq qe. absurd (ground arith); within = Within-refl b e a }))
  | inl some_entry ↦
      let start : Parted b e a (a ! b) a b (e - 1) b = record {
        within = subst (Within b e a) (sym (set-same a b (omega arith))) (Within-refl b e a);
        size = refl;
        first = omega arith;
        order = ground arith;
        last = ground arith;
        low = λ p lo hi. absurd (omega arith);
        high = λ q lo hi. absurd (omega arith);
      } in
      rw (read-ok a b (omega arith), ◌>>=◌)
        (Yields-bind
          (partition-Parted b e a (a ! b) (omega arith) (e - b + 1) a b (e - 1) start (omega arith))
          (λ r v.
            rw (write-ok (r.0) (r.1) (a ! b) (omega (arith, v.size, v.last)), ◌>>=◌)
              (sides k (quicksort-SortsRange k) a b e (a ! b) (r.0) (r.1) fits lt v)))
]

-- Where the array has an entry behind the first `n`, my_qsort ends and sorts the first `n` entries;
-- the others stay as they are.
pub my_qsort-Sorts : (a : List ℕ) (n : ℕ) → n < length a → Yields (Sorts n a) (my_qsort a n)
unfolding my_qsort
my_qsort-Sorts a n fits =
    Yields-weaken (quicksort-SortsRange (n + 1) a 0 n (omega arith) fits (omega arith))
      (λ r f. Sorts-of_range n a r f)
