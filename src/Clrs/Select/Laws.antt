-- ===== src/Clrs/Select/Laws.antt =====
-- Selection sort sorts.
use code_learning.Base.{
  ℕ, zero, suc, ◌+◌, ◌-◌, ◌≤◌, ◌<◌, ◌≡◌, refl, List, arith, ltb, Yields, yields, Yields-bind,
  Yields-weaken, length, read-ok, ◌!◌, !-exchange, exchange, if◌then◌else◌,
}
use code_learning.Sorting.{Sorts, Rearranges-trans}
use code_learning.Clrs.{swap-exchange}
use code_learning.Clrs.Placing.{
  Placed, Placed-suc, Placed-exchange, Rearranges-exchange, IsLeast, Round, Sorts-of_Placed,
}
use code_learning.Clrs.Select.{least, select_rounds, selectsort}

-- the index of a least entry of a[i..n)
record Chosen (i n : ℕ) (a : List ℕ) (m : ℕ) : Type 0 where
  from : i ≤ m
  below : m < n
  least : IsLeast m i n a

least-Chosen :
    (rounds i n j m : ℕ) (a : List ℕ)
    → i + rounds ≡ j
    → j < n
    → n ≤ length a
    → i ≤ m
    → m < n
    → a ! m ≤ a ! i
    → IsLeast m (suc j) n a
    → Yields (Chosen i n a) (least rounds a j m)
unfolding least
least-Chosen zero i n j m a e lt size h h' l₀ l =
    yields (record { from = h; below = h'; least = λ q le q<n. ground (arith, l q, eq_index q i) })
  where
    eq_index : (p k : ℕ) → p ≡ k → a ! p ≡ a ! k
    eq_index p k e = rw e
least-Chosen (suc rounds) i n j m a e lt size h h' l₀ l =
    rw (read-ok a j (omega arith), read-ok a m (omega arith))
      (least-Chosen rounds i n (j - 1) (if ltb (a ! j) (a ! m) then j else m) a (omega arith)
        (omega arith) size (ground arith) (ground arith) (ground arith)
        (λ q le q<n. ground (arith, l q, eq_index j q)))
  where
    eq_index : (p k : ℕ) → p ≡ k → a ! p ≡ a ! k
    eq_index p k e = rw e

exchange-Round :
    (i n m : ℕ) (a : List ℕ)
    → n ≤ length a
    → Placed i n a
    → Chosen i n a m
    → Round i n a (exchange a i m)
exchange-Round i n m a size h c =
    let from = c.from in
    let below = c.below in
    record {
      placed = Placed-exchange i n i m a (omega arith) (omega arith) from below size h;
      least = λ q le q<n. ground (
        arith,
        !-exchange a i m (omega arith) (omega arith) i,
        !-exchange a i m (omega arith) (omega arith) q,
        c.least q,
        c.least i,
        eq_index i m,
      );
      same = Rearranges-exchange n i m a (omega arith) below size;
    }
  where
    eq_index : (p k : ℕ) → p ≡ k → a ! p ≡ a ! k
    eq_index p k e = rw e

select_rounds-Sorts :
    (rounds i n : ℕ) (a : List ℕ)
    → i + rounds ≡ n - 1
    → n ≤ length a
    → Placed i n a
    → Yields (Sorts n a) (select_rounds rounds a i n)
unfolding select_rounds
select_rounds-Sorts zero i n a e size h = yields (
    Sorts-of_Placed i n a a (omega arith) h
      (record { counts = λ v. refl; size = refl; rest = λ p p≥n. refl }))
select_rounds-Sorts (suc rounds) i n a e size h =
    Yields-bind
      (least-Chosen (n - 1 - i) i n (n - 1) i a (omega arith) (omega arith) size (omega arith)
        (omega arith) (omega arith) (λ q le lt. absurd (omega arith)))
      λ m c.
        let r = exchange-Round i n m a size h c in
        let kept = r.same in
        let below = c.below in
        rw (swap-exchange a i m (omega arith) (omega arith)) (
          Yields-weaken
            (select_rounds-Sorts rounds (i + 1) n (exchange a i m) (omega arith)
              (omega (arith, kept.size)) (Placed-suc i n (exchange a i m) r.placed r.least))
            λ d s.
              let all =
                Rearranges-trans kept
                  (record { counts = s.counts; size = s.size; rest = s.rest }) in
              record { sorted = s.sorted; counts = all.counts; size = all.size; rest = all.rest })

-- `selectsort` on the first `n` entries of an array returns, without a fault, with these entries
-- sorted, each number as often as before, and the rest of the array as it was.
selectsort-Sorts : (a : List ℕ) (n : ℕ) → n ≤ length a → Yields (Sorts n a) (selectsort a n)
unfolding selectsort
selectsort-Sorts a n size =
    select_rounds-Sorts (n - 1) 0 n a (omega arith) size (λ p q lt le lt'. absurd (omega arith))
