-- ===== src/Clrs/Bubble/Laws.antt =====
-- Bubble sort sorts.
use code_learning.Base.{
  ℕ, zero, suc, ◌+◌, ◌-◌, ◌≤◌, ◌<◌, ◌≡◌, refl, List, arith, ltb, ok, Yields, yields, Yields-bind,
  Yields-weaken, Yields-split, length, read-ok, ◌!◌, !-exchange, if◌then◌else◌,
}
use code_learning.Sorting.{Sorts, Rearranges, Rearranges-trans}
use code_learning.Clrs.{swap, swap-exchange}
use code_learning.Clrs.Placing.{
  Placed, Placed-suc, Placed-exchange, Rearranges-exchange, IsLeast, Round, Sorts-of_Placed,
}
use code_learning.Clrs.Bubble.{bubble, bubble_rounds, bubblesort}

-- one comparison of neighbours: the smaller comes to stand first
record Lifted (i n j : ℕ) (a b : List ℕ) : Type 0 where
  placed : Placed i n b
  least : IsLeast (j - 1) (j - 1) n b
  same : Rearranges n a b

lift :
    (i n j : ℕ) (a : List ℕ)
    → i < j
    → j < n
    → n ≤ length a
    → Placed i n a
    → IsLeast j j n a
    → Yields (Lifted i n j a) (if ltb (a ! j) (a ! (j - 1)) then swap a j (j - 1) else ok a)
lift i n j a lt lt' size h l = rw (swap-exchange a j (j - 1) (omega arith) (omega arith)) (
    Yields-split (ltb (a ! j) (a ! (j - 1)))
      (λ e. yields (record {
        placed =
            Placed-exchange i n j (j - 1) a (omega arith) lt' (omega arith) (omega arith) size h;
        least = λ q le q<n. ground (
          arith,
          !-exchange a j (j - 1) (omega arith) (omega arith) q,
          !-exchange a j (j - 1) (omega arith) (omega arith) (j - 1),
          l q,
        );
        same = Rearranges-exchange n j (j - 1) a lt' (omega arith) size;
      }))
      (λ e. yields (record {
        placed = h;
        least = λ q le q<n. ground (arith, l q, eq_index (j - 1) q);
        same = record { counts = λ v. refl; size = refl; rest = λ p p≥n. refl };
      })))
  where
    eq_index : (p k : ℕ) → p ≡ k → a ! p ≡ a ! k
    eq_index p k e = rw e

bubble-Round :
    (rounds i n j : ℕ) (a : List ℕ)
    → i + rounds ≡ j
    → j < n
    → n ≤ length a
    → Placed i n a
    → IsLeast j j n a
    → Yields (Round i n a) (bubble rounds a j)
unfolding bubble
bubble-Round zero i n j a e lt size h l =
    let e' : j ≡ i = omega arith in
    yields (record {
      placed = h;
      least = rw e' at l;
      same = record { counts = λ v. refl; size = refl; rest = λ p p≥n. refl };
    })
bubble-Round (suc rounds) i n j a e lt size h l =
    rw (read-ok a j (omega arith), read-ok a (j - 1) (omega arith))
      (Yields-bind (lift i n j a (omega arith) lt size h l) λ b s.
        let kept = s.same in
        Yields-weaken
          (bubble-Round rounds i n (j - 1) b (omega arith) (omega arith) (omega (arith, kept.size))
            s.placed s.least)
          λ c r. record { placed = r.placed; least = r.least; same = Rearranges-trans kept r.same })

last_least : (n : ℕ) (a : List ℕ) → IsLeast (n - 1) (n - 1) n a
last_least n a q le lt = ground (arith, eq_index (n - 1) q)
  where
    eq_index : (p k : ℕ) → p ≡ k → a ! p ≡ a ! k
    eq_index p k e = rw e

bubble_rounds-Sorts :
    (rounds i n : ℕ) (a : List ℕ)
    → i + rounds ≡ n - 1
    → n ≤ length a
    → Placed i n a
    → Yields (Sorts n a) (bubble_rounds rounds a i n)
unfolding bubble_rounds
bubble_rounds-Sorts zero i n a e size h = yields (
    Sorts-of_Placed i n a a (omega arith) h
      (record { counts = λ v. refl; size = refl; rest = λ p p≥n. refl }))
bubble_rounds-Sorts (suc rounds) i n a e size h =
    Yields-bind
      (bubble-Round (n - 1 - i) i n (n - 1) a (omega arith) (omega arith) size h (last_least n a))
      λ b r.
        let kept = r.same in
        Yields-weaken
          (bubble_rounds-Sorts rounds (i + 1) n b (omega arith) (omega (arith, kept.size))
            (Placed-suc i n b r.placed r.least))
          λ c s.
            let all =
              Rearranges-trans kept (record { counts = s.counts; size = s.size; rest = s.rest }) in
            record { sorted = s.sorted; counts = all.counts; size = all.size; rest = all.rest }

-- `bubblesort` on the first `n` entries of an array returns, without a fault, with these entries
-- sorted, each number as often as before, and the rest of the array as it was.
bubblesort-Sorts : (a : List ℕ) (n : ℕ) → n ≤ length a → Yields (Sorts n a) (bubblesort a n)
unfolding bubblesort
bubblesort-Sorts a n size =
    bubble_rounds-Sorts (n - 1) 0 n a (omega arith) size (λ p q lt le lt'. absurd (omega arith))
