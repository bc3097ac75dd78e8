-- ===== src/Clrs/HeapSort/Laws.antt =====
-- The heapsort of clrs/sorting.c sorts.
use mathlib.Core.Path.{subst}
use code_learning.Base.{
  ℕ, zero, suc, ◌+◌, ◌-◌, ◌*◌, ◌/◌, ◌≤◌, ◌<◌, ◌≡◌, ltb, leb, List, arith, length, ◌!◌, exchange,
  length-exchange, read-ok, ◌>>=◌, Yields, yields, Yields-bind, Yields-weaken, Bool-cases, inl, inr,
}
use code_learning.Sorting.{Sorts}
use code_learning.Sorting.HeapOrder.{
  IsHeap, HeapBut, IsLarger, Moved, Moved-refl, Moved-trans, Moved-exchange, Moved-longer,
  HeapBut-below, HeapBut-leaf, HeapBut-settled, HeapBut-exchange, HeapBut-of_heap, Phase,
  Phase-start, HeapBut-root, Phase-step, Sorts-of_Phase,
}
use code_learning.Clrs.{swap-exchange}
use code_learning.Clrs.HeapSort.{bigger_child, sink, build, buildheap, shrink, heapsort}

-- node `suc i` is index `i`
bigger_child-IsLarger :
    (a : List ℕ) (i n : ℕ)
    → n ≤ length a
    → 2 * suc i ≤ n
    → Yields (λ c. IsLarger n a i (c - 1) × (0 < c)) (bigger_child a (suc i) n)
unfolding bigger_child
bigger_child-IsLarger a i n fits le = elim (Bool-cases (ltb n (2 * suc i + 1))) [
  | inl e ↦ rw e (
      yields (
        record {
          inside = omega arith;
          above = omega arith;
          below = omega arith;
          largest = λ q lo hi lt. ground (arith, eq_index a q (2 * suc i - 1));
        },
        omega arith,
      ))
  | inr e ↦
      rw (e, read-ok a (2 * suc i - 1) (omega arith), read-ok a (2 * suc i) (ground arith), ◌>>=◌)
        (elim (Bool-cases (ltb (a ! (2 * suc i)) (a ! (2 * suc i - 1)))) [
          | inl left ↦ rw left (
              yields (
                record {
                  inside = omega arith;
                  above = omega arith;
                  below = omega arith;
                  largest = λ q lo hi lt.
                      ground (arith, eq_index a q (2 * suc i - 1), eq_index a q (2 * suc i));
                },
                omega arith,
              ))
          | inr right ↦ rw right (
              yields (
                record {
                  inside = ground arith;
                  above = omega arith;
                  below = omega arith;
                  largest = λ q lo hi lt. ground (
                    arith,
                    eq_index a q (2 * suc i - 1),
                    eq_index a q (2 * suc i),
                    eq_index a (2 * suc i + 1 - 1) (2 * suc i),
                  );
                },
                omega arith,
              ))
        ])
]
  where
    eq_index : (a : List ℕ) (i j : ℕ) → i ≡ j → a ! i ≡ a ! j
    eq_index a i j e = rw e

minus_one : (i : ℕ) → suc i - 1 ≡ i
minus_one i = omega arith

suc_minus_one : (c : ℕ) → 0 < c → suc (c - 1) ≡ c
suc_minus_one c h = omega arith

abbrev Heaped : (s n : ℕ) (a b : List ℕ) → Type 0
Heaped s n a b = IsHeap s n b × Moved n a b

sink-Heaped :
    (k s : ℕ) (a : List ℕ) (i n : ℕ)
    → n ≤ length a
    → s ≤ i
    → i ≤ n
    → n < k + i
    → HeapBut s n i a
    → Yields (Heaped s n a) (sink k a (suc i) n)
unfolding sink
sink-Heaped zero s a i n fits si le lt v = absurd (omega arith)
sink-Heaped (suc k) s a i n fits si le lt v = elim (Bool-cases (leb (2 * suc i) n)) [
  | inr e ↦ rw e (yields (HeapBut-leaf s n i a v (ground arith), Moved-refl n a))
  | inl e ↦ rw e (
      Yields-bind (bigger_child-IsLarger a i n fits (ground arith)) (λ c (l, some_child).
        let hc : c - 1 < length a = omega (arith, l.inside) in
        let hi : i < length a = omega (arith, l.inside, l.above) in
        rw (minus_one i, read-ok a i hi, read-ok a (c - 1) hc, ◌>>=◌)
          (elim (Bool-cases (ltb (a ! i) (a ! (c - 1)))) [
            | inl up ↦
                let w = exchange a i (c - 1) in
                let hole = HeapBut-exchange s n i (c - 1) a fits si v l (ground arith) in
                let rest =
                  sink-Heaped k s w (c - 1) n (omega (arith, length-exchange a i (c - 1)))
                    (omega (arith, l.above)) (omega (arith, l.inside)) (omega (arith, l.above))
                    hole in
                rw (up, swap-exchange a i (c - 1) hi hc, ◌>>=◌)
                  (Yields-weaken
                    (subst (λ x. Yields (Heaped s n w) (sink k w x n)) (suc_minus_one c some_child)
                      rest)
                    (λ b (h, m). (
                      h,
                      Moved-trans
                          (Moved-exchange n a i (c - 1) fits (omega (arith, l.inside, l.above))
                            l.inside)
                          m,
                    )))
            | inr stay ↦
                let hole =
                  HeapBut-of_heap s n (c - 1) a
                    (HeapBut-settled s n i (c - 1) a v l (ground arith)) in
                let rest =
                  sink-Heaped k s a (c - 1) n fits (omega (arith, l.above))
                    (omega (arith, l.inside)) (omega (arith, l.above)) hole in
                rw (stay, ◌>>=◌)
                  (subst (λ x. Yields (Heaped s n a) (sink k a x n)) (suc_minus_one c some_child)
                    rest)
          ])))
]

build-Heaped :
    (i : ℕ) (a : List ℕ) (n : ℕ)
    → n ≤ length a
    → i ≤ n
    → IsHeap i n a
    → Yields (Heaped 0 n a) (build i a n)
unfolding build
build-Heaped zero a n fits le h = yields (h, Moved-refl n a)
build-Heaped (suc i) a n fits le h =
    Yields-bind
      (sink-Heaped (n + 1) i a i n fits (omega arith) (omega arith) (omega arith)
        (HeapBut-below i n a h))
      (λ b (g, m).
        Yields-weaken (build-Heaped i b n (omega (arith, m.size)) (omega arith) g)
          (λ c (g', m'). (g', Moved-trans m m')))

shrink-Phase :
    (n i : ℕ) (a : List ℕ)
    → n ≤ length a
    → i ≤ n
    → Phase n i a
    → Yields (λ b. Phase n 0 b × Moved n a b) (shrink i a)
unfolding shrink
shrink-Phase n zero a fits le v = yields (v, Moved-refl n a)
shrink-Phase n (suc i) a fits le v =
    let w = exchange a 0 i in
    let size : length w ≡ length a = length-exchange a 0 i in
    rw (minus_one i, swap-exchange a 0 i (omega arith) (omega arith), ◌>>=◌)
      (Yields-bind
        (sink-Heaped (suc i) 0 w 0 i (omega arith) (omega arith) (omega arith) (omega arith)
          (HeapBut-root n i a fits (omega arith) v))
        (λ b (h, m).
          Yields-weaken
            (shrink-Phase n i b (omega (arith, m.size)) (omega arith)
              (Phase-step n i a b fits (omega arith) v h m))
            (λ c (p, m'). (
              p,
              Moved-trans (Moved-exchange n a 0 i fits (omega arith) (omega arith))
                  (Moved-trans (Moved-longer (omega arith) m) m'),
            ))))

-- The heapsort of clrs/sorting.c ends and sorts the first `n` entries; the others stay as they are.
pub heapsort_clrs-Sorts : (a : List ℕ) (n : ℕ) → n ≤ length a → Yields (Sorts n a) (heapsort a n)
unfolding heapsort buildheap
heapsort_clrs-Sorts a n fits =
    Yields-bind
      (build-Heaped (n / 2) a n fits (omega arith) (λ p q lo lo' hi lt. absurd (omega arith)))
      (λ b (h, m).
        Yields-weaken (shrink-Phase n n b (omega (arith, m.size)) (omega arith) (Phase-start n b h))
          (λ c (p, m'). Sorts-of_Phase n 0 a c (omega arith) p (Moved-trans m m')))
