-- ===== src/Sorting/Heapsort/Laws.antt =====
-- `heapsort` sorts.
use mathlib.Core.Path.{subst}
use code_learning.Base.{
  ℕ, zero, suc, ◌+◌, ◌-◌, ◌*◌, ◌/◌, ◌≤◌, ◌<◌, ◌≡◌, sym, true, ◌==◌, ltb, List, arith, length,
  length-set, set, ◌!◌, !-set, !-set_self, set-exchange, set-same, exchange, length-exchange,
  read-ok, write-ok, ok, ◌>>=◌, Yields, yields, Yields-bind, Yields-weaken, Bool-cases, inl, inr,
}
use code_learning.Sorting.{Sorts}
use code_learning.Sorting.HeapOrder.{
  IsHeap, HeapBut, IsLarger, Moved, Moved-refl, Moved-trans, Moved-exchange, Moved-longer,
  HeapBut-below, HeapBut-leaf, HeapBut-settled, HeapBut-exchange, Phase, Phase-start, HeapBut-root,
  Phase-step, Sorts-of_Phase,
}
use code_learning.Sorting.Heapsort.{
  swap, larger_child, percolate, percdown, build, shrink, heapsort,
}

swap-eq : (a : List ℕ) (i j : ℕ) → i < length a → j < length a → swap a i j ≡ ok (exchange a i j)
unfolding swap exchange
swap-eq a i j hi hj =
    rw (read-ok a i hi, read-ok a j hj, ◌>>=◌, write-ok a i (a ! j) hi)
      (write-ok (set a i (a ! j)) j (a ! i) (omega (arith, length-set a i (a ! j))))

-- the child is the larger one also for the array that has `tmp` at `i`
larger_child-IsLarger :
    (a : List ℕ) (tmp i n : ℕ)
    → n ≤ length a
    → 2 * i + 1 < n
    → Yields
        (λ c. IsLarger n (set a i tmp) i c × (a ! c ≡ set a i tmp ! c))
        (larger_child a (2 * i + 1) n)
unfolding larger_child
larger_child-IsLarger a tmp i n fits lt = elim (Bool-cases (2 * i + 1 == n - 1)) [
  | inl e ↦ rw e (yields (only e, same (2 * i + 1) (omega arith) (omega arith)))
  | inr e ↦
      rw (e, read-ok a (2 * i + 1 + 1) (ground arith), read-ok a (2 * i + 1) (omega arith), ◌>>=◌)
        (elim (Bool-cases (ltb (a ! (2 * i + 1)) (a ! (2 * i + 1 + 1)))) [
          | inl right ↦ rw right (
              yields (
                record {
                  inside = ground arith;
                  above = omega arith;
                  below = omega arith;
                  largest =
                      λ q lo hi lq. ground (arith, same q, same (2 * i + 1), same (2 * i + 1 + 1));
                },
                same (2 * i + 1 + 1) (omega arith) (ground arith),
              ))
          | inr left ↦ rw left (
              yields (
                record {
                  inside = omega arith;
                  above = omega arith;
                  below = omega arith;
                  largest =
                      λ q lo hi lq. ground (arith, same q, same (2 * i + 1), same (2 * i + 1 + 1));
                },
                same (2 * i + 1) (omega arith) (omega arith),
              ))
        ])
]
  where
    same : (q : ℕ) → i < q → q < n → a ! q ≡ set a i tmp ! q
    same q lo hi = ground (arith, !-set a i q tmp)

    only : (2 * i + 1 == n - 1) ≡ true → IsLarger n (set a i tmp) i (2 * i + 1)
    only e = record {
      inside = omega arith;
      above = omega arith;
      below = omega arith;
      largest = λ q lo hi lq. ground arith;
    }

abbrev Heaped : (s n : ℕ) (a b : List ℕ) → Type 0
Heaped s n a b = IsHeap s n b × Moved n a b

percolate-Heaped :
    (k s : ℕ) (a : List ℕ) (tmp i n : ℕ)
    → n ≤ length a
    → s ≤ i
    → i ≤ n
    → i < length a
    → n < k + i
    → HeapBut s n i (set a i tmp)
    → Yields (Heaped s n (set a i tmp)) (percolate k a tmp i n)
unfolding percolate
percolate-Heaped zero s a tmp i n fits si le hi lt v = absurd (omega arith)
percolate-Heaped (suc k) s a tmp i n fits si le hi lt v = elim (Bool-cases (ltb (2 * i + 1) n)) [
  | inr e ↦
      rw (e, write-ok a i tmp hi)
        (yields (HeapBut-leaf s n i (set a i tmp) v (ground arith), Moved-refl n (set a i tmp)))
  | inl e ↦ rw e (
      Yields-bind (larger_child-IsLarger a tmp i n fits (ground arith)) (λ c (l, at).
        rw (read-ok a c (omega (arith, l.inside)), ◌>>=◌)
          (elim (Bool-cases (ltb tmp (a ! c))) [
            | inl down ↦
                let moved =
                  set-exchange a tmp i c hi (omega (arith, l.inside)) (ground (arith, l.above)) in
                let w = exchange (set a i tmp) i c in
                let fits' : n ≤ length (set a i tmp) = omega (arith, length-set a i tmp) in
                let hole =
                  HeapBut-exchange s n i c (set a i tmp) fits' si v l
                    (ground (arith, !-set_self a i tmp hi)) in
                let rest : Yields (Heaped s n w) (percolate k (set a i (a ! c)) tmp c n) =
                  subst (λ x. Yields (Heaped s n x) (percolate k (set a i (a ! c)) tmp c n)) moved
                    (percolate-Heaped k s (set a i (a ! c)) tmp c n
                      (omega (arith, length-set a i (a ! c))) (omega (arith, l.above))
                      (omega (arith, l.inside)) (omega (arith, l.inside, length-set a i (a ! c)))
                      (omega (arith, l.above)) (subst (HeapBut s n c) (sym moved) hole)) in
                rw (down, write-ok a i (a ! c) hi, ◌>>=◌)
                  (Yields-weaken rest (λ b (h, m). (
                    h,
                    Moved-trans
                        (Moved-exchange n (set a i tmp) i c fits' (omega (arith, l.inside, l.above))
                          l.inside)
                        m,
                  )))
            | inr stay ↦
                rw (stay, write-ok a i tmp hi)
                  (yields (
                    HeapBut-settled s n i c (set a i tmp) v l
                        (ground (arith, !-set_self a i tmp hi)),
                    Moved-refl n (set a i tmp),
                  ))
          ])))
]

percdown-Heaped :
    (s : ℕ) (a : List ℕ) (i n : ℕ)
    → n ≤ length a
    → s ≤ i
    → i ≤ n
    → i < length a
    → HeapBut s n i a
    → Yields (Heaped s n a) (percdown a i n)
unfolding percdown
percdown-Heaped s a i n fits si le hi v =
    rw (read-ok a i hi, ◌>>=◌)
      (subst (λ x. Yields (Heaped s n x) (percolate (n + 1) a (a ! i) i n)) (set-same a i hi)
        (percolate-Heaped (n + 1) s a (a ! i) i n fits si le hi (omega arith)
          (subst (HeapBut s n i) (sym (set-same a i hi)) v)))

build-Heaped :
    (i : ℕ) (a : List ℕ) (n : ℕ)
    → n ≤ length a
    → i ≤ n + 1
    → i ≤ length a
    → IsHeap i n a
    → Yields (Heaped 0 n a) (build i a n)
unfolding build
build-Heaped zero a n fits le hi h = yields (h, Moved-refl n a)
build-Heaped (suc i) a n fits le hi h =
    Yields-bind
      (percdown-Heaped i a i n fits (omega arith) (omega arith) (omega arith)
        (HeapBut-below i n a h))
      (λ b (g, m).
        Yields-weaken
          (build-Heaped i b n (omega (arith, m.size)) (omega arith) (omega (arith, m.size)) g)
          (λ c (g', m'). (g', Moved-trans m m')))

shrink-Sorts :
    (n i : ℕ) (a : List ℕ)
    → n ≤ length a
    → i < n
    → Phase n (suc i) a
    → Yields (λ b. Phase n 1 b × Moved n a b) (shrink i a)
unfolding shrink
shrink-Sorts n zero a fits lt v = yields (v, Moved-refl n a)
shrink-Sorts n (suc i) a fits lt v =
    let w = exchange a 0 (suc i) in
    let size : length w ≡ length a = length-exchange a 0 (suc i) in
    rw (swap-eq a 0 (suc i) (omega arith) (omega arith), ◌>>=◌)
      (Yields-bind
        (percdown-Heaped 0 w 0 (suc i) (omega arith) (omega arith) (omega arith) (omega arith)
          (HeapBut-root n (suc i) a fits lt v))
        (λ b (h, m).
          Yields-weaken
            (shrink-Sorts n i b (omega (arith, m.size)) (omega arith)
              (Phase-step n (suc i) a b fits lt v h m))
            (λ c (p, m'). (
              p,
              Moved-trans (Moved-exchange n a 0 (suc i) fits (omega arith) lt)
                  (Moved-trans (Moved-longer (omega arith) m) m'),
            ))))

-- heapsort ends and sorts the first `n` entries, where the array has at least one entry; the others
-- stay as they are.
pub heapsort-Sorts :
    (a : List ℕ) (n : ℕ) → n ≤ length a → 0 < length a → Yields (Sorts n a) (heapsort a n)
unfolding heapsort shrink
heapsort-Sorts a zero fits some_entry =
    Yields-bind
      (build-Heaped (0 / 2 + 1) a 0 fits (omega arith) (omega arith)
        (λ p q lo lo' hi lt. absurd (omega arith)))
      (λ b (h, m). yields (Sorts-of_Phase 0 0 a b (omega arith) (Phase-start 0 b h) m))
heapsort-Sorts a (suc n) fits some_entry =
    Yields-bind
      (build-Heaped (suc n / 2 + 1) a (suc n) fits (omega arith) (omega arith)
        (λ p q lo lo' hi lt. absurd (omega arith)))
      (λ b (h, m). rw (minus_one n) (
        Yields-weaken
          (shrink-Sorts (suc n) n b (omega (arith, m.size)) (omega arith) (Phase-start (suc n) b h))
          (λ c (p, m'). Sorts-of_Phase (suc n) 1 a c (omega arith) p (Moved-trans m m'))))
  where
    minus_one : (n : ℕ) → suc n - 1 ≡ n
    minus_one n = omega arith
