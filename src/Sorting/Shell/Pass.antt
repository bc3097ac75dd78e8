-- ===== src/Sorting/Shell/Pass.antt =====
-- One pass of shellsort orders the entries that lie an increment apart.
use code_learning.Base.{
  ℕ, zero, suc, ◌+◌, ◌-◌, ◌/◌, ◌≤◌, ◌<◌, ◌≡◌, refl, ◌≢◌, List, arith, ltb, leb, ok, Yields, yields,
  Yields-bind, Yields-weaken, Yields-split, length, length-set, set, write-ok, read-ok, ◌!◌, !-set,
  count, count-set, same, SameCounts, ◌∙◌, ◌⊎◌, inl, inr, ltb→lt, ltb→ge,
}
use code_learning.Sorting.{IsGapSorted, Sorts, Rearranges, Rearranges-trans, IsSorted-of_steps}
use code_learning.Sorting.Shell.{shift, pass, gaps, shellsort}

-- `tmp` may go to `j`: everything up to `i` is ordered but for that place
record Gap (a : List ℕ) (g i j tmp : ℕ) : Type 0 where
  positive : 0 < g
  below : j ≤ i
  inside : i < length a
  edges : (p : ℕ) → p + g ≤ i → p + g ≢ j → p ≢ j → a ! p ≤ a ! (p + g)
  above : j + g ≤ i → tmp ≤ a ! (j + g)
  bridge : g ≤ j → j + g ≤ i → a ! (j - g) ≤ a ! (j + g)

record Filled (a : List ℕ) (g i j tmp : ℕ) (b : List ℕ) : Type 0 where
  ordered : IsGapSorted g (suc i) b
  counts : SameCounts b (set a j tmp)
  size : length b ≡ length a
  rest : (p : ℕ) → i < p → b ! p ≡ a ! p

move-Gap :
    (a : List ℕ) (g i j tmp : ℕ)
    → Gap a g i j tmp
    → g ≤ j
    → tmp < a ! (j - g)
    → Gap (set a j (a ! (j - g))) g i (j - g) tmp
move-Gap a g i j tmp v h lt = grind (arith, length-set a j (a ! (j - g)), !-set a j)

move-counts :
    (a : List ℕ) (g j tmp w : ℕ)
    → 0 < g
    → g ≤ j
    → j < length a
    → count w (set (set a j (a ! (j - g))) (j - g) tmp) ≡ count w (set a j tmp)
move-counts a g j tmp w pos h lt =
    let b = set a j (a ! (j - g)) in
    omega (
      arith,
      length-set a j (a ! (j - g)),
      count-set w b (j - g) tmp (omega (arith, length-set a j (a ! (j - g)))),
      kept,
      count-set w a j (a ! (j - g)) lt,
      count-set w a j tmp lt,
    )
  where
    kept : same w (set a j (a ! (j - g)) ! (j - g)) ≡ same w (a ! (j - g))
    kept = ground (arith, !-set a j (j - g) (a ! (j - g)) lt)

stop-Filled :
    (a : List ℕ) (g i j tmp : ℕ)
    → Gap a g i j tmp
    → (g ≤ j → a ! (j - g) ≤ tmp)
    → Yields (Filled a g i j tmp) (ok (set a j tmp))
stop-Filled a g i j tmp v settled = yields (record {
  ordered = λ p h. grind (arith, !-set a j p tmp, !-set a j (p + g) tmp, v.edges p);
  counts = λ w. refl;
  size = length-set a j tmp;
  rest = λ p h. ground (arith, !-set a j p tmp);
})

shift-Filled :
    (k : ℕ) (a : List ℕ) (g i j tmp : ℕ)
    → j < k
    → Gap a g i j tmp
    → Yields (Filled a g i j tmp) (shift k a g j tmp)
unfolding shift
shift-Filled zero a g i j tmp f v = absurd (omega arith)
shift-Filled (suc k) a g i j tmp f v =
    Yields-split (leb g j)
      (λ e.
        let le : g ≤ j = ground arith in
        let pos = v.positive in
        let inside = v.inside in
        let below = v.below in
        rw
          (
            read-ok a (j - g) (omega arith),
            write-ok a j (a ! (j - g)) (omega arith),
            write-ok a j tmp (omega arith),
          )
          (Yields-split (ltb tmp (a ! (j - g)))
            (λ lt.
              Yields-weaken
                (shift-Filled k (set a j (a ! (j - g))) g i (j - g) tmp (omega arith)
                  (move-Gap a g i j tmp v le (ground arith)))
                λ b r. record {
                  ordered = r.ordered;
                  counts = λ w. r.counts w ∙ move-counts a g j tmp w pos le (omega arith);
                  size = r.size ∙ length-set a j (a ! (j - g));
                  rest = λ p h. ground (arith, r.rest p h, !-set a j p (a ! (j - g)));
                })
            (λ ge. stop-Filled a g i j tmp v (λ h. ground arith))))
      (λ e.
        let inside = v.inside in
        let below = v.below in
        rw (write-ok a j tmp (omega arith)) (stop-Filled a g i j tmp v (λ h. ground arith)))

-- what a pass leaves after `m - i` rounds
pub record Passed (a : List ℕ) (g m : ℕ) (b : List ℕ) : Type 0 where
  pub ordered : IsGapSorted g m b
  pub same : Rearranges m a b

start-Gap : (a : List ℕ) (g i : ℕ) → 0 < g → i < length a → IsGapSorted g i a → Gap a g i i (a ! i)
start-Gap a g i pos lt h = record {
  positive = pos;
  below = omega arith;
  inside = lt;
  edges = λ p le ne nj. grind (arith, h p);
  above = λ le. absurd (omega arith);
  bridge = λ le le'. absurd (omega arith);
}

pass-Passed :
    (rounds : ℕ) (a : List ℕ) (g i m : ℕ)
    → 0 < g
    → i + rounds ≡ m
    → m ≤ length a
    → IsGapSorted g i a
    → Yields (Passed a g m) (pass rounds a g i)
unfolding pass
pass-Passed zero a g i m pos e le h =
    let e' : i ≡ m = omega arith in
    yields (record {
      ordered = rw (← e') h;
      same = record { counts = λ v. refl; size = refl; rest = λ p h'. refl };
    })
pass-Passed (suc rounds) a g i m pos e le h =
    let lt : i < length a = omega arith in
    rw (read-ok a i lt) (
      Yields-bind (shift-Filled (i + 1) a g i i (a ! i) (omega arith) (start-Gap a g i pos lt h))
        λ b f.
          Yields-weaken
            (pass-Passed rounds b g (i + 1) m pos (omega arith) (omega (arith, f.size))
              (λ p q. f.ordered p (omega arith)))
            λ c r. record {
              ordered = r.ordered;
              same =
                  Rearranges-trans
                    (record {
                      counts = λ v. omega (arith, f.counts v, count-set v a i (a ! i) lt);
                      size = f.size;
                      rest = λ p q. f.rest p (omega arith);
                    })
                    r.same;
            })

-- A pass of `shellsort` over `n` entries ends without a fault, leaves all entries that lie
-- `increment` apart in order, and only rearranges the array.
pub pass_orders :
    (a : List ℕ) (increment n : ℕ)
    → 0 < increment
    → increment ≤ n
    → n ≤ length a
    → Yields (Passed a increment n) (pass (n - increment) a increment increment)
pass_orders a g n pos le size =
    pass-Passed (n - g) a g g n pos (omega arith) size (λ p h. absurd (omega arith))

gaps-Sorts :
    (k : ℕ) (a : List ℕ) (g n : ℕ)
    → g < k
    → g ≤ n
    → n ≤ length a
    → ((0 < g) ⊎ IsGapSorted 1 n a)
    → Yields (Sorts n a) (gaps k a g n)
unfolding gaps
gaps-Sorts zero a g n f le size h = absurd (omega arith)
gaps-Sorts (suc k) a g n f le size h =
    Yields-split (ltb 0 g)
      (λ e. Yields-bind (pass_orders a g n (ground arith) le size) λ b r.
        let same = r.same in
        Yields-weaken
          (gaps-Sorts k b (g / 2) n (omega (arith, ltb→lt 0 g e)) (omega arith)
            (omega (arith, same.size)) (next b g (r.ordered) (ltb→lt 0 g e)))
          λ c s.
            let all =
              Rearranges-trans same (record { counts = s.counts; size = s.size; rest = s.rest }) in
            record { sorted = s.sorted; counts = all.counts; size = all.size; rest = all.rest })
      (λ e. yields (record {
        sorted = IsSorted-of_steps n a (last h (ltb→ge 0 g e));
        counts = λ v. refl;
        size = refl;
        rest = λ p q. refl;
      }))
  where
    next : (b : List ℕ) (g' : ℕ) → IsGapSorted g' n b → 0 < g' → (0 < g' / 2) ⊎ IsGapSorted 1 n b
    next b zero o pos = absurd (omega arith)
    next b (suc zero) o pos = inr o
    next b (suc (suc g')) o pos = inl (omega arith)

    last : (0 < g) ⊎ IsGapSorted 1 n a → g ≤ 0 → IsGapSorted 1 n a
    last (inl pos) z = absurd (omega arith)
    last (inr o) z = o

-- `shellsort` on the first `n` entries of an array returns, without a fault, with these entries
-- sorted, each number as often as before, and the rest of the array as it was.
pub shellsort-Sorts : (a : List ℕ) (n : ℕ) → n ≤ length a → Yields (Sorts n a) (shellsort a n)
unfolding shellsort
shellsort-Sorts a n size =
    gaps-Sorts (n / 2 + 1) a (n / 2) n (omega arith) (omega arith) size (start n)
  where
    start : (m : ℕ) → (0 < m / 2) ⊎ IsGapSorted 1 m a
    start zero = inr (λ p h. absurd (omega arith))
    start (suc zero) = inr (λ p h. absurd (omega arith))
    start (suc (suc m)) = inl (omega arith)
