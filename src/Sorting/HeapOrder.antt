-- ===== src/Sorting/HeapOrder.antt =====
-- The order of a heap in an array, the largest entry at index 0, for the heapsorts of
-- data_structure_and_algorithm/sort/heapsort.c and clrs/sorting.c. The children of `p` are
-- 2 * p + 1 and 2 * p + 2.
use code_learning.Base.{
  ℕ, zero, suc, ◌+◌, ◌*◌, ◌/◌, ◌≤◌, ◌<◌, ◌≡◌, refl, false, ◌==◌, List, arith, length, ◌!◌,
  SameCounts, exchange, !-exchange, length-exchange, count-exchange, ltb, Bool-cases, inl, inr,
}
use code_learning.Sorting.{IsSorted, Sorts}

abbrev IsChild : (p q : ℕ) → Type 0
IsChild p q = (2 * p < q) × (q ≤ 2 * p + 2)

-- the edges from `s` on are in order, among the first `n` entries
abbrev pub IsHeap : (s n : ℕ) → List ℕ → Type 0
IsHeap s n a = (p q : ℕ) → s ≤ p → 2 * p < q → q ≤ 2 * p + 2 → q < n → a ! q ≤ a ! p

-- as a heap, but the entry at `i` may be too small for its place
pub record HeapBut (s n i : ℕ) (a : List ℕ) : Type 0 where
  pub edges :
      (p q : ℕ) → s ≤ p → 2 * p < q → q ≤ 2 * p + 2 → q < n → (p == i) ≡ false → a ! q ≤ a ! p
  pub bridged :
      (p q : ℕ)
      → s ≤ p
      → 2 * p < i
      → i ≤ 2 * p + 2
      → 2 * i < q
      → q ≤ 2 * i + 2
      → q < n
      → a ! q ≤ a ! p

-- `c` is the child of `i` with the larger entry
pub record IsLarger (n : ℕ) (a : List ℕ) (i c : ℕ) : Type 0 where
  pub inside : c < n
  pub above : 2 * i < c
  pub below : c ≤ 2 * i + 2
  pub largest : (q : ℕ) → 2 * i < q → q ≤ 2 * i + 2 → q < n → a ! q ≤ a ! c

-- `b` is `a` with its first `n` entries rearranged, within their bounds
pub record Moved (n : ℕ) (a b : List ℕ) : Type 0 where
  pub counts : SameCounts b a
  pub size : length b ≡ length a
  pub rest : (p : ℕ) → n ≤ p → b ! p ≡ a ! p
  pub bounds : (m : ℕ) → ((p : ℕ) → p < n → a ! p ≤ m) → (p : ℕ) → p < n → b ! p ≤ m

pub Moved-refl : (n : ℕ) (a : List ℕ) → Moved n a a
Moved-refl n a = record { counts = λ v. refl; size = refl; rest = λ p h. refl; bounds = λ m h. h }

pub Moved-trans : {n : ℕ} {a b c : List ℕ} → Moved n a b → Moved n b c → Moved n a c
Moved-trans f g = record {
  counts = λ v. omega (arith, f.counts v, g.counts v);
  size = omega (arith, f.size, g.size);
  rest = λ p h. omega (arith, f.rest p h, g.rest p h);
  bounds = λ m h. g.bounds m (f.bounds m h);
}

pub Moved-exchange :
    (n : ℕ) (a : List ℕ) (i j : ℕ) → n ≤ length a → i < n → j < n → Moved n a (exchange a i j)
Moved-exchange n a i j fits hi hj =
    let at = !-exchange a i j (omega arith) (omega arith) in
    record {
      counts = count-exchange a i j (omega arith) (omega arith);
      size = length-exchange a i j;
      rest = λ p h. ground (arith, at p);
      bounds = λ m h p lt. ground (arith, at p, h i, h j, h p);
    }

pub HeapBut-of_heap : (s n i : ℕ) (a : List ℕ) → IsHeap s n a → HeapBut s n i a
HeapBut-of_heap s n i a h = record {
  edges = λ p q sp lo hi lt ne. h p q sp lo hi lt;
  bridged = λ p q sp lo hi lo' hi' lt. omega (arith, h p i sp lo hi, h i q);
}

-- one more edge's parent
pub HeapBut-below : (s n : ℕ) (a : List ℕ) → IsHeap (suc s) n a → HeapBut s n s a
HeapBut-below s n a h = record {
  edges = λ p q sp lo hi lt ne. h p q (ground arith) lo hi lt;
  bridged = λ p q sp lo hi lo' hi' lt. absurd (omega arith);
}

pub HeapBut-leaf : (s n i : ℕ) (a : List ℕ) → HeapBut s n i a → n ≤ 2 * i + 1 → IsHeap s n a
HeapBut-leaf s n i a v leaf p q sp lo hi lt = ground (arith, v.edges p q)

pub HeapBut-settled :
    (s n i c : ℕ) (a : List ℕ) → HeapBut s n i a → IsLarger n a i c → a ! c ≤ a ! i → IsHeap s n a
HeapBut-settled s n i c a v l le p q sp lo hi lt = ground (arith, v.edges p q, l.largest q)

pub HeapBut-exchange :
    (s n i c : ℕ) (a : List ℕ)
    → n ≤ length a
    → s ≤ i
    → HeapBut s n i a
    → IsLarger n a i c
    → a ! i ≤ a ! c
    → HeapBut s n c (exchange a i c)
HeapBut-exchange s n i c a fits si v l le =
    let at = !-exchange a i c (omega (arith, l.inside, l.above)) (omega (arith, l.inside)) in
    record {
      edges = λ p q sp lo hi lt ne.
          ground (
            arith,
            at p,
            at q,
            v.edges p q,
            v.bridged p c,
            l.largest q,
            l.above,
            l.below,
            l.inside,
          );
      bridged = λ p q sp lo hi lo' hi' lt.
          ground (arith, at p, at q, v.edges c q, l.above, l.below, l.inside);
    }

-- the root of a heap is its largest entry
root_below : (k n : ℕ) (a : List ℕ) (p : ℕ) → IsHeap 0 n a → p < k → p < n → a ! p ≤ a ! 0
root_below zero n a p h lt ltn = absurd (omega arith)
root_below (suc k) n a zero h lt ltn = omega arith
root_below (suc k) n a (suc p) h lt ltn =
    ground (arith, root_below k n a (p / 2) h, h (p / 2) (suc p))

root-largest : (n : ℕ) (a : List ℕ) (p : ℕ) → IsHeap 0 n a → p < n → a ! p ≤ a ! 0
root-largest n a p h lt = root_below (suc p) n a p h (omega arith) lt

-- the sorting phase: a heap of `i` entries, and behind it the largest ones in order
pub record Phase (n i : ℕ) (a : List ℕ) : Type 0 where
  pub heap : IsHeap 0 i a
  pub sorted : (p q : ℕ) → i ≤ p → p ≤ q → q < n → a ! p ≤ a ! q
  pub below : (p q : ℕ) → p < i → i ≤ q → q < n → a ! p ≤ a ! q

pub Phase-start : (n : ℕ) (a : List ℕ) → IsHeap 0 n a → Phase n n a
Phase-start n a h = record {
  heap = h;
  sorted = λ p q lo le hi. absurd (omega arith);
  below = λ p q lo le hi. absurd (omega arith);
}

-- the root is put behind the heap, and the entry there becomes the root
pub HeapBut-root :
    (n i : ℕ) (a : List ℕ)
    → n ≤ length a
    → i < n
    → Phase n (suc i) a
    → HeapBut 0 i 0 (exchange a 0 i)
HeapBut-root n i a fits lt v =
    let at = !-exchange a 0 i (omega arith) (omega arith) in
    record {
      edges = λ p q sp lo hi ltq ne. ground (arith, at p, at q, v.heap p q);
      bridged = λ p q sp lo hi lo' hi' ltq. absurd (omega arith);
    }

pub Phase-step :
    (n i : ℕ) (a b : List ℕ)
    → n ≤ length a
    → i < n
    → Phase n (suc i) a
    → IsHeap 0 i b
    → Moved i (exchange a 0 i) b
    → Phase n i b
Phase-step n i a b fits lt v h m =
    let at = !-exchange a 0 i (omega arith) (omega arith) in
    let top : (p : ℕ) → p < i → b ! p ≤ a ! 0 = m.bounds (a ! 0) (λ p lp.
      ground (arith, at p, root-largest (suc i) a p v.heap, root-largest (suc i) a i v.heap)) in
    record {
      heap = h;
      sorted =
          λ p q lo le hi. ground (arith, m.rest p, m.rest q, at p, at q, v.sorted p q, v.below 0 q);
      below = λ p q lo le hi. ground (arith, top p, m.rest q, at q, v.below 0 q);
    }

IsSorted-of_Phase : (n i : ℕ) (a : List ℕ) → i ≤ 1 → Phase n i a → IsSorted n a
IsSorted-of_Phase n zero a le v p q lq lt = v.sorted p q (omega arith) lq lt
IsSorted-of_Phase n (suc i) a le v zero zero lq lt = omega arith
IsSorted-of_Phase n (suc i) a le v zero (suc q) lq lt =
    v.below 0 (suc q) (omega arith) (omega arith) lt
IsSorted-of_Phase n (suc i) a le v (suc p) q lq lt = v.sorted (suc p) q (omega arith) lq lt

pub Sorts-of_Phase : (n i : ℕ) (a b : List ℕ) → i ≤ 1 → Phase n i b → Moved n a b → Sorts n a b
Sorts-of_Phase n i a b le v m = record {
  sorted = IsSorted-of_Phase n i b le v;
  counts = m.counts;
  size = m.size;
  rest = m.rest;
}

-- a move within a shorter stretch
pub Moved-longer : {n m : ℕ} {a b : List ℕ} → n ≤ m → Moved n a b → Moved m a b
Moved-longer {n = n} {a = a} {b = b} le f = record {
  counts = f.counts;
  size = f.size;
  rest = λ p h. f.rest p (omega arith);
  bounds = λ m h p lt. elim (Bool-cases (ltb p n)) [
    | inl e ↦ f.bounds m (λ q lq. h q (omega arith)) p (ground arith)
    | inr e ↦ ground (arith, f.rest p, h p)
  ];
}
