-- ===== src/BinaryHeap/Insert.antt =====
-- `insert` keeps a binary heap.
use code_learning.Base.{
  ℕ, zero, suc, ◌+◌, ◌/◌, ◌≤◌, ◌<◌, ◌≡◌, ◌≢◌, refl, arith, List, same, length, set, ◌!◌, !-set, ltb,
  leb, ltb→lt, ltb→ge, ok, Yields, yields, Yields-bind, Yields-weaken, Yields-split, read-ok,
  write-ok, length-set, ◌∙◌, ap, true, false,
}
use code_learning.BinaryHeap.{HeapStruct, Externals, percolate_up, insert}
use code_learning.BinaryHeap.Contents.{occurs, IsHeap, occurs-set_past, occurs-move}

-- a heap in an array with room for `capacity` elements behind the sentinel
pub record IsValid (least : ℕ) (h : HeapStruct) : Type 0 where
  pub room : length h.elements ≡ h.capacity + 1
  pub bounded : h.size ≤ h.capacity
  pub sentinel : h.elements ! 0 ≡ least
  pub heap : IsHeap h.size h.elements

-- `x` may go to `i`: the rest of the tree is in order
record Hole (a : List ℕ) (n i x : ℕ) : Type 0 where
  inside : n < length a
  from : 1 ≤ i
  to : i ≤ n
  guarded : a ! 0 ≤ x
  edges : (c : ℕ) → 2 ≤ c → c ≤ n → c ≢ i → c / 2 ≢ i → a ! (c / 2) ≤ a ! c
  below : (c : ℕ) → c ≤ n → c / 2 ≡ i → x ≤ a ! c
  bridge : (c : ℕ) → c ≤ n → c / 2 ≡ i → 2 ≤ i → a ! (i / 2) ≤ a ! c

pub record Filled (a : List ℕ) (n i x : ℕ) (b : List ℕ) : Type 0 where
  pub heap : IsHeap n b
  pub counts : (v : ℕ) → occurs v n b ≡ occurs v n (set a i x)
  pub size : length b ≡ length a
  pub first : b ! 0 ≡ a ! 0

move-Hole :
    (a : List ℕ) (n i x : ℕ)
    → Hole a n i x
    → 2 ≤ i
    → x < a ! (i / 2)
    → Hole (set a i (a ! (i / 2))) n (i / 2) x
move-Hole a n i x h two lt =
    let inside = h.inside in
    let to = h.to in
    let up = λ (c : ℕ) (e : c / 2 ≡ i / 2). ap (λ k. a ! k) e in
    let at = λ (j : ℕ). !-set a i j (a ! (i / 2)) (omega arith) in
    record {
      inside = omega (arith, length-set a i (a ! (i / 2)));
      from = omega arith;
      to = omega arith;
      guarded = ground (arith, at 0, h.guarded);
      edges = λ c p q ne ne'. ground (arith, at c, at (c / 2), h.edges c p q, h.bridge c q);
      below = λ c q e. ground (arith, at c, up c e, h.edges c (omega arith) q);
      bridge = λ c q e ge. ground (
        arith,
        at c,
        at (i / 2 / 2),
        up c e,
        h.edges c (omega arith) q,
        h.edges (i / 2) ge (omega arith),
      );
    }

fill :
    (a : List ℕ) (n i x : ℕ)
    → Hole a n i x
    → (2 ≤ i → a ! (i / 2) ≤ x)
    → Yields (Filled a n i x) (ok (set a i x))
fill a n i x h settled =
    let inside = h.inside in
    let to = h.to in
    let from = h.from in
    let at = λ (j : ℕ). !-set a i j x (omega arith) in
    yields (record {
      heap = λ c p q. ground (arith, at c, at (c / 2), h.edges c p q, h.below c q, index c);
      counts = λ v. refl;
      size = length-set a i x;
      first = ground (arith, at 0);
    })
  where
    index : (c : ℕ) → c ≡ i → a ! (c / 2) ≡ a ! (i / 2)
    index c e = rw e

percolate_up-Filled :
    (k : ℕ) (a : List ℕ) (n i x : ℕ)
    → i < k
    → Hole a n i x
    → Yields (Filled a n i x) (percolate_up k a i x)
unfolding percolate_up
percolate_up-Filled zero a n i x f h = absurd (omega arith)
percolate_up-Filled (suc k) a n i x f h =
    let inside = h.inside in
    let to = h.to in
    let from = h.from in
    rw
      (
        read-ok a (i / 2) (omega arith),
        write-ok a i (a ! (i / 2)) (omega arith),
        write-ok a i x (omega arith),
      )
      (Yields-split (ltb x (a ! (i / 2)))
        (λ lt.
          let two = below_root (ltb→lt x (a ! (i / 2)) lt) in
          Yields-weaken
            (percolate_up-Filled k (set a i (a ! (i / 2))) n (i / 2) x (omega arith)
              (move-Hole a n i x h two (ltb→lt x (a ! (i / 2)) lt)))
            λ b r. record {
              heap = r.heap;
              counts = λ v.
                  r.counts v
                  ∙ occurs-move v n a i (i / 2) x from to (omega arith) (omega arith) (ground arith)
                      inside;
              size = r.size ∙ length-set a i (a ! (i / 2));
              first = r.first ∙ ground (arith, !-set a i 0 (a ! (i / 2)) (omega arith));
            })
        (λ ge. fill a n i x h (λ two. ltb→ge x (a ! (i / 2)) ge)))
  where
    below_root : x < a ! (i / 2) → 2 ≤ i
    below_root lt = ground (arith, h.guarded, h.from, root i)
      where
        root : (j : ℕ) → j ≡ 1 → a ! (j / 2) ≡ a ! 0
        root j e = rw e

-- the heap after `insert`
pub record Inserted (least x : ℕ) (h h' : HeapStruct) : Type 0 where
  pub counts : (v : ℕ) → occurs v h'.size h'.elements ≡ occurs v h.size h.elements + same v x
  pub valid : IsValid least h'
  pub capacity_is : h'.capacity ≡ h.capacity
  pub size_is : h'.size ≡ h.size + 1

module _ (external : Externals) where
  -- `insert` of an element that is no smaller than the sentinel, in a heap that is not full, ends
  -- without a fault, and gives a heap with that element added.
  pub insert-Inserted :
      (h : HeapStruct) (x : ℕ)
      → IsValid external.mindata h
      → h.size < h.capacity
      → external.mindata ≤ x
      → Yields (Inserted external.mindata x h) (insert external h x)
  unfolding insert occurs
  insert-Inserted h x v lt le =
      let a = h.elements in
      let room = v.room in
      let n : ℕ = h.size + 1 in
      rw (external.isfull_lem h) (
        let open_heap : leb h.capacity h.size ≡ false = ground arith in
        rw open_heap (
          Yields-bind (percolate_up-Filled (h.size + 2) a n n x (omega arith) start) λ b r.
            yields (record {
              counts = λ w. omega (
                arith,
                r.counts w,
                ap (λ m. occurs w m (set a n x)) (one_more h.size),
                occurs-set_past w h.size a n x (omega arith) (omega arith),
                ap (same w) (last_is x),
              );
              valid = record {
                room = r.size ∙ room;
                bounded = omega arith;
                sentinel = r.first ∙ v.sentinel;
                heap = r.heap;
              };
              capacity_is = refl;
              size_is = refl;
            })))
    where
      one_more : (m : ℕ) → m + 1 ≡ suc m
      one_more m = omega arith

      last_is : (y : ℕ) → set h.elements (h.size + 1) y ! suc h.size ≡ y
      last_is y = ground (arith, !-set h.elements (h.size + 1) (suc h.size) y, v.room)

      start : Hole h.elements (h.size + 1) (h.size + 1) x
      start = record {
        inside = omega (arith, v.room);
        from = omega arith;
        to = omega arith;
        guarded = omega (arith, v.sentinel);
        edges = λ c p q ne ne'. v.heap c p (omega arith);
        below = λ c q e. absurd (omega arith);
        bridge = λ c q e ge. absurd (omega arith);
      }

  -- `insert` in a full heap changes nothing.
  insert-full : (h : HeapStruct) (x : ℕ) → h.capacity ≤ h.size → insert external h x ≡ ok h
  unfolding insert
  insert-full h x full =
      let closed : leb h.capacity h.size ≡ true = ground arith in rw (external.isfull_lem h, closed)
