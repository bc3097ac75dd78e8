-- ===== src/BinaryHeap/Sink.antt =====
-- `percolate_down` fills the place of the least element.
use code_learning.Base.{
  ℕ, zero, suc, ◌+◌, ◌*◌, ◌/◌, ◌≤◌, ◌<◌, ◌≡◌, ◌≢◌, refl, arith, List, length, set, ◌!◌, !-set, ltb,
  leb, ltb→lt, ltb→ge, ok, Yields, yields, Yields-bind, Yields-weaken, Yields-split, read-ok,
  write-ok, length-set, ◌∙◌, ap, true, ◌==◌,
}
use code_learning.BinaryHeap.{percolate_down, smaller_child}
use code_learning.BinaryHeap.Contents.{occurs-move}
use code_learning.BinaryHeap.Insert.{Filled}

-- `x` may go to `i` or below: the rest of the tree is in order
pub record Hole (a : List ℕ) (n i x : ℕ) : Type 0 where
  pub inside : n < length a
  pub here : i < length a
  pub from : 1 ≤ i
  pub to : 1 ≤ n → i ≤ n
  pub edges : (c : ℕ) → 2 ≤ c → c ≤ n → c ≢ i → c / 2 ≢ i → a ! (c / 2) ≤ a ! c
  pub above : 2 ≤ i → a ! (i / 2) ≤ x
  pub bridge : (c : ℕ) → c ≤ n → c / 2 ≡ i → 2 ≤ i → a ! (i / 2) ≤ a ! c

pub record IsSmallerChild (a : List ℕ) (n i m : ℕ) : Type 0 where
  pub parent : m / 2 ≡ i
  pub child : 2 * i ≤ m
  pub inside : m ≤ n
  pub least : (c : ℕ) → c ≤ n → c / 2 ≡ i → a ! m ≤ a ! c

smaller_child-least :
    (a : List ℕ) (n i : ℕ)
    → n < length a
    → 1 ≤ i
    → i * 2 ≤ n
    → Yields (IsSmallerChild a n i) (smaller_child a (i * 2) n)
unfolding smaller_child
smaller_child-least a n i lt pos le =
    Yields-split (i * 2 == n)
      (λ e. yields (record {
        parent = omega arith;
        child = omega arith;
        inside = le;
        least = λ c q e'. omega (arith, ap (λ k. a ! k) (last c e e' q));
      }))
      (λ ne.
        let lt' : i * 2 + 1 ≤ n = ground arith in
        rw (read-ok a (i * 2 + 1) (omega arith), read-ok a (i * 2) (omega arith))
          (yields (record {
            parent = ground arith;
            child = ground arith;
            inside = ground arith;
            least = λ c q e'. ground (arith, index c (i * 2), index c (i * 2 + 1));
          })))
  where
    index : (c d : ℕ) → c ≡ d → a ! c ≡ a ! d
    index c d e = rw e

    last : (c : ℕ) → (i * 2 == n) ≡ true → c / 2 ≡ i → c ≤ n → i * 2 ≡ c
    last c e e' q = ground arith

pub move-Hole :
    (a : List ℕ) (n i m x : ℕ)
    → Hole a n i x
    → IsSmallerChild a n i m
    → a ! m < x
    → Hole (set a i (a ! m)) n m x
move-Hole a n i m x h s lt =
    let here = h.here in
    let from = h.from in
    let child = s.child in
    let parent = s.parent in
    let to = s.inside in
    let inside = h.inside in
    let at = λ (j : ℕ). !-set a i j (a ! m) here in
    record {
      inside = omega (arith, length-set a i (a ! m));
      here = omega (arith, length-set a i (a ! m));
      from = omega arith;
      to = λ p. to;
      edges = λ c p q ne ne'. ground (
        arith,
        at c,
        at (c / 2),
        h.edges c p q,
        s.least c q,
        h.bridge m to parent,
        index (c / 2) (i / 2),
      );
      above = λ two. ground (arith, at (m / 2), parent);
      bridge = λ c q e two. ground (arith, at c, at (m / 2), up c e, h.edges c (omega arith) q);
    }
  where
    index : (c d : ℕ) → c ≡ d → a ! c ≡ a ! d
    index c d e = rw e

    up : (c : ℕ) → c / 2 ≡ m → a ! (c / 2) ≡ a ! m
    up c e = rw e

pub fill :
    (a : List ℕ) (n i x : ℕ)
    → Hole a n i x
    → ((c : ℕ) → c ≤ n → c / 2 ≡ i → x ≤ a ! c)
    → Yields (Filled a n i x) (ok (set a i x))
fill a n i x h settled =
    let here = h.here in
    let from = h.from in
    let at = λ (j : ℕ). !-set a i j x here in
    yields (record {
      heap =
          λ c p q. ground (arith, at c, at (c / 2), h.edges c p q, settled c q, h.above, index c);
      counts = λ v. refl;
      size = length-set a i x;
      first = ground (arith, at 0);
    })
  where
    index : (c : ℕ) → c ≡ i → a ! (c / 2) ≡ a ! (i / 2)
    index c e = rw e

pub percolate_down-Filled :
    (k : ℕ) (a : List ℕ) (n i x : ℕ)
    → n < k + i
    → 0 < k
    → Hole a n i x
    → Yields (Filled a n i x) (percolate_down k a i n x)
unfolding percolate_down
percolate_down-Filled zero a n i x f f' h = absurd (omega arith)
percolate_down-Filled (suc k) a n i x f f' h =
    let here = h.here in
    let from = h.from in
    let inside = h.inside in
    rw (write-ok a i x here) (
      Yields-split (leb (i * 2) n)
        (λ e.
          let le : i * 2 ≤ n = ground arith in
          Yields-bind (smaller_child-least a n i inside from le) λ m s.
            let to = s.inside in
            let child = s.child in
            rw (read-ok a m (omega arith), write-ok a i (a ! m) here)
              (Yields-split (ltb (a ! m) x)
                (λ lt.
                  Yields-weaken
                    (percolate_down-Filled k (set a i (a ! m)) n m x (omega arith) (omega arith)
                      (move-Hole a n i m x h s (ltb→lt (a ! m) x lt)))
                    λ b r. record {
                      heap = r.heap;
                      counts = λ v.
                          r.counts v
                          ∙ occurs-move v n a i m x from (omega arith) (omega arith) to
                              (ground arith) inside;
                      size = r.size ∙ length-set a i (a ! m);
                      first = r.first ∙ ground (arith, !-set a i 0 (a ! m) here);
                    })
                (λ ge.
                  fill a n i x h (λ c q e'. omega (arith, s.least c q e', ltb→ge (a ! m) x ge)))))
        (λ e. fill a n i x h (λ c q e'. absurd (ground arith))))
