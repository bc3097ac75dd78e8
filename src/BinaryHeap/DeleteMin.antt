-- ===== src/BinaryHeap/DeleteMin.antt =====
-- `deletemin` keeps a binary heap, and returns a least element.
use code_learning.Base.{
  ℕ, zero, suc, ◌+◌, ◌-◌, ◌≤◌, ◌<◌, ◌≡◌, refl, arith, List, same, length, set, ◌!◌, ok, Yields,
  yields, Yields-bind, read-ok, ◌∙◌, true, false, ◌==◌,
}
use code_learning.BinaryHeap.{HeapStruct, Externals, deletemin}
use code_learning.BinaryHeap.Contents.{occurs, occurs-set, root_least}
use code_learning.BinaryHeap.Insert.{IsValid}
use code_learning.BinaryHeap.Sink.{Hole, percolate_down-Filled}

-- what `deletemin` returns: a least element, and a heap of the others
pub record Popped (least : ℕ) (h : HeapStruct) (r : ℕ × HeapStruct) : Type 0 where
  pub counts : (v : ℕ) → occurs v r.1.size r.1.elements + same v r.0 ≡ occurs v h.size h.elements
  minimum : (v : ℕ) → 0 < occurs v h.size h.elements → r.0 ≤ v
  pub valid : IsValid least r.1
  pub capacity_is : r.1.capacity ≡ h.capacity
  pub size_is : r.1.size + 1 ≡ h.size

-- the last element, on its way to the place of the first
start_counts :
    (v n : ℕ) (a : List ℕ)
    → suc n < length a
    → occurs v n (set a 1 (a ! suc n)) + same v (a ! 1) ≡ occurs v (suc n) a
unfolding occurs
start_counts v zero a lt = omega arith
start_counts v (suc n) a lt =
    occurs-set v (suc n) a 1 (a ! suc (suc n)) (omega arith) (omega arith) (omega arith)

module _ (external : Externals) where
  -- `deletemin` of a heap that is not empty ends without a fault and returns a least element,
  -- with a heap of the other elements.
  pub deletemin-Popped :
      (h : HeapStruct)
      → IsValid external.mindata h
      → 1 ≤ h.size
      → Yields (Popped external.mindata h) (deletemin external h)
  unfolding deletemin
  deletemin-Popped h v pos =
      let a = h.elements in
      let room = v.room in
      let bounded = v.bounded in
      let held : (h.size == 0) ≡ false = ground arith in
      rw (external.isempty_lem h, held, read-ok a 1 (omega arith), read-ok a h.size (omega arith))
        (Yields-bind
          (percolate_down-Filled (h.size + 1) a (h.size - 1) 1 (a ! h.size) (omega arith)
            (omega arith) start)
          λ b r. yields (record {
            counts = λ w. omega (arith, r.counts w, moved w h.size pos (omega (arith, room)));
            minimum = λ w q. root_least h.size w a v.heap q;
            valid = record {
              room = r.size ∙ room;
              bounded = omega arith;
              sentinel = r.first ∙ v.sentinel;
              heap = r.heap;
            };
            capacity_is = refl;
            size_is = omega arith;
          }))
    where
      moved :
          (w n : ℕ)
          → 1 ≤ n
          → n < length h.elements
          → occurs w (n - 1) (set h.elements 1 (h.elements ! n)) + same w (h.elements ! 1)
            ≡ occurs w n h.elements
      moved w zero p lt = absurd (omega arith)
      moved w (suc n) p lt = rw (less_one n) (start_counts w n h.elements lt)
        where
          less_one : (m : ℕ) → suc m - 1 ≡ m
          less_one m = omega arith

      start : Hole h.elements (h.size - 1) 1 (h.elements ! h.size)
      start = record {
        inside = omega (arith, v.room, v.bounded);
        here = omega (arith, v.room, v.bounded);
        from = omega arith;
        to = λ p. p;
        edges = λ c p q ne ne'. v.heap c p (omega arith);
        above = λ two. absurd (omega arith);
        bridge = λ c q e two. absurd (omega arith);
      }

  -- `deletemin` of an empty heap returns the sentinel and changes nothing.
  deletemin-empty :
      (h : HeapStruct)
      → IsValid external.mindata h
      → h.size ≡ 0
      → deletemin external h ≡ ok (external.mindata, h)
  unfolding deletemin
  deletemin-empty h v e =
      let room = v.room in
      let none_held : (h.size == 0) ≡ true = ground arith in
      rw (external.isempty_lem h, none_held, read-ok h.elements 0 (omega arith), v.sentinel)
