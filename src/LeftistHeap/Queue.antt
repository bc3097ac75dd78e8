-- ===== src/LeftistHeap/Queue.antt =====
-- `insert1` and `deletemin1`.
use code_learning.Base.{
  ℕ, ◌+◌, ◌≤◌, ◌<◌, ◌≡◌, refl, arith, same, true, false, ok, Yields, Yields-weaken,
}
use code_learning.LeftistHeap.{Heap, empty, node, Externals, insert1, deletemin1, merge_children}
use code_learning.LeftistHeap.Contents.{occurs, rank}
use code_learning.LeftistHeap.Merge.{IsValid, merge-Merged}

-- `h'` is a leftist heap of what `h` holds and of `x`
pub record Inserted (x : ℕ) (h h' : Heap) : Type 0 where
  pub counts : (v : ℕ) → occurs v h' ≡ occurs v h + same v x
  pub valid : IsValid h'

-- `h'` is a leftist heap of what a heap holds besides its root `e`, a least element
pub record Popped (e : ℕ) (h h' : Heap) : Type 0 where
  pub counts : (v : ℕ) → occurs v h' + same v e ≡ occurs v h
  pub least : (v : ℕ) → 0 < occurs v h → e ≤ v
  pub valid : IsValid h'

module _ (external : Externals) where
  -- `insert1` on a leftist heap returns a leftist heap with the element added where `malloc`
  -- succeeds, and the heap itself where it fails.
  insert1-Inserted :
      (x : ℕ) (h : Heap)
      → IsValid h
      → Yields (Inserted x h) (insert1 external true h x) × (insert1 external false h x ≡ ok h)
  unfolding insert1 occurs rank
  insert1-Inserted x h p = (
    Yields-weaken
        (merge-Merged external (node x empty empty 0) h
          (record {
            heap = (λ v q. absurd (omega arith), λ v q. absurd (omega arith), tt, tt);
            leftist = (omega arith, omega arith, tt, tt);
          })
          p)
        λ h' j. record { counts = λ v. omega (arith, j.counts v); valid = j.valid },
    refl,
  )

  -- `deletemin1` on a leftist heap with a root returns a leftist heap of the other elements, and no
  -- element was smaller than the root.
  deletemin1-Popped :
      (e n : ℕ) (l r : Heap)
      → IsValid (node e l r n)
      → Yields (Popped e (node e l r n)) (deletemin1 external (node e l r n))
  unfolding deletemin1 merge_children occurs same
  deletemin1-Popped e n l r p =
      let s = p.leftist in
      let t = p.heap in
      rw (external.isempty_node e l r n) (
        Yields-weaken
          (merge-Merged external l r (record { heap = t.2; leftist = s.2 })
            (record { heap = t.3; leftist = s.3 }))
          λ h' j. record {
            counts = λ v. omega (arith, j.counts v);
            least = λ v q. ground (arith, t.0 v, t.1 v);
            valid = j.valid;
          })

  -- `deletemin1` on an empty heap changes nothing.
  deletemin1-empty : deletemin1 external empty ≡ ok empty
  unfolding deletemin1
  deletemin1-empty = rw external.isempty_empty
