-- ===== src/LeftistHeap.antt =====
-- data_structure_and_algorithm/priority_queue/leftist_heap/leftist_heap.c. A pointer is the tree
-- below it, `empty` is `NULL`; a field of `NULL` is a fault. An element is an `int` that is only
-- compared: its place in the order of the `int`s. `swapchildren` and `isempty` are not defined in
-- the file and come as parameters.
pub mod Contents
pub mod Merge
pub mod Queue
use code_learning.Base.{
  ℕ, zero, suc, ◌+◌, ◌≡◌, Bool, true, false, ltb, if◌then◌else◌, Run, ok, fault, out_of_fuel, ◌>>=◌,
}

pub data Heap : Type 0 where
  empty : Heap
  node : (element : ℕ) (left right : Heap) (npl : ℕ) → Heap

-- what the file calls and does not define, with what it relies on
pub record Externals : Type 0 where
  pub swapchildren : Heap → Heap
  pub isempty : Heap → Bool
  pub swapchildren_swaps : (e : ℕ) (l r : Heap) (n : ℕ) → swapchildren (node e l r n) ≡ node e r l n
  pub isempty_empty : isempty empty ≡ true
  pub isempty_node : (e : ℕ) (l r : Heap) (n : ℕ) → isempty (node e l r n) ≡ false

-- `h->npl`
unfoldable pub npl_of : Heap → Run ℕ
npl_of empty = fault
npl_of (node e l r n) = ok n

-- `h1->npl = h1->right->npl + 1`
unfoldable pub set_npl : Heap → Run Heap
unfolding npl_of
set_npl empty = fault
set_npl (node e l r n) = npl_of r >>= λ k. ok (node e l r (k + 1))

unfoldable pub size : Heap → ℕ
size empty = 0
size (node e l r n) = size l + 1 + size r

module _ (external : Externals) where
  -- the recursive call of `merge` is the argument `join`
  unfoldable pub merge1 : (join : Heap → Heap → Run Heap) → (h₁ h₂ : Heap) → Run Heap
  unfolding npl_of set_npl
  merge1 join empty h₂ = fault
  merge1 join (node e empty r n) h₂ = ok (node e h₂ r n)
  merge1 join (node e (node e' a b m) r n) h₂ = do
    r' ← join r h₂
    k ← npl_of r'
    let h = node e (node e' a b m) r' n
    set_npl (if ltb m k then external.swapchildren h else h)

  unfoldable pub merge_within : ℕ → (h₁ h₂ : Heap) → Run Heap
  unfolding merge1
  merge_within zero h₁ h₂ = out_of_fuel
  merge_within (suc k) empty h₂ = ok h₂
  merge_within (suc k) (node e₁ l₁ r₁ n₁) empty = ok (node e₁ l₁ r₁ n₁)
  merge_within (suc k) (node e₁ l₁ r₁ n₁) (node e₂ l₂ r₂ n₂) =
      let h₁ = node e₁ l₁ r₁ n₁ in
      let h₂ = node e₂ l₂ r₂ n₂ in
      if ltb e₁ e₂ then merge1 (merge_within k) h₁ h₂ else merge1 (merge_within k) h₂ h₁

  unfoldable pub merge : (h₁ h₂ : Heap) → Run Heap
  unfolding merge_within size
  merge h₁ h₂ = merge_within (size h₁ + size h₂ + 1) h₁ h₂

  -- `memory` says whether `malloc` succeeds
  unfoldable pub insert1 : (memory : Bool) → Heap → ℕ → Run Heap
  unfolding merge
  insert1 memory h x = if memory then merge (node x empty empty 0) h else ok h

  -- the children of the root, whose node is freed
  unfoldable pub merge_children : Heap → Run Heap
  unfolding merge
  merge_children empty = fault
  merge_children (node e l r n) = merge l r

  unfoldable pub deletemin1 : Heap → Run Heap
  unfolding merge_children
  deletemin1 h = if external.isempty h then ok h else merge_children h
