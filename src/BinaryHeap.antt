-- ===== src/BinaryHeap.antt =====
-- data_structure_and_algorithm/priority_queue/heap/heap.c: a bounded binary heap in an array whose
-- entry 0 is a sentinel. An element is an `int` that is only compared: its place in the order of
-- the `int`s. `isfull`, `isempty`, `minpqsize` (which only chooses whether to print a warning) and
-- `mindata` are not defined in the file: the tests and the sentinel come as parameters.
-- The assignment `x->elements[i] = …` of `insert` is read as one to `h->elements[i]`.
pub mod Contents
pub mod DeleteMin
pub mod Sink
pub mod Insert
use code_learning.Base.{
  ℕ, zero, suc, ◌+◌, ◌-◌, ◌*◌, ◌/◌, ◌≤◌, ◌≡◌, Bool, true, false, not, ◌&&◌, List, [], ltb, leb,
  ◌==◌, if◌then◌else◌, Run, ok, fault, out_of_fuel, ◌>>=◌, read, write, Option, none, some,
}

pub record HeapStruct : Type 0 where
  pub capacity : ℕ
  pub size : ℕ
  pub elements : List ℕ

pub record Externals : Type 0 where
  pub isfull : HeapStruct → Bool
  pub isempty : HeapStruct → Bool
  pub mindata : ℕ
  pub isfull_lem : (h : HeapStruct) → isfull h ≡ leb h.capacity h.size
  pub isempty_lem : (h : HeapStruct) → isempty h ≡ (h.size == 0)

-- The loop of `insert` with the hole at `i`.
unfoldable pub percolate_up : ℕ → List ℕ → (i x : ℕ) → Run (List ℕ)
percolate_up zero a i x = out_of_fuel
percolate_up (suc k) a i x = do
  p ← read a (i / 2)
  let move = write a i p >>= λ b. percolate_up k b (i / 2) x
  if ltb x p then move else write a i x

-- `if (child != h->size && h->elements[child + 1] < h->elements[child]) child++`
unfoldable pub smaller_child : List ℕ → (child size : ℕ) → Run ℕ
smaller_child a child size =
    if child == size
    then ok child
    else (do y ← read a (child + 1); x ← read a child; ok (if ltb y x then child + 1 else child))

-- The loop of `deletemin` with the hole at `i`.
unfoldable pub percolate_down : ℕ → List ℕ → (i size last : ℕ) → Run (List ℕ)
unfolding smaller_child
percolate_down zero a i size last = out_of_fuel
percolate_down (suc k) a i size last =
    let body : Run (List ℕ) = do
      child ← smaller_child a (i * 2) size
      y ← read a child
      let move = write a i y >>= λ b. percolate_down k b child size last
      if ltb y last then move else write a i last
    in if leb (i * 2) size then body else write a i last

module _ (external : Externals) where
  -- the two results of `malloc`: whether there is a struct, and the array as it comes
  unfoldable pub initialize : (struct_memory : Bool) (array : Option (List ℕ)) → ℕ → Run HeapStruct
  initialize false array maxelements = fault
  initialize true none maxelements = fault
  initialize true (some raw) maxelements = do
    a ← write raw 0 external.mindata
    ok (record { capacity = maxelements; size = 0; elements = a })

  unfoldable pub insert : HeapStruct → ℕ → Run HeapStruct
  unfolding percolate_up
  insert h x = if external.isfull h then ok h else (do
    a ← percolate_up (h.size + 2) h.elements (h.size + 1) x
    ok (record h { size = h.size + 1; elements = a }))

  unfoldable pub deletemin : HeapStruct → Run (ℕ × HeapStruct)
  unfolding percolate_down
  deletemin h = if external.isempty h then (do e ← read h.elements 0; ok (e, h)) else (do
    min ← read h.elements 1
    last ← read h.elements h.size
    a ← percolate_down (h.size + 1) h.elements 1 (h.size - 1) last
    ok (min, record h { size = h.size - 1; elements = a }))
