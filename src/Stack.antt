-- ===== src/Stack.antt =====
-- data_structure_and_algorithm/stack/stack.c: a bounded stack in an array, of elements of any type.
-- `IsFull` is not defined in the file and comes as a parameter; the field that the source spells
-- `TopofStack` is its `TopOfStack`. An array of length 0 stands for `NULL`: both fault on every
-- access.
pub mod Contents
use code_learning.Base.{
  ℕ, suc, ◌+◌, ◌≡◌, Bool, true, false, List, [], Option, none, some, ◌==◌, if◌then◌else◌, Run, ok,
  fault, ◌>>=◌, read, write, length,
}
use code_learning.Base.Int.{ℤ, pos, negsuc, eqb_ℤ, ◌+ℤ◌, ◌-ℤ◌}

pub record StackRecord (A : Type 0) : Type 0 where
  pub capacity : ℕ
  pub top_of_stack : ℤ
  pub array : List A

abbrev empty_tos : ℤ
empty_tos = negsuc 0

-- an array index; a negative one is a fault
unfoldable pub index : ℤ → Run ℕ
index (pos n) = ok n
index (negsuc n) = fault

-- `CreateStack`: whether `malloc` gives a struct, what the field `TopOfStack` of it holds, and the
-- array as it comes. Without a struct the result is the pointer -1, here `none`.
unfoldable pub create_stack :
    {A : Type 0} → (struct_memory : Bool) (junk : ℤ) (raw : List A) → ℕ → Option (StackRecord A)
create_stack false junk raw max_elements = none
create_stack true junk raw max_elements =
    some (record { capacity = max_elements; top_of_stack = junk; array = raw })

unfoldable pub is_empty : {A : Type 0} → StackRecord A → Bool
is_empty s = eqb_ℤ s.top_of_stack empty_tos

unfoldable pub make_empty : {A : Type 0} → StackRecord A → StackRecord A
make_empty s = record s { top_of_stack = empty_tos }

unfoldable pub pop : {A : Type 0} → StackRecord A → StackRecord A
unfolding is_empty ◌-ℤ◌
pop s = if is_empty s then s else record s { top_of_stack = s.top_of_stack -ℤ pos 1 }

module _ {A : Type 0} (is_full : StackRecord A → Bool) where
  unfoldable pub push : A → StackRecord A → Run (StackRecord A)
  unfolding index ◌+ℤ◌
  push x s = if is_full s then ok s else (do
    let top = s.top_of_stack +ℤ pos 1
    i ← index top
    a ← write s.array i x
    ok (record s { top_of_stack = top; array = a }))

module _ {A : Type 0} (zero_element : A) where
  unfoldable pub top : StackRecord A → Run A
  unfolding is_empty index
  top s = if is_empty s then ok zero_element else (do i ← index s.top_of_stack; read s.array i)

  unfoldable pub top_and_pop : StackRecord A → Run (A × StackRecord A)
  unfolding is_empty index ◌-ℤ◌
  top_and_pop s = if is_empty s then ok (zero_element, s) else (do
    i ← index s.top_of_stack
    x ← read s.array i
    ok (x, record s { top_of_stack = s.top_of_stack -ℤ pos 1 }))
