-- ===== src/Tests/LinkedLists.antt =====
-- The linked list on a concrete memory.
use code_learning.Base.{
  ◌≡◌, refl, arith, ◌==◌, if◌then◌else◌, List, [], ◌∷◌, none, some, ok, true, ◌>>=◌, Yields,
}
use code_learning.LinkedList.{Memory, find, is_empty, delete, delete_list}
use code_learning.LinkedList.Chain.{Item, Chain, Distinct}
use code_learning.LinkedList.Delete.{remove, delete-Chain}

-- a list with the header at 1 and two nodes
abbrev memory : Memory
memory p =
    if p == 1
    then some (record { element = 0; next = 4 })
    else if p == 4
    then some (record { element = 5; next = 2 })
    else if p == 2
    then some (record { element = 7; next = 0 })
    else none

abbrev items : List Item
items = (4, 5) ∷ (2, 7) ∷ []

memory-Chain : Chain memory 1 ((1, 0) ∷ items)
memory-Chain = (
  refl,
  ground arith,
  (4, refl, (refl, ground arith, (2, refl, (refl, ground arith, (0, refl, refl))))),
)

items-Distinct : Distinct ((1, 0) ∷ items)
items-Distinct = ((ground arith, (ground arith, tt)), ((ground arith, tt), (tt, tt)))

find_run : find 3 memory 7 1 ≡ ok 2
unfolding find
find_run = refl

is_empty_run : (delete_list 3 memory 1 >>= λ m. is_empty m 1) ≡ ok true
unfolding delete_list is_empty
is_empty_run = refl

delete-Chain_example : Yields (λ m. Chain m 1 ((1, 0) ∷ (4, 5) ∷ [])) (delete 3 memory 7 1)
unfolding remove
delete-Chain_example =
    delete-Chain 3 memory 7 1 0 items (omega arith) (items-Distinct, memory-Chain)
