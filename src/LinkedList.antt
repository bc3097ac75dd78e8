-- ===== src/LinkedList.antt =====
-- data_structure_and_algorithm/list/list.c: a list with a header node, on an explicit memory. A
-- pointer is an address, 0 is `NULL`, and a node that is not allocated or freed is `none`. An
-- element is only compared, by its code. `L->next` of `IsEmpty` is read as `L->Next`.
pub mod Chain
pub mod Delete
pub mod Free
use code_learning.Base.{
  ℕ, zero, suc, Bool, true, false, ◌==◌, if◌then◌else◌, Option, none, some, Run, ok, fault,
  out_of_fuel, ◌>>=◌,
}

pub record Node : Type 0 where
  pub element : ℕ
  pub next : ℕ

abbrev pub Memory : Type 0
Memory = ℕ → Option Node

-- the memory with another content at one address
unfoldable pub update : Memory → ℕ → Option Node → Memory
update m p content q = if p == q then content else m q

-- `*P`
unfoldable pub load : Memory → ℕ → Run Node
load m zero = fault
load m (suc p) = elim (m (suc p)) [ none ↦ fault | some n ↦ ok n ]

unfoldable pub is_empty : Memory → ℕ → Run Bool
unfolding load
is_empty m l = load m l >>= λ n. ok (n.next == 0)

unfoldable pub is_last : Memory → ℕ → Run Bool
unfolding load
is_last m p = load m p >>= λ n. ok (n.next == 0)

-- while (P != NULL && P->Element != X) P = P->Next;
unfoldable find_from : ℕ → Memory → (x p : ℕ) → Run ℕ
unfolding load
find_from zero m x p = out_of_fuel
find_from (suc k) m x p =
    let body = load m p >>= λ n.
    (let rest = find_from k m x n.next in if n.element == x then ok p else rest) in
    if p == 0 then ok p else body

unfoldable pub find : ℕ → Memory → (x l : ℕ) → Run ℕ
unfolding find_from
find k m x l = load m l >>= λ n. find_from k m x n.next

-- the loop of `FindPrevious`
unfoldable pub find_previous : ℕ → Memory → (x p : ℕ) → Run ℕ
unfolding load
find_previous zero m x p = out_of_fuel
find_previous (suc k) m x p = do
  n ← load m p
  let rest = find_previous k m x n.next
  let body = load m n.next >>= λ n'. if n'.element == x then ok p else rest
  if n.next == 0 then ok p else body

unfoldable pub delete : ℕ → Memory → (x l : ℕ) → Run Memory
unfolding find_previous is_last update
delete k m x l = do
  p ← find_previous k m x l
  last ← is_last m p
  n ← load m p
  let body : Run Memory = do
    tmp ← load m n.next
    ok (update (update m p (some (record n { next = tmp.next }))) n.next none)
  if last then ok m else body

-- `memory` is the result of `malloc` and what it leaves in the field `Next`
unfoldable pub insert : (memory : Option (ℕ × ℕ)) → Memory → (x l p : ℕ) → Run Memory
unfolding load update
insert none m x l p = fault
insert (some (tmp, junk)) m x l p = do
  let m' = update m tmp (some (record { element = x; next = junk }))
  n ← load m' p
  let m'' = update m' tmp (some (record { element = x; next = n.next }))
  ok (update m'' p (some (record n { next = tmp })))

-- the loop of `DeleteList`
unfoldable pub free_from : ℕ → Memory → ℕ → Run Memory
unfolding load update
free_from zero m p = out_of_fuel
free_from (suc k) m p =
    let body = load m p >>= λ n. free_from k (update m p none) n.next in
    if p == 0 then ok m else body

unfoldable pub delete_list : ℕ → Memory → ℕ → Run Memory
unfolding free_from
delete_list k m l = load m l >>= λ n. free_from k (update m l (some (record n { next = 0 }))) n.next
