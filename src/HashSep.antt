-- ===== src/HashSep.antt =====
-- data_structure_and_algorithm/hashtable/hashsep/hashsep.c: a hash table with a chain for each
-- index. A header cell and the cells behind it are the list of these cells' elements; a header
-- that `malloc` did not give is `none`. A pointer into a chain is the part of the list from there
-- on, `NULL` the empty list. An element is an `int` that is only compared, by its code.
-- `hash` and `mintablesize` are not defined in the file and come as parameters. A table is one
-- that the caller has laid out, since `initializee_table` gives none.
pub mod Insert
pub mod Keys
use code_learning.Base.{
  ℕ, zero, suc, ◌≤◌, ◌<◌, ◌≡◌, Bool, true, false, List, [], ◌∷◌, ltb, ◌==◌, if◌then◌else◌, Option,
  none, some, Run, ok, fault, ◌>>=◌, read, write,
}

pub record HashTbl : Type 0 where
  pub tablesize : ℕ
  pub thelists : List (Option (List ℕ))

pub record Externals : Type 0 where
  pub hash : (key tablesize : ℕ) → ℕ
  pub mintablesize : ℕ
  pub hash-lt : (key tablesize : ℕ) → 0 < tablesize → hash key tablesize < tablesize

-- the cells behind a header
unfoldable pub cells : Option (List ℕ) → Run (List ℕ)
cells none = fault
cells (some c) = ok c

-- while (p != NULL && p->element != key) p = p->next;
unfoldable pub walk : List ℕ → ℕ → List ℕ
walk [] key = []
walk (x ∷ p) key = let rest = walk p key in if x == key then x ∷ p else rest

module _ (external : Externals) where
  -- `none` is the pointer `NULL`. The headers are written to the address `sizeof(list)` times the
  -- size, which no `malloc` gave, so that a table of an allowed size faults, as it does where the
  -- `malloc` of the record fails. `nextprime` gives a prime, so there is a header to write.
  unfoldable pub initialize_table : ℕ → Run (Option HashTbl)
  initialize_table tablesize = if ltb tablesize external.mintablesize then ok none else fault

  unfoldable pub find : HashTbl → ℕ → Run (List ℕ)
  unfolding cells walk
  find h key =
      read h.thelists (external.hash key h.tablesize) >>= λ l. cells l >>= λ p. ok (walk p key)

  -- `memory` says whether `malloc` succeeds
  unfoldable pub push_cell : (memory : Bool) → HashTbl → ℕ → Run HashTbl
  unfolding cells
  push_cell memory h key =
      if memory
      then (do
        l ← read h.thelists (external.hash key h.tablesize)
        c ← cells l
        lists ← write h.thelists (external.hash key h.tablesize) (some (key ∷ c))
        ok (record h { thelists = lists }))
      else ok h

  unfoldable pub insert : (memory : Bool) → HashTbl → ℕ → Run HashTbl
  unfolding find push_cell
  insert memory h key =
      find h key >>= λ pos. elim pos [ [] ↦ push_cell memory h key | _ ∷ _ ↦ ok h ]
