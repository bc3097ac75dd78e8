-- ===== src/HashQuad.antt =====
-- data_structure_and_algorithm/hashtable/hashquad/hashquad.c: a hash table with quadratic probing.
-- An element is an `int` that is only compared, by its code; the element of a cell that was never
-- filled is what `malloc` left there. `hash`, `nextprime` and `mintablesize` are not defined in
-- the file and come as parameters.
pub mod Probe
pub mod Find
pub mod Insert
use code_learning.Base.{
  ℕ, zero, suc, ◌+◌, ◌-◌, ◌*◌, ◌≤◌, ◌<◌, Bool, true, false, List, [], ◌∷◌, ltb, leb, ◌==◌,
  if◌then◌else◌, Option, none, some, Run, ok, fault, out_of_fuel, ◌>>=◌, read, write,
}

pub data KindOfEntry : Type 0 where
  legitimate : KindOfEntry
  empty : KindOfEntry
  deleted : KindOfEntry

pub record HashEntry : Type 0 where
  pub element : ℕ
  pub info : KindOfEntry

pub record HashTbl : Type 0 where
  pub tablesize : ℕ
  pub thecells : List HashEntry

pub record Externals : Type 0 where
  pub hash : (key tablesize : ℕ) → ℕ
  pub nextprime : ℕ → ℕ
  pub mintablesize : ℕ
  pub hash-lt : (key tablesize : ℕ) → 0 < tablesize → hash key tablesize < tablesize
  pub nextprime-ge : (n : ℕ) → n ≤ nextprime n
  pub mintablesize_pos : 0 < mintablesize

unfoldable pub is_empty : KindOfEntry → Bool
is_empty legitimate = false
is_empty empty = true
is_empty deleted = false

unfoldable pub is_legitimate : KindOfEntry → Bool
is_legitimate legitimate = true
is_legitimate empty = false
is_legitimate deleted = false

-- if (currentpos >= h->tablesize) currentpos -= h->tablesize;
unfoldable pub wrapped : (tablesize currentpos : ℕ) → ℕ
wrapped tablesize currentpos =
    if leb tablesize currentpos then currentpos - tablesize else currentpos

-- the loop of `find`
unfoldable pub probe : ℕ → HashTbl → (key currentpos collisionnum : ℕ) → Run ℕ
unfolding is_empty wrapped
probe zero h key currentpos collisionnum = out_of_fuel
probe (suc k) h key currentpos collisionnum = do
  cell ← read h.thecells currentpos
  let next = wrapped h.tablesize (currentpos + (2 * (collisionnum + 1) - 1))
  let rest = probe k h key next (collisionnum + 1)
  if is_empty cell.info then ok currentpos else if cell.element == key then ok currentpos else rest

-- for (i = 0; …) h->thecells[i].info = empty; with the rounds left
unfoldable clear : (rounds i : ℕ) → List HashEntry → Run (List HashEntry)
clear zero i cells = ok cells
clear (suc rounds) i cells = do
  cell ← read cells i
  emptied ← write cells i (record cell { info = empty })
  clear rounds (i + 1) emptied

module _ (external : Externals) where
  -- `none` is the pointer `NULL`; the two results of `malloc` are whether there is a struct, and
  -- the cells as they come
  unfoldable pub initialize_table :
      (struct_memory : Bool) (cells : Option (List HashEntry)) → ℕ → Run (Option HashTbl)
  unfolding clear
  initialize_table struct_memory cells tablesize =
      let size = external.nextprime tablesize in
      let filled : Run (Option HashTbl) = elim cells [
        | none ↦ fault
        | some raw ↦ clear size 0 raw >>= λ c. ok (some (record { tablesize = size; thecells = c }))
      ] in
      if ltb tablesize external.mintablesize
      then ok none
      else if struct_memory
      then filled
      else fault

  -- in at most as many rounds as the first argument says
  unfoldable pub find : ℕ → HashTbl → ℕ → Run ℕ
  unfolding probe
  find k h key = probe k h key (external.hash key h.tablesize) 0

  unfoldable pub insert : ℕ → HashTbl → ℕ → Run HashTbl
  unfolding find is_legitimate
  insert k h key = do
    pos ← find k h key
    cell ← read h.thecells pos
    let filled : HashEntry = record { element = key; info = legitimate }
    let store = write h.thecells pos filled >>= λ c. ok (record h { thecells = c })
    if is_legitimate cell.info then ok h else store

  -- `insert(h, key)` where `h` may be `NULL`
  unfoldable insert_through : ℕ → Option HashTbl → ℕ → Run (Option HashTbl)
  unfolding insert
  insert_through k none key = fault
  insert_through k (some h) key = insert k h key >>= λ h'. ok (some h')

  -- for (i = 0; i < oldsize; i++) …, with the rounds left
  unfoldable reinsert : (fuel rounds i : ℕ) → List HashEntry → Option HashTbl → Run (Option HashTbl)
  unfolding insert_through
  reinsert k zero i oldcells h = ok h
  reinsert k (suc rounds) i oldcells h = do
    cell ← read oldcells i
    h' ← if is_legitimate cell.info then insert_through k h cell.element else ok h
    reinsert k rounds (i + 1) oldcells h'

  -- the new table; the old one's cells are freed
  unfoldable pub rehash :
      ℕ → (struct_memory : Bool) (cells : Option (List HashEntry)) → HashTbl → Run (Option HashTbl)
  unfolding initialize_table reinsert
  rehash k struct_memory cells h =
      initialize_table struct_memory cells (2 * h.tablesize) >>= reinsert k h.tablesize 0 h.thecells
