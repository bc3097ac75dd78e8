-- ===== src/Tests/HashTables.antt =====
-- The hash table with chains on concrete tables, with the functions that the file leaves out.
use code_learning.Base.{
  ℕ, zero, suc, ◌<◌, ◌>>=◌, ◌%◌, ◌≡◌, refl, arith, true, [], ◌∷◌, some, ok, Yields, yields, read,
  write,
}
use code_learning.HashSep.{HashTbl, Externals, cells, walk, find, insert}
use code_learning.HashSep.Keys.{Holds, insert-Holds, contains}

-- the code of an element modulo the table size
abbrev remainder : (k n : ℕ) → ℕ
remainder k n = k % n

abbrev helpers : Externals
helpers = record { hash = remainder; mintablesize = 2; hash-lt = λ k n h. omega arith }

abbrev sample : HashTbl
sample = record { tablesize = 3; thelists = some [] ∷ some (4 ∷ 1 ∷ []) ∷ some [] ∷ [] }

insert_run :
    insert helpers true sample 10
    ≡ ok (record { tablesize = 3; thelists = some [] ∷ some (10 ∷ 4 ∷ 1 ∷ []) ∷ some [] ∷ [] })
unfolding insert read write
insert_run = refl

yielded : {A : Type 0} {P : A → Type 0} {a : A} → Yields P (ok a) → P a
yielded (yields p) = p

abbrev fresh : HashTbl
fresh = record { tablesize = 3; thelists = some [] ∷ some [] ∷ some [] ∷ [] }

abbrev one_key : HashTbl
one_key = record { tablesize = 3; thelists = some [] ∷ some (1 ∷ []) ∷ some [] ∷ [] }

read-fresh : (i : ℕ) → i < 3 → read fresh.thelists i ≡ ok (some [])
unfolding read
read-fresh zero lt = refl
read-fresh (suc zero) lt = refl
read-fresh (suc (suc zero)) lt = refl
read-fresh (suc (suc (suc i))) lt = absurd (omega arith)

fresh-Holds : Holds helpers [] fresh
unfolding contains find cells walk
fresh-Holds = record {
  valid = record { positive = omega arith; size = refl; chain = λ i lt. ([], read-fresh i lt) };
  present = λ k c. cc;
  absent = λ k. rw (read-fresh (k % 3) (omega arith), ◌>>=◌) (λ c. refl);
}

one_key-Holds : Holds helpers (1 ∷ []) one_key
unfolding insert read write
one_key-Holds = yielded (insert-Holds helpers [] fresh 1 fresh-Holds)

sample-Holds : Holds helpers (4 ∷ 1 ∷ []) sample
unfolding insert read write
sample-Holds = yielded (insert-Holds helpers (1 ∷ []) one_key 4 one_key-Holds)

insert-Holds_example : Yields (Holds helpers (10 ∷ 4 ∷ 1 ∷ [])) (insert helpers true sample 10)
insert-Holds_example = insert-Holds helpers (4 ∷ 1 ∷ []) sample 10 sample-Holds
