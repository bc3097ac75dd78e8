-- ===== src/Tests/ProbedTables.antt =====
-- The hash table with probing on concrete tables, with the functions that the file leaves out.
use code_learning.Base.{ℕ, ◌+◌, ◌%◌, ◌≡◌, refl, arith, true, [], ◌∷◌, some, ok, read, write, Yields}
use code_learning.HashQuad.{
  HashTbl, HashEntry, legitimate, empty, Externals, is_empty, find, insert, rehash,
}
use code_learning.HashQuad.Find.{IsValid, stops, FoundWithin, find-FoundWithin}
use code_learning.HashQuad.Insert.{Entered, insert-Entered}

abbrev remainder : (k n : ℕ) → ℕ
remainder k n = k % n

abbrev helpers : Externals
helpers = record {
  hash = remainder;
  nextprime = λ n. n + 1;
  mintablesize = 2;
  hash-lt = λ k n h. omega arith;
  nextprime-ge = λ n. omega arith;
  mintablesize_pos = omega arith;
}

abbrev full : ℕ → HashEntry
full k = record { element = k; info = legitimate }

abbrev free : HashEntry
free = record { element = 0; info = empty }

-- 13 and 8 start at the same position
abbrev sample : HashTbl
sample = record { tablesize = 5; thecells = free ∷ free ∷ free ∷ full 13 ∷ full 8 ∷ [] }

insert_run :
    insert helpers 3 sample 18
    ≡ ok (record { tablesize = 5; thecells = free ∷ free ∷ full 18 ∷ full 13 ∷ full 8 ∷ [] })
unfolding insert read write
insert_run = refl

sample-IsValid : IsValid sample
sample-IsValid = record { positive = omega arith; size = refl }

rehash_run :
    rehash helpers 3 true
      (some (free ∷ free ∷ full 1 ∷ full 2 ∷ full 3 ∷ []))
      (record { tablesize = 2; thecells = full 7 ∷ full 12 ∷ [] })
    ≡ ok (
        some (record {
          tablesize = 5;
          thecells = free ∷ free ∷ full 7 ∷ full 12 ∷ record { element = 3; info = empty } ∷ [];
        }))
unfolding rehash read write
rehash_run = refl

find-FoundWithin_example : Yields (FoundWithin sample 18 3 2) (find helpers 3 sample 18)
unfolding read stops is_empty
find-FoundWithin_example =
    find-FoundWithin helpers sample 18 2 3 sample-IsValid (omega arith) (omega arith)
      (free, refl, refl)

insert-Entered_example : Yields (Entered helpers sample 18 2) (insert helpers 3 sample 18)
unfolding read stops is_empty
insert-Entered_example =
    insert-Entered helpers sample 18 2 3 sample-IsValid (omega arith) (omega arith)
      (free, refl, refl)
