-- ===== src/Tests/BinaryHeaps.antt =====
-- The binary heap on a concrete heap, with the tests that the file leaves out.
use code_learning.Base.{
  zero, suc, ◌≡◌, refl, [], ◌∷◌, arith, leb, ◌==◌, ok, Yields, ◌!◌, get_or, read, write,
}
use code_learning.BinaryHeap.{HeapStruct, Externals, insert, deletemin}
use code_learning.BinaryHeap.Contents.{IsHeap}
use code_learning.BinaryHeap.Insert.{IsValid, Inserted, insert-Inserted}
use code_learning.BinaryHeap.DeleteMin.{Popped, deletemin-Popped}

abbrev helpers : Externals
helpers = record {
  isfull = λ h. leb h.capacity h.size;
  isempty = λ h. h.size == 0;
  mindata = 0;
  isfull_lem = λ h. refl;
  isempty_lem = λ h. refl;
}

abbrev sample : HeapStruct
sample = record { capacity = 5; size = 3; elements = 0 ∷ 13 ∷ 21 ∷ 16 ∷ 7 ∷ 7 ∷ [] }

sample-IsHeap : IsHeap 3 (0 ∷ 13 ∷ 21 ∷ 16 ∷ 7 ∷ 7 ∷ [])
unfolding ◌!◌ get_or
sample-IsHeap zero h le = absurd (omega arith)
sample-IsHeap (suc zero) h le = absurd (omega arith)
sample-IsHeap (suc (suc zero)) h le = omega arith
sample-IsHeap (suc (suc (suc zero))) h le = omega arith
sample-IsHeap (suc (suc (suc (suc c)))) h le = absurd (omega arith)

sample-IsValid : IsValid 0 sample
unfolding ◌!◌ get_or
sample-IsValid = record {
  room = refl;
  bounded = omega arith;
  sentinel = refl;
  heap = sample-IsHeap;
}

insert_run :
    insert helpers sample 14
    ≡ ok (record { capacity = 5; size = 4; elements = 0 ∷ 13 ∷ 14 ∷ 16 ∷ 21 ∷ 7 ∷ [] })
unfolding insert read write
insert_run = refl

deletemin_run :
    deletemin helpers sample
    ≡ ok (13, record { capacity = 5; size = 2; elements = 0 ∷ 16 ∷ 21 ∷ 16 ∷ 7 ∷ 7 ∷ [] })
unfolding deletemin read write
deletemin_run = refl

insert-Inserted_example : Yields (Inserted 0 14 sample) (insert helpers sample 14)
insert-Inserted_example =
    insert-Inserted helpers sample 14 sample-IsValid (omega arith) (omega arith)

deletemin-Popped_example : Yields (Popped 0 sample) (deletemin helpers sample)
deletemin-Popped_example = deletemin-Popped helpers sample sample-IsValid (omega arith)
