-- ===== src/Tests/Databases.antt =====
-- The database on the steps of apue/20db/db_test.c.
use Prim.Native.Char.{code}
use Prim.Native.String.{String}
use code_learning.Base.{ℕ, ◌≡◌, refl, true, [], ◌∷◌, Option, none, some}
use code_learning.Base.Int.{ℤ, pos, negsuc}
use code_learning.Database.{Outcome, ok, fault, ◌>>=◌, Bytes, Db}
use code_learning.Database.{bump}
use code_learning.Database.Files.{write_bytes}
use code_learning.Database.Text.{same_text, decimal, padded}
use code_learning.Database.Records.{
  index_text, header, seek, lock_end, un_lock_end, parse_text, readptr, readidx, readdat, writedat,
  writeidx, writeptr,
}
use code_learning.Database.Operations.{
  hash, hash_from, find_from, find_and_lock, fetch_found, delete_found, dodelete, findfree_from,
  findfree, append, reuse, store_new, store_old, store_found, is_flag, is_replace, is_insert, fetch,
  delete, store, db_insert, db_replace,
}
use code_learning.Database.Scan.{
  blank, next_from, alloc, pointers, set_up, no_counts, nextrec, rewind, open_files,
}

-- the bytes of a text of ASCII characters
abbrev codes : String → Bytes
codes String.[] = []
codes (String.◌∷◌ c s) = code c ∷ codes s

abbrev opened : Outcome Db
opened = open_files true (codes "db4") (some []) (some []) true >>= λ o. elim o [
  | none ↦ fault
  | some db ↦ ok db
]

abbrev three_records : Outcome Db
three_records = do
  db ← opened
  (r₁, db₁) ← store 9 db (codes "Alpha") (codes "data1") db_insert
  (r₂, db₂) ← store 9 db₁ (codes "Beta") (codes "Data for beta") db_insert
  (r₃, db₃) ← store 9 db₂ (codes "gamma") (codes "record3") db_insert
  ok db₃

fetch_run :
    (do db ← three_records; (t, db') ← fetch 9 db (codes "Alpha"); ok t) ≡ ok (some (codes "data1"))
unfolding decimal padded index_text header seek write_bytes lock_end un_lock_end parse_text readptr
    readidx readdat writedat writeidx writeptr hash hash_from find_from same_text find_and_lock
    fetch_found fetch dodelete delete_found delete findfree_from findfree append reuse store_new
    store_old store_found store rewind blank next_from nextrec alloc pointers set_up open_files bump
    is_flag is_replace is_insert no_counts
fetch_run = refl

-- as the test goes on: `zeta1` goes to the place of `Alpha`, `delta` grows, and all is read in turn
abbrev after_changes : Outcome (ℤ × ℤ × Option Bytes × Option Bytes × Option Bytes × ℕ × ℕ)
after_changes = do
  db ← three_records
  (gone, db₁) ← delete 9 db (codes "Alpha")
  (not_there, db₂) ← delete 9 db₁ (codes "xxx")
  (alpha, db₃) ← fetch 9 db₂ (codes "Alpha")
  (r₁, db₄) ← store 9 db₃ (codes "delta") (codes "I am delta") db_insert
  (r₂, db₅) ← store 9 db₄ (codes "zeta1") (codes "hello") db_insert
  (r₃, db₆) ← store 9 db₅ (codes "delta") (codes "I am delta1") db_replace
  (delta, db₇) ← fetch 9 db₆ (codes "delta")
  (zeta, db₈) ← fetch 9 db₇ (codes "zeta1")
  ok (gone, not_there, alpha, delta, zeta, db₈.cnt.stor2, db₈.cnt.stor3)

changes_run :
    after_changes
    ≡ ok (pos 0, negsuc 0, none, some (codes "I am delta1"), some (codes "hello"), 1, 1)
unfolding decimal padded index_text header seek write_bytes lock_end un_lock_end parse_text readptr
    readidx readdat writedat writeidx writeptr hash hash_from find_from same_text find_and_lock
    fetch_found fetch dodelete delete_found delete findfree_from findfree append reuse store_new
    store_old store_found store rewind blank next_from nextrec alloc pointers set_up open_files bump
    is_flag is_replace is_insert no_counts
changes_run = refl

abbrev first_record : Outcome (Option (Bytes × Bytes))
first_record = do db ← three_records; (rec, db') ← nextrec 9 (rewind db); ok rec

first_record_run : first_record ≡ ok (some (codes "Alpha", codes "data1"))
unfolding decimal padded index_text header seek write_bytes lock_end un_lock_end parse_text readptr
    readidx readdat writedat writeidx writeptr hash hash_from find_from same_text find_and_lock
    fetch_found fetch dodelete delete_found delete findfree_from findfree append reuse store_new
    store_old store_found store rewind blank next_from nextrec alloc pointers set_up open_files bump
    is_flag is_replace is_insert no_counts
first_record_run = refl
