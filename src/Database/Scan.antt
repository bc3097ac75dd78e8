-- ===== src/Database/Scan.antt =====
-- apue/20db/db.c: db_rewind, db_nextrec, _db_alloc and db_open.
use code_learning.Base.{
  ℕ, zero, suc, ◌+◌, ◌*◌, [], ◌∷◌, ◌++◌, length, Option, none, some, Bool, true, false, ◌==◌,
  if◌then◌else◌,
}
use code_learning.Base.Int.{pos, ltb_ℤ}
use code_learning.Database.{
  Outcome, ok, dumped, out_of_fuel, ◌>>=◌, Bytes, index_file, Db, Counts, unset, ptr_sz, nhash_def,
  free_off, hash_off, space, newline, bump,
}
use code_learning.Database.Files.{write_bytes}
use code_learning.Database.Text.{padded}
use code_learning.Database.Records.{lock, un_lock, readidx, readdat}

unfoldable pub rewind : Db → Db
rewind db =
    let offset = (db.nhash + 1) * ptr_sz in
    record db { idx = record (db.idx) { offset = offset + 1 }; idxoff = offset + 1 }

-- whether a text is blank
unfoldable pub blank : Bytes → Bool
blank [] = true
blank (c ∷ s) = if c == space then blank s else false

-- the loop of `db_nextrec`: whether there is another record
unfoldable pub next_from : ℕ → Db → Outcome (Bool × Db)
next_from zero db = out_of_fuel
next_from (suc k) db = readidx db (pos 0) >>= λ (ptrval, db').
    (let rest = next_from k db' in
      if ltb_ℤ ptrval (pos 0)
      then ok (false, db')
      else if blank db'.idxbuf
      then rest
      else ok (true, db'))

-- the next key and its data; `fuel` is more than the number of deleted records that are passed
unfoldable pub nextrec : (fuel : ℕ) → Db → Outcome (Option (Bytes × Bytes) × Db)
unfolding lock un_lock
nextrec fuel db = do
  (found, db') ← next_from fuel (lock index_file false free_off 1 db)
  let missing : Outcome (Option (Bytes × Bytes) × Db) = ok (none, db')
  let present : Outcome (Option (Bytes × Bytes) × Db) = do
    (text, db'') ← readdat db'
    ok (
      some (db'.idxbuf, text),
      record db'' { cnt = record (db''.cnt) { nextrec = bump db''.cnt.nextrec } },
    )
  (rec, last) ← if found then present else missing
  ok (rec, un_lock index_file free_off 1 last)

unfoldable pub no_counts : Counts
no_counts = record {
  delok = 0;
  delerr = 0;
  fetchok = 0;
  fetcherr = 0;
  nextrec = 0;
  stor1 = 0;
  stor2 = 0;
  stor3 = 0;
  stor4 = 0;
  storerr = 0;
}

-- `calloc` and the fields that `db_open` sets; `memory` says whether every `malloc` succeeds
unfoldable pub alloc : (memory : Bool) → (name : Bytes) (idx dat : Bytes) → Outcome Db
alloc memory name idx dat =
    if memory
    then ok (record {
      idx = record { bytes = idx; offset = 0 };
      dat = record { bytes = dat; offset = 0 };
      idxbuf = [];
      datbuf = [];
      name = name;
      idxoff = 0;
      idxlen = 0;
      datoff = 0;
      datlen = 0;
      ptrval = pos 0;
      ptroff = pos 0;
      chainoff = 0;
      hashoff = hash_off;
      nhash = nhash_def;
      cnt = no_counts;
      locks = [];
      errno = unset;
    })
    else dumped

-- the free list's pointer, those of the chains, and a newline
unfoldable pub pointers : ℕ → Bytes
pointers zero = newline ∷ []
pointers (suc n) = padded ptr_sz 0 ++ pointers n

-- the index file is set up if it is empty
unfoldable pub set_up : Db → Db
unfolding lock un_lock
set_up db =
    let locked = lock index_file true 0 0 db in
    let filled = record locked { idx = write_bytes locked.idx (pointers (nhash_def + 1)) } in
    un_lock index_file 0 0 (if length locked.idx.bytes == 0 then filled else locked)

-- `idx` and `dat` are the files' contents once they are opened, `none` where `open` fails;
-- `created` says whether both `O_CREAT` and `O_TRUNC` are among the flags
unfoldable pub open_files :
    (memory : Bool) (pathname : Bytes) (idx dat : Option Bytes) (created : Bool)
    → Outcome (Option Db)
open_files memory pathname none dat created = if memory then ok none else dumped
open_files memory pathname (some idx) none created = if memory then ok none else dumped
open_files memory pathname (some idx) (some dat) created = do
  db ← alloc memory (pathname ++ b'.' ∷ b'd' ∷ b'a' ∷ b't' ∷ []) idx dat
  ok (some (rewind (if created then set_up db else db)))
