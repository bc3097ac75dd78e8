-- ===== src/Database/Operations.antt =====
-- The functions of the interface, and what they share.
use code_learning.Base.{
  ℕ, zero, suc, ◌+◌, ◌-◌, ◌*◌, ◌%◌, ◌^◌, [], ◌∷◌, length, Option, none, some, Bool, true, false,
  ◌&&◌, ◌||◌, ◌==◌, ltb, if◌then◌else◌, not,
}
use code_learning.Base.Int.{ℤ, pos, negsuc, eqb_ℤ}
use code_learning.Database.{
  Outcome, ok, dumped, out_of_fuel, ◌>>=◌, Bytes, index_file, Db, einval, enoent, ptr_sz, free_off,
  datlen_min, datlen_max, space, bump,
}
use code_learning.Database.Text.{replicate, same_text}
use code_learning.Database.Records.{
  from_start, from_end, lock, un_lock, readptr, readidx, readdat, writedat, writeidx, writeptr,
}

-- for (i = 1; (c = *key++) != 0; i++) hval += c * i;
unfoldable pub hash_from : (hval i : ℕ) → Bytes → ℕ
hash_from hval i [] = hval
hash_from hval i (c ∷ key) = hash_from ((hval + c * i) % 2 ^ 64) (i + 1) key

unfoldable pub hash : Db → (key : Bytes) → ℕ
hash db key = hash_from 0 1 key % db.nhash

-- the loop of `_db_find_and_lock`, and its result
unfoldable pub find_from : ℕ → Db → (key : Bytes) → (offset : ℤ) → Outcome (Bool × Db)
find_from zero db key offset = out_of_fuel
find_from (suc k) db key offset =
    let body = readidx db offset >>= λ (nextoffset, db').
    (let rest = find_from k (record db' { ptroff = offset }) key nextoffset in
      if same_text db'.idxbuf key then ok (true, db') else rest) in
    if eqb_ℤ offset (pos 0) then ok (false, db) else body

-- whether the key is found; `fuel` is more than the number of records on the chain
unfoldable pub find_and_lock :
    (fuel : ℕ) → Db → (key : Bytes) → (writelock : Bool) → Outcome (Bool × Db)
unfolding lock
find_and_lock fuel db key writelock =
    let chainoff = hash db key * ptr_sz + db.hashoff in
    let locked =
      lock index_file writelock chainoff 1
        (record db { chainoff = chainoff; ptroff = pos chainoff }) in
    readptr locked (pos chainoff) >>= λ (offset, db'). find_from fuel db' key offset

-- the rest of `db_fetch` with the result of the search; `none` is the pointer `NULL`
unfoldable pub fetch_found : (found : Bool) → Db → Outcome (Option Bytes × Db)
unfolding un_lock
fetch_found false db = ok (
  none,
  un_lock index_file db.chainoff 1
      (record db { cnt = record (db.cnt) { fetcherr = bump db.cnt.fetcherr } }),
)
fetch_found true db = do
  (text, db') ← readdat db
  ok (
    some text,
    un_lock index_file db'.chainoff 1
        (record db' { cnt = record (db'.cnt) { fetchok = bump db'.cnt.fetchok } }),
  )

unfoldable pub fetch : (fuel : ℕ) → Db → (key : Bytes) → Outcome (Option Bytes × Db)
unfolding fetch_found
fetch fuel db key = find_and_lock fuel db key false >>= λ (found, db'). fetch_found found db'

unfoldable pub dodelete : Db → Outcome Db
unfolding lock un_lock
dodelete db =
    let blank = record db {
      datbuf = replicate (db.datlen - 1) space;
      idxbuf = replicate (length db.idxbuf) space;
    } in
    let db₁ = lock index_file true free_off 1 blank in
    let db₂ = writedat db₁ db₁.datbuf db₁.datoff from_start in
    do
      (freeptr, db₃) ← readptr db₂ (pos free_off)
      let saveptr = db₃.ptrval
      db₄ ← writeidx db₃ db₃.idxbuf db₃.idxoff from_start freeptr
      db₅ ← writeptr db₄ (pos free_off) (pos db₄.idxoff)
      db₆ ← writeptr db₅ db₅.ptroff saveptr
      ok (un_lock index_file free_off 1 db₆)

-- the rest of `db_delete`
unfoldable pub delete_found : (found : Bool) → Db → Outcome (ℤ × Db)
unfolding un_lock
delete_found false db = ok (
  negsuc 0,
  un_lock index_file db.chainoff 1
      (record db { cnt = record (db.cnt) { delerr = bump db.cnt.delerr } }),
)
delete_found true db = do
  db' ← dodelete db
  ok (
    pos 0,
    un_lock index_file db'.chainoff 1
        (record db' { cnt = record (db'.cnt) { delok = bump db'.cnt.delok } }),
  )

-- the result is 0, or -1 where the key is not found
unfoldable pub delete : (fuel : ℕ) → Db → (key : Bytes) → Outcome (ℤ × Db)
unfolding delete_found
delete fuel db key = find_and_lock fuel db key true >>= λ (found, db'). delete_found found db'

-- the loop of `_db_findfree` and the lines behind it
unfoldable pub findfree_from :
    ℕ → Db → (keylen datlen : ℕ) → (saveoffset offset : ℤ) → Outcome (Bool × Db)
findfree_from zero db keylen datlen saveoffset offset = out_of_fuel
findfree_from (suc k) db keylen datlen saveoffset offset =
    let body = readidx db offset >>= λ (nextoffset, db').
    (let rest = findfree_from k db' keylen datlen offset nextoffset in
      let taken = writeptr db' saveoffset db'.ptrval >>= λ db''. ok (true, db'') in
      if length db'.idxbuf == keylen && db'.datlen == datlen then taken else rest) in
    if eqb_ℤ offset (pos 0) then ok (false, db) else body

-- whether a record of these lengths was taken from the free list
unfoldable pub findfree : (fuel : ℕ) → Db → (keylen datlen : ℕ) → Outcome (Bool × Db)
unfolding lock un_lock
findfree fuel db keylen datlen = do
  (offset, db') ← readptr (lock index_file true free_off 1 db) (pos free_off)
  (found, db'') ← findfree_from fuel db' keylen datlen (pos free_off) offset
  ok (found, un_lock index_file free_off 1 db'')

pub data Flag : Type 0 where
  db_insert : Flag
  db_replace : Flag
  db_store : Flag
  other_flag : Flag

unfoldable pub is_flag : Flag → Bool
is_flag other_flag = false
is_flag _ = true

unfoldable pub is_replace : Flag → Bool
is_replace db_replace = true
is_replace _ = false

unfoldable pub is_insert : Flag → Bool
is_insert db_insert = true
is_insert _ = false

-- a new record at the end of the files, in front of the chain that starts at `ptrval`
unfoldable pub append : Db → (key text : Bytes) → (ptrval : ℤ) → Outcome Db
append db key text ptrval = do
  db' ← writeidx (writedat db text 0 from_end) key 0 from_end ptrval
  writeptr db' (pos db'.chainoff) (pos db'.idxoff)

-- the same in the place of the record that was read last
unfoldable pub reuse : Db → (key text : Bytes) → (ptrval : ℤ) → Outcome Db
reuse db key text ptrval = do
  db' ← writeidx (writedat db text db.datoff from_start) key db.idxoff from_start ptrval
  writeptr db' (pos db'.chainoff) (pos db'.idxoff)

-- `store` of a key that is not there
unfoldable pub store_new : (fuel : ℕ) → Db → (key text : Bytes) → Flag → Outcome (ℤ × Db)
store_new fuel db key text flag =
    let refused : Outcome (ℤ × Db) = ok (
      negsuc 0,
      record db { cnt = record (db.cnt) { storerr = bump db.cnt.storerr }; errno = enoent },
    ) in
    let stored : Outcome (ℤ × Db) = (do
      (ptrval, db') ← readptr db (pos db.chainoff)
      (found, db'') ← findfree fuel db' (length key) (length text + 1)
      let appended : Outcome Db = do
        new ← append db'' key text ptrval
        ok (record new { cnt = record (new.cnt) { stor1 = bump new.cnt.stor1 } })
      let reused : Outcome Db = do
        new ← reuse db'' key text ptrval
        ok (record new { cnt = record (new.cnt) { stor2 = bump new.cnt.stor2 } })
      last ← if found then reused else appended
      ok (pos 0, last)) in
    if is_replace flag then refused else stored

-- `store` of a key that is there
unfoldable pub store_old : Db → (key text : Bytes) → Flag → Outcome (ℤ × Db)
store_old db key text flag =
    let refused : Outcome (ℤ × Db) =
      ok (pos 1, record db { cnt = record (db.cnt) { storerr = bump db.cnt.storerr } }) in
    let moved : Outcome (ℤ × Db) = (do
      db₁ ← dodelete db
      (ptrval, db₂) ← readptr db₁ (pos db₁.chainoff)
      new ← append db₂ key text ptrval
      ok (pos 0, record new { cnt = record (new.cnt) { stor3 = bump new.cnt.stor3 } })) in
    let in_place : Db = writedat db text db.datoff from_start in
    let replaced : Outcome (ℤ × Db) = ok (
      pos 0,
      record in_place { cnt = record (in_place.cnt) { stor4 = bump in_place.cnt.stor4 } },
    ) in
    if is_insert flag then refused else if length text + 1 == db.datlen then replaced else moved

-- the rest of `db_store` with the result of the search
unfoldable pub store_found :
    (fuel : ℕ) (found : Bool) → Db → (key text : Bytes) → Flag → Outcome (ℤ × Db)
unfolding un_lock
store_found fuel found db key text flag = do
  (rc, last) ← if found then store_old db key text flag else store_new fuel db key text flag
  ok (rc, un_lock index_file last.chainoff 1 last)

-- the result is 0, 1 where `DB_INSERT` finds the key, or -1
unfoldable pub store : (fuel : ℕ) → Db → (key text : Bytes) → Flag → Outcome (ℤ × Db)
unfolding store_found
store fuel db key text flag =
    let datlen = length text + 1 in
    let stored =
      find_and_lock fuel db key true >>= λ (found, db'). store_found fuel found db' key text flag in
    if not (is_flag flag)
    then ok (negsuc 0, record db { errno = einval })
    else if ltb datlen datlen_min || ltb datlen_max datlen
    then dumped
    else stored
