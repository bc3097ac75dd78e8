-- ===== src/Database/Records.antt =====
-- Pointers, index records and data records in the files.
use code_learning.Base.{
  ℕ, ◌+◌, ◌*◌, [], ◌∷◌, ◌++◌, length, Option, none, some, Bool, true, ◌&&◌, ◌||◌, ◌==◌, ltb,
  if◌then◌else◌,
}
use code_learning.Base.Int.{ℤ, pos, negsuc, eqb_ℤ}
use code_learning.Database.{
  Outcome, ok, dumped, quit, fault, ◌>>=◌, Bytes, File, Descriptor, index_file, data_file, Db,
  idxlen_sz, ptr_sz, ptr_max, idxlen_min, idxlen_max, datlen_max, sep, newline,
}
use code_learning.Database.Files.{take, drop, seek_set, seek_end, read_bytes, write_bytes, unlocked}
use code_learning.Database.Text.{decimal, padded, atol, c_string, split_at}

-- the last argument of `lseek` where an offset may stand against the end of the file
pub data Whence : Type 0 where
  from_start : Whence
  from_end : Whence

unfoldable pub seek : File → (offset : ℕ) → Whence → File
unfolding seek_end
seek f offset from_start = record f { offset = offset }
seek f offset from_end = record f { offset = (seek_end f).offset + offset }

unfoldable pub lock : (of : Descriptor) (exclusive : Bool) (start len : ℕ) → Db → Db
lock of exclusive start len db = record db {
  locks = record { of = of; exclusive = exclusive; start = start; len = len } ∷ db.locks;
}

unfoldable pub un_lock : (of : Descriptor) (start len : ℕ) → Db → Db
unfolding unlocked
un_lock of start len db = record db { locks = unlocked of start len db.locks }

unfoldable pub readptr : Db → (offset : ℤ) → Outcome (ℤ × Db)
unfolding seek_set read_bytes c_string atol
readptr db offset = do
  f ← seek_set db.idx offset
  let (got, f') = read_bytes f ptr_sz
  if length got == ptr_sz then ok (atol (c_string got), record db { idx = f' }) else dumped

-- what `strchr` found, or did not find
abbrev pub required {ℓ} : {A : Type ℓ} → Option A → Outcome A
required none = dumped
required (some a) = ok a

abbrev pub forbidden {ℓ κ} : {A : Type ℓ} {B : Type κ} → Option A → B → Outcome B
forbidden none b = ok b
forbidden (some a) b = dumped

-- what stands in the index buffer: the key and the two numbers behind it
unfoldable pub fields : Bytes → Outcome (Bytes × Bytes × Bytes)
unfolding split_at
fields text = do
  (key, more) ← required (split_at sep text)
  (datoff, datlen) ← required (split_at sep more)
  forbidden (split_at sep datlen) (key, datoff, datlen)

-- the number of a field that is a length, or `dumped`
unfoldable pub within : (low high : ℕ) → ℤ → Outcome ℕ
within low high (pos n) = if ltb n low || ltb high n then dumped else ok n
within low high (negsuc n) = dumped

-- the number of an offset
unfoldable pub not_negative : ℤ → Outcome ℕ
not_negative (pos n) = ok n
not_negative (negsuc n) = dumped

-- the text without its last byte, which has to be a newline
unfoldable pub without_newline : Bytes → Outcome Bytes
without_newline [] = dumped
without_newline (c ∷ []) = if c == newline then ok [] else dumped
without_newline (c ∷ d ∷ s) = without_newline (d ∷ s) >>= λ rest. ok (c ∷ rest)

-- the key and the two numbers of an index record
unfoldable pub parse_text : Bytes → Outcome (Bytes × ℕ × ℕ)
unfolding within without_newline fields not_negative c_string atol
parse_text got = do
  text ← without_newline got
  (key, ptr1, ptr2) ← fields (c_string text)
  datoff ← not_negative (atol ptr1)
  datlen ← within 1 datlen_max (atol ptr2)
  ok (key, datoff, datlen)

-- the record behind the pointer and the length
unfoldable pub read_record : Db → (ptrval : ℤ) (len : Bytes) → Outcome (ℤ × Db)
unfolding read_bytes within c_string atol
read_record db ptrval len = do
  idxlen ← within idxlen_min idxlen_max (atol (c_string len))
  let (got, f) = read_bytes db.idx idxlen
  (key, datoff, datlen) ← if length got == idxlen then parse_text got else dumped
  ok (
    ptrval,
    record db {
      idx = f;
      ptrval = ptrval;
      idxlen = idxlen;
      idxbuf = key;
      datoff = datoff;
      datlen = datlen;
    },
  )

-- offset 0 stands for the descriptor's own offset
unfoldable pub readidx : Db → (offset : ℤ) → Outcome (ℤ × Db)
unfolding seek_set read_bytes read_record
readidx db offset = do
  f ← if eqb_ℤ offset (pos 0) then ok db.idx else seek_set db.idx offset
  let (got, f') = read_bytes f (ptr_sz + idxlen_sz)
  let db' = record db { idx = f'; idxoff = f.offset }
  let at_end = ok (negsuc 0, db')
  let rest = read_record db' (atol (c_string (take ptr_sz got))) (drop ptr_sz got)
  if length got == ptr_sz + idxlen_sz
      then rest
      else if length got == 0 && eqb_ℤ offset (pos 0)
      then at_end
      else dumped

unfoldable pub readdat : Db → Outcome (Bytes × Db)
unfolding read_bytes without_newline c_string
readdat db = do
  let (got, f) = read_bytes (record (db.dat) { offset = db.datoff }) db.datlen
  text ← if length got == db.datlen then without_newline got else dumped
  ok (c_string text, record db { dat = f; datbuf = c_string text })

-- the lock and the unlock of `start` and what follows, taken only to write at the end of a file
unfoldable pub lock_end : Whence → (of : Descriptor) (start : ℕ) → Db → Db
unfolding lock
lock_end from_start of start db = db
lock_end from_end of start db = lock of true start 0 db

unfoldable pub un_lock_end : Whence → (of : Descriptor) (start : ℕ) → Db → Db
unfolding un_lock
un_lock_end from_start of start db = db
un_lock_end from_end of start db = un_lock of start 0 db

unfoldable pub writedat : Db → (text : Bytes) (offset : ℕ) → Whence → Db
unfolding seek write_bytes lock_end un_lock_end
writedat db text offset whence =
    let f = seek db.dat offset whence in
    un_lock_end whence data_file 0 (record (lock_end whence data_file 0 db) {
      dat = write_bytes f (text ++ newline ∷ []);
      datoff = f.offset;
      datlen = length text + 1;
    })

-- "%s%c%lld%c%ld\n"
unfoldable pub index_text : (key : Bytes) (datoff datlen : ℕ) → Bytes
index_text key datoff datlen =
    key ++ sep ∷ (decimal datoff ++ sep ∷ (decimal datlen ++ newline ∷ []))

-- "%*lld%*d"
unfoldable pub header : (ptrval : ℤ) (len : ℕ) → Outcome Bytes
header (negsuc n) len = quit
header (pos n) len = if ltb ptr_max n then quit else ok (padded ptr_sz n ++ padded idxlen_sz len)

-- `idxbuf` has IDXLEN_MAX + 2 bytes, and the text is written to it before its length is tested
unfoldable pub writeidx : Db → (key : Bytes) (offset : ℕ) → Whence → (ptrval : ℤ) → Outcome Db
writeidx db key offset whence ptrval =
    let text = index_text key db.datoff db.datlen in
    let len = length text in
    let tail = (db.nhash + 1) * ptr_sz + 1 in
    let f = seek db.idx offset whence in
    header ptrval len >>= λ head.
    if ltb (idxlen_max + 2) (len + 1)
    then fault
    else if ltb len idxlen_min || ltb idxlen_max len
    then dumped
    else ok (
        un_lock_end whence index_file tail (record (lock_end whence index_file tail db) {
          idx = write_bytes f (head ++ text);
          ptrval = ptrval;
          idxbuf = text;
          idxoff = f.offset;
        }))

unfoldable pub writeptr : Db → (offset ptrval : ℤ) → Outcome Db
unfolding seek_set write_bytes
writeptr db offset (negsuc n) = quit
writeptr db offset (pos n) =
    if ltb ptr_max n
    then quit
    else seek_set db.idx offset >>= λ f. ok (record db { idx = write_bytes f (padded ptr_sz n) })
