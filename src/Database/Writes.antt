-- ===== src/Database/Writes.antt =====
-- What the code writes, and that it reads it back.
use code_learning.Base.{
  ℕ, ◌+◌, ◌*◌, ◌≤◌, ◌≡◌, ◌≢◌, ◌⊎◌, refl, arith, [], ◌∷◌, ◌++◌, length, false, ltb, ◌||◌,
  if◌then◌else◌,
}
use code_learning.Base.Int.{pos}
use code_learning.Database.{
  ok, ◌>>=◌, Bytes, Db, index_file, data_file, ptr_sz, idxlen_sz, ptr_max, idxlen_min, idxlen_max,
  newline,
}
use code_learning.Database.Bytes.{Holds, Holds-overwrite, Holds-kept}
use code_learning.Database.Chains.{Ends}
use code_learning.Database.Decimal.{NoZero}
use code_learning.Database.Files.{overwrite, write_bytes, seek_set, seek_end}
use code_learning.Database.Reads.{readidx-Holds, readdat-Holds}
use code_learning.Database.IndexText.{index_record, IsReadable, length-ptr, readptr-Holds, loaded}
use code_learning.Database.Text.{padded}
use code_learning.Database.Records.{
  Whence, from_start, from_end, seek, lock, un_lock, lock_end, un_lock_end, readptr, readidx,
  readdat, writeptr, writeidx, header, writedat, index_text,
}

-- the state after a pointer was written
abbrev pub pointed : Db → (off n : ℕ) → Db
pointed db off n = record db {
  idx = record {
    bytes = overwrite db.idx.bytes off (padded ptr_sz n);
    offset = off + length (padded ptr_sz n);
  };
}

pub writeptr-ok :
    (db : Db) (off n : ℕ) → n ≤ ptr_max → writeptr db (pos off) (pos n) ≡ ok (pointed db off n)
unfolding writeptr seek_set write_bytes
writeptr-ok db off n le = rw (small n le) refl
  where
    small : (n : ℕ) → n ≤ ptr_max → ltb ptr_max n ≡ false
    small n le = ground arith

-- the state after an index record was written
abbrev pub indexed : Db → (key : Bytes) (off : ℕ) → Whence → (next : ℕ) → Db
indexed db key off whence next =
    let tail = (db.nhash + 1) * ptr_sz + 1 in
    un_lock_end whence index_file tail (record (lock_end whence index_file tail db) {
      idx = write_bytes (seek db.idx off whence) (index_record next key db.datoff db.datlen);
      ptrval = pos next;
      idxbuf = index_text key db.datoff db.datlen;
      idxoff = (seek db.idx off whence).offset;
    })

header-ok :
    (next len : ℕ)
    → next ≤ ptr_max
    → header (pos next) len ≡ ok (padded ptr_sz next ++ padded idxlen_sz len)
unfolding header
header-ok next len le = rw (small next le) refl
  where
    small : (n : ℕ) → n ≤ ptr_max → ltb ptr_max n ≡ false
    small n le = ground arith

in_bounds {ℓ} :
    {A : Type ℓ} (len : ℕ)
    → idxlen_min ≤ len
    → len ≤ idxlen_max
    → (a b c : A)
    → (if ltb (idxlen_max + 2) (len + 1)
        then a
        else if ltb len idxlen_min || ltb idxlen_max len
        then b
        else c)
      ≡ c
in_bounds len h k a b c = ground arith

pub writeidx-ok :
    (db : Db) (key : Bytes) (off : ℕ) (whence : Whence) (next : ℕ)
    → IsReadable next key db.datoff db.datlen
    → writeidx db key off whence (pos next) ≡ ok (indexed db key off whence next)
unfolding writeidx
writeidx-ok db key off whence next r =
    rw
      (
        header-ok next (length (index_text key db.datoff db.datlen)) r.next_fits,
        ◌>>=◌,
        in_bounds (length (index_text key db.datoff db.datlen)) r.long_enough r.short_enough,
      )
      refl

-- the state after a data record was written
abbrev pub texted : Db → (text : Bytes) (off : ℕ) → Whence → Db
texted db text off whence =
    un_lock_end whence data_file 0 (record (lock_end whence data_file 0 db) {
      dat = write_bytes (seek db.dat off whence) (text ++ newline ∷ []);
      datoff = (seek db.dat off whence).offset;
      datlen = length text + 1;
    })

pub writedat-eq :
    (db : Db) (text : Bytes) (off : ℕ) (whence : Whence)
    → writedat db text off whence ≡ texted db text off whence
unfolding writedat
writedat-eq db text off whence = refl

-- `_db_readptr` reads the pointer that `_db_writeptr` wrote, and another pointer that stands apart
-- from it as before.
readptr-writeptr :
    (db : Db) (off n other m : ℕ)
    → n ≤ ptr_max
    → m ≤ ptr_max
    → (other + ptr_sz ≤ off) ⊎ (off + ptr_sz ≤ other)
    → Holds db.idx.bytes other (padded ptr_sz m)
    → Ends
        (λ db'.
          Ends (λ r. r.0 ≡ pos n) (readptr db' (pos off))
          × Ends (λ r. r.0 ≡ pos m) (readptr db' (pos other)))
        (writeptr db (pos off) (pos n))
readptr-writeptr db off n other m le le' apart held =
    let db' = pointed db off n in
    (
      db',
      writeptr-ok db off n le,
      (
        (_, readptr-Holds db' off n le (Holds-overwrite db.idx.bytes off (padded ptr_sz n)), refl),
        (
          _,
          readptr-Holds db' other m le' (
              Holds-kept db.idx.bytes off (padded ptr_sz n) other (padded ptr_sz m)
                (rw (length-ptr m le', length-ptr n le) apart) held),
          refl,
        ),
      ),
    )

-- `_db_readidx` reads the record that `_db_writeidx` wrote at an offset: the pointer, the key, and
-- the place and length of its data. The key has neither a zero nor a `:`, and the pointer and the
-- lengths are within the bounds that the code tests.
pub readidx-writeidx :
    (db : Db) (key : Bytes) (off next : ℕ)
    → off ≢ 0
    → IsReadable next key db.datoff db.datlen
    → Ends
        (λ db'. readidx db' (pos off) ≡ ok (pos next, loaded db' off next key db.datoff db.datlen))
        (writeidx db key off from_start (pos next))
unfolding seek write_bytes lock_end un_lock_end
readidx-writeidx db key off next ne r =
    let db' = indexed db key off from_start next in
    (
      db',
      writeidx-ok db key off from_start next r,
      readidx-Holds db' off next key db.datoff db.datlen r
          (Holds-overwrite db.idx.bytes off (index_record next key db.datoff db.datlen)) ne,
    )

-- `_db_readdat` reads the text that `_db_writedat` wrote, at an offset or at the end of the file, if
-- there is no zero in it.
readdat-writedat :
    (db : Db) (text : Bytes) (off : ℕ) (whence : Whence)
    → NoZero text
    → Ends (λ r. r.0 ≡ text) (readdat (writedat db text off whence))
unfolding writedat seek seek_end write_bytes lock_end un_lock_end lock un_lock
readdat-writedat db text off from_start plain = (
  _,
  readdat-Holds (texted db text off from_start) text refl plain
      (Holds-overwrite db.dat.bytes off (text ++ newline ∷ [])),
  refl,
)
readdat-writedat db text off from_end plain = (
  _,
  readdat-Holds (texted db text off from_end) text refl plain
      (Holds-overwrite db.dat.bytes (length db.dat.bytes + off) (text ++ newline ∷ [])),
  refl,
)
