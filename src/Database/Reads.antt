-- ===== src/Database/Reads.antt =====
-- What the code reads of a pointer, an index record or a data record that stands in a file.
use code_learning.Base.{ℕ, ◌+◌, ◌≡◌, ◌≢◌, refl, sym, arith, [], ◌∷◌, ◌++◌, length, length-append}
use code_learning.Base.Int.{pos}
use code_learning.Database.{
  ok, ◌>>=◌, Bytes, Db, ptr_sz, idxlen_sz, idxlen_min, idxlen_max, newline,
}
use code_learning.Database.Bytes.{Holds, take-Holds, Holds-left, Holds-right}
use code_learning.Database.Decimal.{NoZero, c_string-NoZero, atol-c_string-padded}
use code_learning.Database.Files.{take, drop, seek_set, read_bytes}
use code_learning.Database.Text.{padded}
use code_learning.Database.Records.{readidx, read_record, readdat, index_text}
use code_learning.Database.IndexText.{
  index_record, IsReadable, take-length, length-ptr, length-len, without_newline-append, within-ok,
  loaded, parse_text-index_text, take-append, drop-append, not_zero, itself,
}

module _ (db : Db) (off next : ℕ) (key : Bytes) (datoff datlen : ℕ)
    (ready : IsReadable next key datoff datlen)
    (h : Holds db.idx.bytes off (index_record next key datoff datlen)) where
  len : ℕ
  len = length (index_text key datoff datlen)

  -- behind the header
  behind : Db
  behind = record db {
    idx = record { bytes = db.idx.bytes; offset = off + (ptr_sz + idxlen_sz) };
    idxoff = off;
  }

  length-head : length (padded ptr_sz next ++ padded idxlen_sz len) ≡ ptr_sz + idxlen_sz
  unfolding len
  length-head = omega (
    arith,
    length-append (padded ptr_sz next) (padded idxlen_sz (length (index_text key datoff datlen))),
    length-ptr next ready.next_fits,
    length-len (length (index_text key datoff datlen)) ready.short_enough,
  )

  Holds-head : Holds db.idx.bytes off (padded ptr_sz next ++ padded idxlen_sz len)
  unfolding len
  Holds-head =
      Holds-left db.idx.bytes off
        (padded ptr_sz next ++ padded idxlen_sz (length (index_text key datoff datlen)))
        (index_text key datoff datlen) h

  Holds-text : Holds db.idx.bytes (off + (ptr_sz + idxlen_sz)) (index_text key datoff datlen)
  unfolding len
  Holds-text = rw (sym length-head) (
      Holds-right db.idx.bytes off
        (padded ptr_sz next ++ padded idxlen_sz (length (index_text key datoff datlen)))
        (index_text key datoff datlen) h)

  take_front : take ptr_sz (padded ptr_sz next ++ padded idxlen_sz len) ≡ padded ptr_sz next
  take_front =
      take-append (padded ptr_sz next) (padded idxlen_sz len) ptr_sz
        (length-ptr next ready.next_fits)

  drop_front : drop ptr_sz (padded ptr_sz next ++ padded idxlen_sz len) ≡ padded idxlen_sz len
  drop_front =
      drop-append (padded ptr_sz next) (padded idxlen_sz len) ptr_sz
        (length-ptr next ready.next_fits)

  read_record-Holds :
      read_record behind (pos next) (padded idxlen_sz len)
      ≡ ok (pos next, loaded db off next key datoff datlen)
  unfolding read_record len behind read_bytes
  read_record-Holds =
      let text = index_text key datoff datlen in
      rw
        (
          atol-c_string-padded idxlen_sz (length text),
          within-ok idxlen_min idxlen_max (length text) ready.long_enough ready.short_enough,
          ◌>>=◌,
          take-Holds db.idx.bytes (off + (ptr_sz + idxlen_sz)) text Holds-text,
          itself (length text),
          parse_text-index_text key datoff datlen ready.plain ready.data_pos ready.data_fits,
        )
        refl

  pub readidx-Holds :
      off ≢ 0 → readidx db (pos off) ≡ ok (pos next, loaded db off next key datoff datlen)
  unfolding readidx seek_set read_bytes behind
  readidx-Holds ne =
      let head = padded ptr_sz next ++ padded idxlen_sz len in
      rw
        (
          not_zero off ne,
          ◌>>=◌,
          take-length db.idx.bytes off (ptr_sz + idxlen_sz) head length-head Holds-head,
          length-head,
          take_front,
          drop_front,
          atol-c_string-padded ptr_sz next,
        )
        read_record-Holds

-- a data record that stands at `datoff`
pub readdat-Holds :
    (db : Db) (text : Bytes)
    → db.datlen ≡ length text + 1
    → NoZero text
    → Holds db.dat.bytes db.datoff (text ++ newline ∷ [])
    → readdat db
      ≡ ok (
        text,
        record db {
          dat = record { bytes = db.dat.bytes; offset = db.datoff + (length text + 1) };
          datbuf = text;
        },
      )
unfolding readdat read_bytes
readdat-Holds db text e plain h =
    rw
      (
        readdat,
        e,
        take-length db.dat.bytes db.datoff (length text + 1) (text ++ newline ∷ []) (size text) h,
        size text,
        itself (length text + 1),
        without_newline-append text,
        ◌>>=◌,
        c_string-NoZero text plain,
      )
      refl
  where
    size : (text : Bytes) → length (text ++ newline ∷ []) ≡ length text + 1
    size text = length-append text (newline ∷ [])
