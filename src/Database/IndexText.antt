-- ===== src/Database/IndexText.antt =====
-- The text of an index record, written and read.
use mathlib.Core.List.{append_assoc, append-nil}
use code_learning.Base.{
  ℕ, zero, suc, ◌+◌, ◌≤◌, ◌≡◌, ◌≢◌, refl, sym, ap, ◌∙◌, arith, [], ◌∷◌, ◌++◌, length, true, false,
  ◌==◌,
}
use code_learning.Base.Int.{pos, eqb_ℤ}
use code_learning.Database.{
  ok, ◌>>=◌, Bytes, Db, ptr_sz, idxlen_sz, ptr_max, idxlen_min, idxlen_max, datlen_max, sep,
  newline,
}
use code_learning.Database.Bytes.{Holds, take-Holds}
use code_learning.Database.Decimal.{
  Plain, NoZero, NoZero-of_Plain, NoZero-append, Plain-decimal, c_string-NoZero,
  atol-c_string-padded, atol-decimal, split_at-Plain, split_at-none, length-padded,
}
use code_learning.Database.Files.{take, drop, seek_set, read_bytes}
use code_learning.Database.Text.{decimal, padded, atol}
use code_learning.Database.Records.{
  readptr, parse_text, fields, required, forbidden, within, not_negative, without_newline,
  index_text,
}

-- an index record: the pointer, the length, and the text
abbrev pub index_record : (next : ℕ) (key : Bytes) (datoff datlen : ℕ) → Bytes
index_record next key datoff datlen =
    (padded ptr_sz next ++ padded idxlen_sz (length (index_text key datoff datlen)))
    ++ index_text key datoff datlen

-- the bounds that the code tests
pub record IsReadable (next : ℕ) (key : Bytes) (datoff datlen : ℕ) : Type 0 where
  pub plain : Plain key
  pub next_fits : next ≤ ptr_max
  pub long_enough : idxlen_min ≤ length (index_text key datoff datlen)
  pub short_enough : length (index_text key datoff datlen) ≤ idxlen_max
  pub data_pos : 1 ≤ datlen
  pub data_fits : datlen ≤ datlen_max

pub take-length :
    (bs : Bytes) (off n : ℕ) (s : Bytes) → length s ≡ n → Holds bs off s → take n (drop off bs) ≡ s
take-length bs off n s e h = rw (sym e) (take-Holds bs off s h)

pub length-ptr : (n : ℕ) → n ≤ ptr_max → length (padded ptr_sz n) ≡ ptr_sz
length-ptr n h = length-padded 6 n (omega arith)

pub length-len : (n : ℕ) → n ≤ idxlen_max → length (padded idxlen_sz n) ≡ idxlen_sz
length-len n h = length-padded 3 n (omega arith)

-- a pointer that stands in the index file
pub readptr-Holds :
    (db : Db) (off n : ℕ)
    → n ≤ ptr_max
    → Holds db.idx.bytes off (padded ptr_sz n)
    → readptr db (pos off)
      ≡ ok (pos n, record db { idx = record { bytes = db.idx.bytes; offset = off + ptr_sz } })
unfolding readptr seek_set read_bytes
readptr-Holds db off n le h =
    rw
      (
        take-length db.idx.bytes off ptr_sz (padded ptr_sz n) (length-ptr n le) h,
        length-ptr n le,
        atol-c_string-padded ptr_sz n,
        ◌>>=◌,
      )
      refl

pub without_newline-append : (s : Bytes) → without_newline (s ++ newline ∷ []) ≡ ok s
unfolding without_newline
without_newline-append [] = refl
without_newline-append (c ∷ []) = refl
without_newline-append (c ∷ d ∷ s) = rw (without_newline-append (d ∷ s), ◌>>=◌)

-- the text of an index record without its newline
abbrev inner_text : (key : Bytes) (datoff datlen : ℕ) → Bytes
inner_text key datoff datlen = key ++ sep ∷ (decimal datoff ++ sep ∷ decimal datlen)

index_text-inner :
    (key : Bytes) (datoff datlen : ℕ)
    → index_text key datoff datlen ≡ inner_text key datoff datlen ++ newline ∷ []
unfolding index_text
index_text-inner key datoff datlen = simp append_assoc

fields-inner :
    (key : Bytes) (datoff datlen : ℕ)
    → Plain key
    → fields (inner_text key datoff datlen) ≡ ok (key, decimal datoff, decimal datlen)
unfolding fields
fields-inner key datoff datlen h = rw (
  fields,
  split_at-Plain key (decimal datoff ++ sep ∷ decimal datlen) h,
  split_at-Plain (decimal datoff) (decimal datlen) (Plain-decimal datoff),
  split_at-none (decimal datlen) (Plain-decimal datlen),
  ◌>>=◌,
  required,
  forbidden,
)

pub within-ok : (low high n : ℕ) → low ≤ n → n ≤ high → within low high (pos n) ≡ ok n
unfolding within
within-ok low high n h k = ground arith

NoZero-inner : (key : Bytes) (datoff datlen : ℕ) → Plain key → NoZero (inner_text key datoff datlen)
NoZero-inner key datoff datlen h =
    NoZero-append key (sep ∷ (decimal datoff ++ sep ∷ decimal datlen)) (NoZero-of_Plain key h) (
      ground arith,
      NoZero-append (decimal datoff) (sep ∷ decimal datlen)
          (NoZero-of_Plain (decimal datoff) (Plain-decimal datoff))
          (ground arith, NoZero-of_Plain (decimal datlen) (Plain-decimal datlen)),
    )

atol-decimal_end : (n : ℕ) → atol (decimal n) ≡ pos n
atol-decimal_end n = ap atol (sym (append-nil (decimal n))) ∙ atol-decimal n [] tt

-- the state after a record was read
abbrev pub loaded : Db → (off next : ℕ) (key : Bytes) (datoff datlen : ℕ) → Db
loaded db off next key datoff datlen = record db {
  idx = record {
    bytes = db.idx.bytes;
    offset = off + (ptr_sz + idxlen_sz) + length (index_text key datoff datlen);
  };
  idxoff = off;
  ptrval = pos next;
  idxlen = length (index_text key datoff datlen);
  idxbuf = key;
  datoff = datoff;
  datlen = datlen;
}

pub parse_text-index_text :
    (key : Bytes) (datoff datlen : ℕ)
    → Plain key
    → 1 ≤ datlen
    → datlen ≤ datlen_max
    → parse_text (index_text key datoff datlen) ≡ ok (key, datoff, datlen)
unfolding not_negative parse_text
parse_text-index_text key datoff datlen plain le fits =
    rw
      (
        parse_text,
        index_text-inner key datoff datlen,
        without_newline-append (inner_text key datoff datlen),
        ◌>>=◌,
        c_string-NoZero (inner_text key datoff datlen) (NoZero-inner key datoff datlen plain),
        fields-inner key datoff datlen plain,
        atol-decimal_end datoff,
        not_negative,
        atol-decimal_end datlen,
        within-ok 1 datlen_max datlen le fits,
      )
      refl

pub take-append : (s t : Bytes) (n : ℕ) → length s ≡ n → take n (s ++ t) ≡ s
take-append [] t zero e = refl
take-append [] t (suc n) e = absurd (omega arith)
take-append (c ∷ s) t zero e = absurd (omega arith)
take-append (c ∷ s) t (suc n) e = ap (λ r. c ∷ r) (take-append s t n (omega arith))

pub drop-append : (s t : Bytes) (n : ℕ) → length s ≡ n → drop n (s ++ t) ≡ t
drop-append [] t zero e = refl
drop-append [] t (suc n) e = absurd (omega arith)
drop-append (c ∷ s) t zero e = absurd (omega arith)
drop-append (c ∷ s) t (suc n) e = drop-append s t n (omega arith)

pub not_zero : (n : ℕ) → n ≢ 0 → eqb_ℤ (pos n) (pos 0) ≡ false
not_zero n ne = ground arith

pub itself : (n : ℕ) → (n == n) ≡ true
itself n = ground arith
