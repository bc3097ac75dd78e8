-- ===== src/Database/Results.antt =====
-- Operations one after the other, and those that are refused.
use code_learning.Base.{
  ℕ, ◌+◌, ◌≤◌, ◌<◌, ◌≡◌, refl, ◌∙◌, arith, List, [], ◌∷◌, length, Option, none, some, Bool, true,
  false, ltb, ◌||◌,
}
use code_learning.Base.Int.{ℤ, pos, negsuc}
use code_learning.Database.{◌>>=◌, Bytes, Db, index_file, datlen_max, datlen_min, bump, enoent}
use code_learning.Database.Append.{store-Stored}
use code_learning.Database.Room.{IsNew}
use code_learning.Database.Chains.{Ends, Entry, lookup, Kept, Located, same_text_refl}
use code_learning.Database.Fetch.{
  ChainAt, chain_of, fetch-Fetched, find_and_lock-Located, given_back, locked_at,
}
use code_learning.Database.Records.{lock, un_lock}
use code_learning.Database.Operations.{
  fetch, store, store_new, store_old, store_found, other_flag, Flag, db_replace, db_insert,
  db_store, is_flag, is_replace, is_insert, hash,
}

-- `db_store` of a new key as in `store-Stored`, and then `db_fetch` of it, ends with the text.
pub fetch-store :
    (fuel : ℕ) (db : Db) (key text : Bytes) (flag : Flag) (entries frees : List Entry)
    → length entries + 1 < fuel
    → length frees < fuel
    → is_flag flag ≡ true
    → is_replace flag ≡ false
    → IsNew db key text entries frees
    → Ends (λ r. Ends (λ s. s.0 ≡ some text) (fetch fuel r.1 key)) (store fuel db key text flag)
unfolding hash lookup
fetch-store fuel db key text flag entries frees lt lt' is not_replace n =
    let (r, e, s) =
      store-Stored fuel db key text flag entries frees (omega arith) lt' is not_replace n in
    let new : Entry = record {
      offset = length db.idx.bytes;
      key = key;
      datoff = length db.dat.bytes;
      text = text;
    } in
    let (r', e', f) =
      fetch-Fetched fuel r.1 key (new ∷ entries) (omega arith) s.locks
        (rw (s.nhash, s.hashoff) s.chain) in
    (r, e, (r', e', f.text ∙ rw (same_text_refl key) refl))

-- what a refused `db_store` leaves
pub record Refused (db : Db) (rc : ℤ) (r : ℤ × Db) : Type 0 where
  pub result : r.0 ≡ rc
  pub idx_bytes : r.1.idx.bytes ≡ db.idx.bytes
  pub dat_bytes : r.1.dat.bytes ≡ db.dat.bytes
  pub locks : r.1.locks ≡ db.locks

-- the result of a refusal: -1 to replace what is not there, 1 to insert what is there
unfoldable pub refusal : Flag → Option Entry → Option ℤ
refusal db_replace none = some (negsuc 0)
refusal db_insert (some e) = some (pos 1)
refusal _ _ = none

store_found-Refused :
    (fuel : ℕ) (db db₁ : Db) (key text : Bytes) (flag : Flag) (rc : ℤ) (entry : Option Entry)
    (found : Bool)
    → db.locks ≡ []
    → Kept (locked_at db key true) db₁
    → Located entry (found, db₁)
    → refusal flag entry ≡ some rc
    → Ends (Refused db rc) (store_found fuel found db₁ key text flag)
unfolding store_found refusal store_new store_old is_replace is_insert un_lock lock
store_found-Refused fuel db db₁ key text db_replace rc none found free k l e = (
  (
    negsuc 0,
    un_lock index_file db₁.chainoff 1
        (record db₁ { cnt = record (db₁.cnt) { storerr = bump db₁.cnt.storerr }; errno = enoent }),
  ),
  rw l refl,
  record {
    result = cc;
    idx_bytes = k.idx_bytes;
    dat_bytes = k.dat_bytes;
    locks = given_back db db₁ key true free k;
  },
)
store_found-Refused fuel db db₁ key text db_insert rc (some entry) found free k (l, off, len) e = (
  (
    pos 1,
    un_lock index_file db₁.chainoff 1
        (record db₁ { cnt = record (db₁.cnt) { storerr = bump db₁.cnt.storerr } }),
  ),
  rw l refl,
  record {
    result = cc;
    idx_bytes = k.idx_bytes;
    dat_bytes = k.dat_bytes;
    locks = given_back db db₁ key true free k;
  },
)
store_found-Refused fuel db db₁ key text db_insert rc none found free k l e = cc
store_found-Refused fuel db db₁ key text db_replace rc (some entry) found free k l e = cc
store_found-Refused fuel db db₁ key text db_store rc none found free k l e = cc
store_found-Refused fuel db db₁ key text db_store rc (some entry) found free k l e = cc
store_found-Refused fuel db db₁ key text other_flag rc none found free k l e = cc
store_found-Refused fuel db db₁ key text other_flag rc (some entry) found free k l e = cc

-- an allowed flag
is_flag-refusal :
    (flag : Flag) (entry : Option Entry) {rc : ℤ}
    → refusal flag entry ≡ some rc
    → is_flag flag ≡ true
unfolding refusal is_flag
is_flag-refusal db_insert entry e = refl
is_flag-refusal db_replace entry e = refl
is_flag-refusal db_store entry e = refl
is_flag-refusal other_flag none e = cc
is_flag-refusal other_flag (some entry) e = cc

-- `db_store` of a text of allowed length with `DB_REPLACE`, where the key's chain does not have the
-- key, ends with -1, and with `DB_INSERT`, where it has it, ends with 1. Both times the files are as
-- before, and no lock is held.
pub store-Refused :
    (fuel : ℕ) (db : Db) (key text : Bytes) (flag : Flag) (rc : ℤ) (entries : List Entry)
    → length entries < fuel
    → datlen_min ≤ length text + 1
    → length text + 1 ≤ datlen_max
    → db.locks ≡ []
    → ChainAt db.idx.bytes db.dat.bytes (chain_of db key) entries
    → refusal flag (lookup key entries) ≡ some rc
    → Ends (Refused db rc) (store fuel db key text flag)
unfolding store
store-Refused fuel db key text flag rc entries lt long short free c e =
    let (r, e', (l, k)) = find_and_lock-Located fuel db key true entries lt c in
    rw (is_flag-refusal flag (lookup key entries) e, fits (length text) long short, e', ◌>>=◌)
      (store_found-Refused fuel db r.1 key text flag rc (lookup key entries) r.0 free k l e)
  where
    fits :
        (len : ℕ)
        → datlen_min ≤ len + 1
        → len + 1 ≤ datlen_max
        → (ltb (len + 1) datlen_min || ltb datlen_max (len + 1)) ≡ false
    fits len a b = ground arith
