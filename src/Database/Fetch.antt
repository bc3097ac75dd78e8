-- ===== src/Database/Fetch.antt =====
-- `db_fetch` against the records of the key's hash chain.
use mathlib.Core.Option
use mathlib.Core.Path.{subst}
use code_learning.Base.{
  ℕ, ◌+◌, ◌*◌, ◌≤◌, ◌<◌, ◌≡◌, inl, inr, refl, arith, List, [], ◌∷◌, ◌++◌, length, Option, none,
  some, Bool, false, Bool-cases,
}
use code_learning.Base.Int.{pos}
use code_learning.Database.{
  ◌>>=◌, Bytes, Db, Lock, Descriptor, index_file, data_file, bump, newline, ptr_sz, ptr_max,
}
use code_learning.Database.Bytes.{Holds}
use code_learning.Database.Chains.{
  Ends, Entry, Chain, AllData, lookup, Kept, Located, find_from-Located,
}
use code_learning.Database.Decimal.{NoZero}
use code_learning.Database.Files.{unlocked, same_file}
use code_learning.Database.Reads.{readdat-Holds}
use code_learning.Database.IndexText.{readptr-Holds}
use code_learning.Database.Records.{lock, un_lock}
use code_learning.Database.Text.{padded, same_text}
use code_learning.Database.Operations.{hash, find_and_lock, fetch_found, fetch}

-- where the pointer to a key's chain stands
abbrev pub chain_of : Db → Bytes → ℕ
chain_of db key = hash db key * ptr_sz + db.hashoff

-- the chain whose pointer stands at an offset
pub record ChainAt (idx dat : Bytes) (at : ℕ) (entries : List Entry) : Type 0 where
  pub first : ℕ
  pub fits : first ≤ ptr_max
  pub pointer : Holds idx at (padded ptr_sz first)
  pub chain : Chain idx first entries
  pub texts : AllData dat entries

-- the state as `_db_find_and_lock` starts
abbrev pub locked_at : Db → Bytes → Bool → Db
locked_at db key exclusive =
    lock index_file exclusive (chain_of db key) 1
      (record db { chainoff = chain_of db key; ptroff = pos (chain_of db key) })

pub find_and_lock-Located :
    (fuel : ℕ) (db : Db) (key : Bytes) (exclusive : Bool) (entries : List Entry)
    → length entries < fuel
    → ChainAt db.idx.bytes db.dat.bytes (chain_of db key) entries
    → Ends
        (λ r. Located (lookup key entries) r × Kept (locked_at db key exclusive) r.1)
        (find_and_lock fuel db key exclusive)
unfolding find_and_lock lock
find_and_lock-Located fuel db key exclusive entries lt c =
    let (r, e, (l, k)) =
      find_from-Located fuel
        (record (locked_at db key exclusive) {
          idx = record { bytes = db.idx.bytes; offset = chain_of db key + ptr_sz };
        })
        key c.first entries lt c.chain in
    (
      r,
      rw
          (
            readptr-Holds (locked_at db key exclusive) (chain_of db key) c.first c.fits c.pointer,
            ◌>>=◌,
          )
          e,
      (
        l,
        record {
          idx_bytes = k.idx_bytes;
          dat_bytes = k.dat_bytes;
          chainoff = k.chainoff;
          hashoff = k.hashoff;
          nhash = k.nhash;
          locks = k.locks;
        },
      ),
    )

-- the data record of an entry that was looked up
texts-lookup :
    (dat : Bytes) (key : Bytes) (entries : List Entry) (e : Entry)
    → AllData dat entries
    → lookup key entries ≡ some e
    → NoZero e.text × Holds dat e.datoff (e.text ++ newline ∷ [])
unfolding lookup
texts-lookup dat key [] e t h = cc
texts-lookup dat key (d ∷ entries) e (plain, held, t) h = elim (Bool-cases (same_text d.key key)) [
  | inl s ↦
      subst (λ x. NoZero x.text × Holds dat x.datoff (x.text ++ newline ∷ [])) (one d e (rw s at h))
        (plain, held)
  | inr s ↦ texts-lookup dat key entries e t (rw s at h)
]
  where
    one : (d e : Entry) → some d ≡ some e → d ≡ e
    one d e h = cc

-- what `db_fetch` leaves: the text, the files as they were, and no lock
pub record Fetched (db : Db) (entry : Option Entry) (r : Option Bytes × Db) : Type 0 where
  pub text : r.0 ≡ Option.map (λ (e : Entry). e.text) entry
  pub idx_bytes : r.1.idx.bytes ≡ db.idx.bytes
  pub dat_bytes : r.1.dat.bytes ≡ db.dat.bytes
  pub unlocked_again : r.1.locks ≡ db.locks

-- taking and giving back the one lock
unlocked-lock :
    (of : Descriptor) (exclusive : Bool) (start len : ℕ) (locks : List Lock)
    → locks ≡ []
    → unlocked of start len
        (record { of = of; exclusive = exclusive; start = start; len = len } ∷ locks)
      ≡ locks
unfolding unlocked same_file
unlocked-lock index_file exclusive start len locks e = rw e (ground arith)
unlocked-lock data_file exclusive start len locks e = rw e (ground arith)

pub given_back :
    (db db' : Db) (key : Bytes) (exclusive : Bool)
    → db.locks ≡ []
    → Kept (locked_at db key exclusive) db'
    → unlocked index_file db'.chainoff 1 db'.locks ≡ db.locks
unfolding lock
given_back db db' key exclusive free k =
    rw (k.locks, k.chainoff) (unlocked-lock index_file exclusive (chain_of db key) 1 db.locks free)

fetch_found-Fetched :
    (db db' : Db) (key : Bytes) (entries : List Entry) (entry : Option Entry) (found : Bool)
    → lookup key entries ≡ entry
    → AllData db.dat.bytes entries
    → db.locks ≡ []
    → Kept (locked_at db key false) db'
    → Located entry (found, db')
    → Ends (Fetched db entry) (fetch_found found db')
unfolding fetch_found un_lock lock
fetch_found-Fetched db db' key entries none found e texts free k l = (
  (
    none,
    un_lock index_file db'.chainoff 1
        (record db' { cnt = record (db'.cnt) { fetcherr = bump db'.cnt.fetcherr } }),
  ),
  rw l refl,
  record {
    text = refl;
    idx_bytes = k.idx_bytes;
    dat_bytes = k.dat_bytes;
    unlocked_again = given_back db db' key false free k;
  },
)
fetch_found-Fetched db db' key entries (some entry) found e texts free k (yes_found, off, len) =
    let (plain, held) = texts-lookup db.dat.bytes key entries entry texts e in
    let read = record db' {
      dat = record { bytes = db'.dat.bytes; offset = db'.datoff + (length entry.text + 1) };
      datbuf = entry.text;
    } in
    (
      (
        some entry.text,
        un_lock index_file read.chainoff 1
            (record read { cnt = record (read.cnt) { fetchok = bump read.cnt.fetchok } }),
      ),
      rw (yes_found, readdat-Holds db' entry.text len plain (rw (k.dat_bytes, off) held), ◌>>=◌)
          refl,
      record {
        text = refl;
        idx_bytes = k.idx_bytes;
        dat_bytes = k.dat_bytes;
        unlocked_again = given_back db db' key false free k;
      },
    )

-- `db_fetch` of a key whose hash chain has the records `entries`, with no lock held before and more
-- rounds of fuel than records, ends with the text of the first record with this key, or `NULL` if
-- there is none. The files are as before, and no lock is held.
pub fetch-Fetched :
    (fuel : ℕ) (db : Db) (key : Bytes) (entries : List Entry)
    → length entries < fuel
    → db.locks ≡ []
    → ChainAt db.idx.bytes db.dat.bytes (chain_of db key) entries
    → Ends (Fetched db (lookup key entries)) (fetch fuel db key)
unfolding fetch
fetch-Fetched fuel db key entries lt free c =
    let (r, e, (l, k)) = find_and_lock-Located fuel db key false entries lt c in
    rw (e, ◌>>=◌)
      (fetch_found-Fetched db r.1 key entries (lookup key entries) r.0 refl c.texts free k l)
