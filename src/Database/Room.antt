-- ===== src/Database/Room.antt =====
-- db_store at the end of the files: the search for a free record, and what is written.
use code_learning.Base.{
  ℕ, ◌+◌, ◌%◌, ◌≤◌, ◌<◌, ◌≡◌, ◌⊎◌, refl, arith, List, [], ◌∷◌, length, none, true, false,
}
use code_learning.Base.Int.{ℤ, pos}
use code_learning.Database.{
  ok, ◌>>=◌, Bytes, Db, Lock, index_file, ptr_sz, ptr_max, free_off, datlen_min,
}
use code_learning.Database.Bytes.{Holds}
use code_learning.Database.Chains.{Ends, Entry, Chain, lookup, Kept, header_end}
use code_learning.Database.Decimal.{NoZero}
use code_learning.Database.Fetch.{ChainAt, chain_of}
use code_learning.Database.Files.{unlocked, seek_end}
use code_learning.Database.IndexText.{IsReadable, readptr-Holds}
use code_learning.Database.Records.{from_end, seek, lock, un_lock, lock_end, un_lock_end}
use code_learning.Database.Store.{NoFit, findfree_from-Kept}
use code_learning.Database.Text.{padded}
use code_learning.Database.Writes.{indexed, texted, pointed, writeptr-ok, writeidx-ok, writedat-eq}
use code_learning.Database.Operations.{findfree, append, hash, hash_from}

-- the free list of the index file
pub record FreeAt (idx : Bytes) (frees : List Entry) : Type 0 where
  pub first : ℕ
  pub fits : first ≤ ptr_max
  pub pointer : Holds idx free_off (padded ptr_sz first)
  pub chain : Chain idx first frees

-- a lock that is given back at once
abbrev pub Balanced : Lock → List Lock → Type 0
Balanced l locks = unlocked l.of l.start l.len (l ∷ locks) ≡ locks

unfoldable pub free_lock : Lock
free_lock = record { of = index_file; exclusive = true; start = free_off; len = 1 }

pub findfree-Kept :
    (fuel : ℕ) (db : Db) (keylen datlen : ℕ) (frees : List Entry)
    → length frees < fuel
    → FreeAt db.idx.bytes frees
    → NoFit keylen datlen frees
    → Balanced free_lock db.locks
    → Ends (λ r. (r.0 ≡ false) × Kept db r.1) (findfree fuel db keylen datlen)
unfolding findfree lock un_lock free_lock
findfree-Kept fuel db keylen datlen frees lt f no_fit balanced =
    let start = record db {
      idx = record { bytes = db.idx.bytes; offset = free_off + ptr_sz };
      locks = free_lock ∷ db.locks;
    } in
    let (r, e, (l, k)) =
      findfree_from-Kept fuel start keylen datlen (pos free_off) f.first frees lt f.chain no_fit in
    (
      (r.0, un_lock index_file free_off 1 r.1),
      rw
          (
            readptr-Holds (record db { locks = free_lock ∷ db.locks }) free_off f.first f.fits
                f.pointer,
            ◌>>=◌,
            e,
          )
          refl,
      (
        l,
        record {
          idx_bytes = k.idx_bytes;
          dat_bytes = k.dat_bytes;
          chainoff = k.chainoff;
          hashoff = k.hashoff;
          nhash = k.nhash;
          locks = rw k.locks balanced;
        },
      ),
    )

-- the state after `append`
abbrev pub appended : Db → (key text : Bytes) (next : ℕ) → Db
appended db key text next =
    pointed (indexed (texted db text 0 from_end) key 0 from_end next) db.chainoff
      (length db.idx.bytes + 0)

pub append-ok :
    (db : Db) (key text : Bytes) (next : ℕ)
    → IsReadable next key (length db.dat.bytes + 0) (length text + 1)
    → length db.idx.bytes + 0 ≤ ptr_max
    → append db key text (pos next) ≡ ok (appended db key text next)
unfolding append seek seek_end lock_end un_lock_end lock un_lock
append-ok db key text next ready small =
    rw
      (
        writedat-eq db text 0 from_end,
        writeidx-ok (texted db text 0 from_end) key 0 from_end next ready,
        ◌>>=◌,
      )
      (writeptr-ok (indexed (texted db text 0 from_end) key 0 from_end next) db.chainoff
        (length db.idx.bytes + 0) small)

-- what `store` needs to put a new record at the end of the files
pub record IsNew (db : Db) (key text : Bytes) (entries frees : List Entry) : Type 0 where
  pub nhash : db.nhash ≡ 137
  pub hashoff : db.hashoff ≡ 7
  pub unlocked_before : db.locks ≡ []
  pub chain : ChainAt db.idx.bytes db.dat.bytes (chain_of db key) entries
  pub absent : lookup key entries ≡ none
  pub free_list : FreeAt db.idx.bytes frees
  pub no_fit : NoFit (length key) (length text + 1) frees
  pub set_up_before : header_end ≤ length db.idx.bytes
  pub small : length db.idx.bytes ≤ ptr_max
  pub plain : NoZero text
  pub ready : IsReadable chain.first key (length db.dat.bytes) (length text + 1)
  pub long_enough : datlen_min ≤ length text + 1

-- what `store` leaves then
pub record Stored (db : Db) (key text : Bytes) (entries : List Entry) (r : ℤ × Db) : Type 0 where
  pub success : r.0 ≡ pos 0
  pub nhash : r.1.nhash ≡ db.nhash
  pub hashoff : r.1.hashoff ≡ db.hashoff
  pub locks : r.1.locks ≡ []
  pub chain : ChainAt r.1.idx.bytes r.1.dat.bytes (chain_of db key) (
      record { offset = length db.idx.bytes; key = key; datoff = length db.dat.bytes; text = text }
      ∷ entries)
  pub others :
      (at : ℕ) (es : List Entry)
      → at + ptr_sz ≤ header_end
      → (at + ptr_sz ≤ chain_of db key) ⊎ (chain_of db key + ptr_sz ≤ at)
      → ChainAt db.idx.bytes db.dat.bytes at es
      → ChainAt r.1.idx.bytes r.1.dat.bytes at es

pub plus_zero : (n : ℕ) → n + 0 ≡ n
plus_zero n = omega arith

pub chain_of-front :
    (db : Db) (key : Bytes)
    → db.nhash ≡ 137
    → db.hashoff ≡ 7
    → chain_of db key + ptr_sz ≤ header_end
unfolding hash
chain_of-front db key n h = omega (arith, below (hash_from 0 1 key) db.nhash n)
  where
    below : (x m : ℕ) → m ≡ 137 → x % m < 137
    below x m e = rw e (omega arith)

pub chain_of-behind : (db : Db) (key : Bytes) → db.hashoff ≡ 7 → free_off + ptr_sz ≤ chain_of db key
chain_of-behind db key h = omega arith
