-- ===== src/Database/Append.antt =====
-- `db_store` of a new key on the state.
use code_learning.Base.{
  ℕ, ◌+◌, ◌≤◌, ◌<◌, ◌≡◌, refl, ap, ◌∙◌, arith, List, [], ◌∷◌, length, Bool, true, false, ltb, ◌||◌,
}
use code_learning.Base.Int.{pos}
use code_learning.Database.{
  ok, ◌>>=◌, Bytes, Db, Lock, Counts, index_file, ptr_sz, datlen_max, datlen_min, bump,
}
use code_learning.Database.Bytes.{Holds}
use code_learning.Database.Chains.{Ends, Entry, Kept}
use code_learning.Database.Fetch.{chain_of, locked_at, find_and_lock-Located}
use code_learning.Database.Files.{unlocked, same_file, seek_end, write_bytes}
use code_learning.Database.IndexText.{readptr-Holds}
use code_learning.Database.Records.{seek, lock, un_lock, lock_end, un_lock_end}
use code_learning.Database.Store.{ChainAt-new, ChainAt-other}
use code_learning.Database.Text.{padded}
use code_learning.Database.Operations.{append, store_new, store, Flag, is_flag, is_replace}
use code_learning.Database.Room.{
  Balanced, free_lock, findfree-Kept, appended, append-ok, IsNew, Stored, plus_zero, chain_of-front,
  chain_of-behind,
}

-- the state between the searches and the writes
module _ (db : Db) (key text : Bytes) (entries frees : List Entry)
    (n : IsNew db key text entries frees) where
  chain_lock : Lock
  chain_lock = record { of = index_file; exclusive = true; start = chain_of db key; len = 1 }

  Balanced-free : (locks : List Lock) → locks ≡ chain_lock ∷ [] → Balanced free_lock locks
  unfolding unlocked same_file chain_lock free_lock
  Balanced-free locks e = rw e (ground (arith, chain_of-behind db key n.hashoff))

  -- the state that is written from
  record Ready (db' : Db) : Type 0 where
    idx_bytes : db'.idx.bytes ≡ db.idx.bytes
    dat_bytes : db'.dat.bytes ≡ db.dat.bytes
    chainoff : db'.chainoff ≡ chain_of db key
    hashoff : db'.hashoff ≡ db.hashoff
    nhash : db'.nhash ≡ db.nhash
    locks : db'.locks ≡ chain_lock ∷ []

  appended-locks :
      (db' : Db)
      → Ready db'
      → unlocked index_file
          (appended db' key text n.chain.first).chainoff
          1
          (appended db' key text n.chain.first).locks
        ≡ []
  unfolding unlocked same_file chain_lock lock_end un_lock_end lock un_lock
  appended-locks db' r = rw (r.locks, r.chainoff) (ground arith)

  appended-Stored :
      (db' : Db) (counts : Counts)
      → Ready db'
      → Stored db key text entries (
        pos 0,
        un_lock index_file
            (appended db' key text n.chain.first).chainoff
            1
            (record (appended db' key text n.chain.first) { cnt = counts }),
      )
  unfolding lock_end un_lock_end lock un_lock seek seek_end write_bytes
  appended-Stored db' counts r = record {
    success = refl;
    nhash = r.nhash;
    hashoff = r.hashoff;
    locks = appended-locks db' r;
    chain =
        rw
          (
            r.idx_bytes,
            r.dat_bytes,
            r.chainoff,
            plus_zero (length db.idx.bytes),
            plus_zero (length db.dat.bytes),
          )
          (ChainAt-new db.idx.bytes db.dat.bytes (chain_of db key) (length db.idx.bytes)
            (length db.dat.bytes) n.chain.first key text refl refl n.set_up_before n.small
            (chain_of-front db key n.nhash n.hashoff) n.plain n.ready entries n.chain.chain
            n.chain.texts);
    others = λ at es inside apart other.
        rw
          (
            r.idx_bytes,
            r.dat_bytes,
            r.chainoff,
            plus_zero (length db.idx.bytes),
            plus_zero (length db.dat.bytes),
          )
          (ChainAt-other db.idx.bytes db.dat.bytes (chain_of db key) (length db.idx.bytes)
            (length db.dat.bytes) n.chain.first key text refl refl n.set_up_before n.small
            (chain_of-front db key n.nhash n.hashoff) n.plain n.ready at es inside apart other);
  }

  store_new-Stored :
      (fuel : ℕ) (flag : Flag) (db₁ : Db)
      → is_replace flag ≡ false
      → length frees < fuel
      → Kept (locked_at db key true) db₁
      → Ends
          (λ r. Stored db key text entries (r.0, un_lock index_file r.1.chainoff 1 r.1))
          (store_new fuel db₁ key text flag)
  unfolding store_new lock chain_lock
  store_new-Stored fuel flag db₁ not_replace lt k =
      let c = n.chain in
      let f = n.free_list in
      let db₂ = record db₁ {
        idx = record { bytes = db₁.idx.bytes; offset = db₁.chainoff + ptr_sz };
      } in
      let pointer : Holds db₁.idx.bytes db₁.chainoff (padded ptr_sz c.first) =
        rw (k.idx_bytes, k.chainoff) c.pointer in
      let ((found, db₃), e, (none_found, k')) =
        findfree-Kept fuel db₂ (length key) (length text + 1) frees lt
          (record {
            first = f.first;
            fits = f.fits;
            pointer = rw k.idx_bytes f.pointer;
            chain = rw k.idx_bytes f.chain;
          })
          n.no_fit
          (Balanced-free db₁.locks (k.locks ∙ ap (λ l. chain_lock ∷ l) n.unlocked_before)) in
      let ready : Ready db₃ = record {
        idx_bytes = k'.idx_bytes ∙ k.idx_bytes;
        dat_bytes = k'.dat_bytes ∙ k.dat_bytes;
        chainoff = k'.chainoff ∙ k.chainoff;
        hashoff = k'.hashoff ∙ k.hashoff;
        nhash = k'.nhash ∙ k.nhash;
        locks = k'.locks ∙ k.locks ∙ ap (λ l. chain_lock ∷ l) n.unlocked_before;
      } in
      let new = appended db₃ key text c.first in
      let done : append db₃ key text (pos c.first) ≡ ok new =
        append-ok db₃ key text c.first
          (rw (ready.dat_bytes, plus_zero (length db.dat.bytes)) n.ready)
          (rw (ready.idx_bytes, plus_zero (length db.idx.bytes)) n.small) in
      (
        (pos 0, record new { cnt = record (new.cnt) { stor1 = bump new.cnt.stor1 } }),
        rw
            (
              not_replace,
              readptr-Holds db₁ db₁.chainoff c.first c.fits pointer,
              ◌>>=◌,
              e,
              none_found,
              done,
            )
            refl,
        appended-Stored db₃ (record (new.cnt) { stor1 = bump new.cnt.stor1 }) ready,
      )

-- `db_store` with `DB_INSERT` or `DB_STORE` of a key that its chain does not have, where no record
-- of the free list has the lengths that are wanted, ends with 0. The key's chain then has the new
-- record in front, every other chain is as before, and no lock is held. The key has neither a zero
-- nor a `:` in it, the text no zero, and the lengths and offsets are within the code's bounds.
pub store-Stored :
    (fuel : ℕ) (db : Db) (key text : Bytes) (flag : Flag) (entries frees : List Entry)
    → length entries < fuel
    → length frees < fuel
    → is_flag flag ≡ true
    → is_replace flag ≡ false
    → IsNew db key text entries frees
    → Ends (Stored db key text entries) (store fuel db key text flag)
unfolding store
store-Stored fuel db key text flag entries frees lt lt' is not_replace n =
    let (r, e, (l, k)) = find_and_lock-Located fuel db key true entries lt n.chain in
    let (r', e', s) =
      store_new-Stored db key text entries frees n fuel flag r.1 not_replace lt' k in
    (
      (r'.0, un_lock index_file r'.1.chainoff 1 r'.1),
      rw
          (
            is,
            fits (length text) n.long_enough n.ready.data_fits,
            e,
            ◌>>=◌,
            not_found r.0 (rw n.absent at l),
            e',
          )
          refl,
      s,
    )
  where
    fits :
        (len : ℕ)
        → datlen_min ≤ len + 1
        → len + 1 ≤ datlen_max
        → (ltb (len + 1) datlen_min || ltb datlen_max (len + 1)) ≡ false
    fits len a b = ground arith

    not_found : (b : Bool) → b ≡ false → b ≡ false
    not_found b e = e
