-- ===== src/Tests/DatabaseInstances.antt =====
-- The theorems on the database at a database that was just created.
use code_learning.Base.{◌≡◌, refl, ap, arith, true, [], ◌∷◌, length, Option, none, some}
use code_learning.Base.Int.{pos, negsuc}
use code_learning.Database.{Bytes, Db, ok, ptr_sz}
use code_learning.Database.Append.{store-Stored}
use code_learning.Database.Room.{IsNew, Stored}
use code_learning.Database.Bytes.{Holds}
use code_learning.Database.Chains.{Ends, Entry, lookup, same_text_refl}
use code_learning.Database.Replace.{Splits, Replaced, store-Replaced}
use code_learning.Database.Fetch.{ChainAt, chain_of, Fetched, fetch-Fetched}
use code_learning.Database.Open.{IsOpened, IsSetUp, Opened, open_files-Opened}
use code_learning.Database.IndexText.{IsReadable, loaded}
use code_learning.Database.Records.{from_start, readidx, writeidx, index_text}
use code_learning.Database.Results.{Refused, refusal, store-Refused, fetch-store}
use code_learning.Database.Text.{padded, decimal}
use code_learning.Database.Writes.{readidx-writeidx}
use code_learning.Database.Operations.{
  hash, fetch, store, db_insert, db_replace, is_flag, is_replace, is_insert,
}
use code_learning.Database.Scan.{open_files}

-- "k1" and "data"
abbrev key : Bytes
key = b'k' ∷ b'1' ∷ []

abbrev text : Bytes
text = b'd' ∷ b'a' ∷ b't' ∷ b'a' ∷ []

created : Ends (Opened (some []) (some []) true) (open_files true key (some []) (some []) true)
created = open_files-Opened key (some []) (some []) true

opened : (o : Option Db) → Opened (some []) (some []) true o → (db : Db) × IsOpened [] [] true db
opened none e = elim e [ ]
opened (some db) e = (db, e)

fresh : Db
fresh = (opened created.0 created.2).0

fresh-IsOpened : IsOpened [] [] true fresh
unfolding fresh
fresh-IsOpened = (opened created.0 created.2).1

fresh-IsSetUp : IsSetUp fresh
fresh-IsSetUp = fresh-IsOpened.set_up_now refl refl

no_data : length fresh.dat.bytes ≡ 0
no_data = ap length fresh-IsOpened.dat_bytes

no_entries : ChainAt fresh.idx.bytes fresh.dat.bytes (chain_of fresh key) []
unfolding hash
no_entries = fresh-IsSetUp.chains (hash fresh key) (rw fresh-IsOpened.nhash (omega arith))

fresh-IsReadable : IsReadable no_entries.first key (length fresh.dat.bytes) 5
unfolding index_text decimal
fresh-IsReadable = rw no_data (record {
  plain = (ground arith, ground arith, (ground arith, ground arith, tt));
  next_fits = no_entries.fits;
  long_enough = omega arith;
  short_enough = omega arith;
  data_pos = omega arith;
  data_fits = omega arith;
})

fresh-IsNew : IsNew fresh key text [] []
unfolding lookup
fresh-IsNew = record {
  nhash = fresh-IsOpened.nhash;
  hashoff = fresh-IsOpened.hashoff;
  unlocked_before = fresh-IsOpened.locks;
  chain = no_entries;
  absent = refl;
  free_list = fresh-IsSetUp.free_list;
  no_fit = tt;
  set_up_before = omega (arith, fresh-IsSetUp.size);
  small = omega (arith, fresh-IsSetUp.size);
  plain = (ground arith, (ground arith, (ground arith, (ground arith, tt))));
  ready = fresh-IsReadable;
  long_enough = omega arith;
}

store-Stored_example : Ends (Stored fresh key text []) (store 1 fresh key text db_insert)
unfolding is_flag is_replace
store-Stored_example =
    store-Stored 1 fresh key text db_insert [] [] (omega arith) (omega arith) refl refl fresh-IsNew

fetch-store_example :
    Ends (λ r. Ends (λ s. s.0 ≡ some text) (fetch 2 r.1 key)) (store 2 fresh key text db_insert)
unfolding is_flag is_replace
fetch-store_example =
    fetch-store 2 fresh key text db_insert [] [] (omega arith) (omega arith) refl refl fresh-IsNew

fetch-Fetched_example : Ends (Fetched fresh none) (fetch 1 fresh key)
unfolding lookup
fetch-Fetched_example = fetch-Fetched 1 fresh key [] (omega arith) fresh-IsOpened.locks no_entries

store-Refused_example : Ends (Refused fresh (negsuc 0)) (store 1 fresh key text db_replace)
unfolding lookup refusal
store-Refused_example =
    store-Refused 1 fresh key text db_replace (negsuc 0) [] (omega arith) (omega arith)
      (omega arith) fresh-IsOpened.locks no_entries refl

-- the database with the record of `key`
first_store : Ends (Stored fresh key text []) (store 1 fresh key text db_insert)
unfolding is_flag is_replace
first_store =
    store-Stored 1 fresh key text db_insert [] [] (omega arith) (omega arith) refl refl fresh-IsNew

stored : Db
stored = first_store.0.1

abbrev entry : Entry
entry = record {
  offset = length fresh.idx.bytes;
  key = key;
  datoff = length fresh.dat.bytes;
  text = text;
}

stored-ChainAt : ChainAt stored.idx.bytes stored.dat.bytes (chain_of stored key) (entry ∷ [])
unfolding stored hash
stored-ChainAt = rw (first_store.2.nhash, first_store.2.hashoff) first_store.2.chain

stored-unlocked : stored.locks ≡ []
unfolding stored
stored-unlocked = first_store.2.locks

-- "note", as long as the text before
abbrev new_text : Bytes
new_text = b'n' ∷ b'o' ∷ b't' ∷ b'e' ∷ []

one-Splits : Splits key [] entry []
unfolding lookup
one-Splits = record {
  passed = refl;
  found = same_text_refl key;
  apart_before = tt;
  apart_after = tt;
}

store-Replaced_example :
    Ends (Replaced stored key new_text [] entry []) (store 2 stored key new_text db_replace)
unfolding is_flag is_insert
store-Replaced_example =
    store-Replaced stored key new_text [] entry [] one-Splits refl
      (ground arith, (ground arith, (ground arith, (ground arith, tt)))) stored-unlocked
      stored-ChainAt 2 db_replace (omega arith) (omega arith) (omega arith) refl refl

free_pointer : Holds fresh.idx.bytes 0 (padded ptr_sz fresh-IsSetUp.free_list.first)
free_pointer = fresh-IsSetUp.free_list.pointer

-- with a data record of 5 bytes at offset 12
abbrev placed : Db
placed = record fresh { datoff = 12; datlen = 5 }

placed-IsReadable : IsReadable 40 key 12 5
unfolding index_text decimal
placed-IsReadable = record {
  plain = (ground arith, ground arith, (ground arith, ground arith, tt));
  next_fits = omega arith;
  long_enough = omega arith;
  short_enough = omega arith;
  data_pos = omega arith;
  data_fits = omega arith;
}

readidx-writeidx_example :
    Ends
      (λ db'. readidx db' (pos 967) ≡ ok (pos 40, loaded db' 967 40 key 12 5))
      (writeidx placed key 967 from_start (pos 40))
readidx-writeidx_example = readidx-writeidx placed key 967 40 (ground arith) placed-IsReadable
