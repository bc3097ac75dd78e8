-- ===== src/Database/Open.antt =====
-- `db_open`: the handle it gives, and the index file that it sets up.
use mathlib.Core.List.{append-nil}
use code_learning.Base.{
  ℕ, zero, suc, ◌+◌, ◌*◌, ◌<◌, ◌≡◌, refl, arith, [], ◌∷◌, ◌++◌, length, length-append, Option, none,
  some, Bool, true, false, ◌⊎◌, inl, inr, ◌==◌,
}
use code_learning.Database.{Bytes, Db, ptr_sz}
use code_learning.Database.Room.{FreeAt}
use code_learning.Database.Bytes.{Holds, Holds-front, Holds-cons}
use code_learning.Database.Chains.{Ends, header_end}
use code_learning.Database.Fetch.{ChainAt}
use code_learning.Database.Files.{drop, overwrite, unlocked, same_file, write_bytes}
use code_learning.Database.IndexText.{length-ptr}
use code_learning.Database.Records.{lock, un_lock}
use code_learning.Database.Text.{padded}
use code_learning.Database.Scan.{pointers, set_up, alloc, rewind, open_files}

Holds-behind : (s bs : Bytes) (p : ℕ) (t : Bytes) → Holds bs p t → Holds (s ++ bs) (length s + p) t
Holds-behind [] bs p t h = rw (shift p) h
  where
    shift : (p : ℕ) → 0 + p ≡ p
    shift p = omega arith
Holds-behind (c ∷ s) bs p t h =
    rw (shift (length s) p) (Holds-cons c (s ++ bs) (length s + p) t (Holds-behind s bs p t h))
  where
    shift : (n p : ℕ) → suc n + p ≡ suc (n + p)
    shift n p = omega arith

-- each pointer is 0
pointers-Holds : (n i : ℕ) → i < n → Holds (pointers n) (i * ptr_sz) (padded ptr_sz 0)
unfolding pointers
pointers-Holds zero i lt = absurd (omega arith)
pointers-Holds (suc n) zero lt = Holds-front (padded ptr_sz 0) (pointers n)
pointers-Holds (suc n) (suc i) lt = rw (next_place i) (
    Holds-behind (padded ptr_sz 0) (pointers n) (i * ptr_sz) (padded ptr_sz 0)
      (pointers-Holds n i (omega arith)))
  where
    next_place : (i : ℕ) → suc i * ptr_sz ≡ length (padded ptr_sz 0) + i * ptr_sz
    next_place i = omega (arith, length-ptr 0 (omega arith))

length-pointers : (n : ℕ) → length (pointers n) ≡ n * ptr_sz + 1
unfolding pointers
length-pointers zero = refl
length-pointers (suc n) = omega (
  arith,
  length-append (padded ptr_sz 0) (pointers n),
  length-ptr 0 (omega arith),
  length-pointers n,
)

drop-nil : (n : ℕ) → drop {A = ℕ} n [] ≡ []
drop-nil zero = refl
drop-nil (suc n) = refl

-- the file that is written
written : (s : Bytes) → s ++ drop (length s) [] ≡ s
written s = rw (drop-nil (length s)) (append-nil s)

place : (h : ℕ) → h * ptr_sz + 7 ≡ suc h * ptr_sz
place h = omega arith

-- the pointers of an empty database: every chain and the free list are empty
pub record IsSetUp (db : Db) : Type 0 where
  pub free_list : FreeAt db.idx.bytes []
  pub chains :
      (h : ℕ) → h < db.nhash → ChainAt db.idx.bytes db.dat.bytes (h * ptr_sz + db.hashoff) []
  pub size : length db.idx.bytes ≡ header_end

-- A new handle: no lock is held, the first record is the next one that is read, and the data are as
-- they were. The index file has the pointers if it was empty and is to be set up, and is as it was
-- otherwise.
pub record IsOpened (idx dat : Bytes) (created : Bool) (db : Db) : Type 0 where
  pub nhash : db.nhash ≡ 137
  pub hashoff : db.hashoff ≡ 7
  pub locks : db.locks ≡ []
  pub next_record : db.idx.offset ≡ header_end
  pub dat_bytes : db.dat.bytes ≡ dat
  pub set_up_now : created ≡ true → idx ≡ [] → IsSetUp db
  pub kept : (created ≡ false) ⊎ (0 < length idx) → db.idx.bytes ≡ idx

-- `NULL` where one of the files cannot be opened
abbrev pub Opened : (idx dat : Option Bytes) (created : Bool) → Option Db → Type 0
Opened none dat created o = o ≡ none
Opened (some idx) none created o = o ≡ none
Opened (some idx) (some dat) created none = ⊥
Opened (some idx) (some dat) created (some db) = IsOpened idx dat created db

pub open_files-Opened :
    (pathname : Bytes) (idx dat : Option Bytes) (created : Bool)
    → Ends (Opened idx dat created) (open_files true pathname idx dat created)
unfolding open_files alloc set_up lock un_lock unlocked same_file rewind write_bytes overwrite
open_files-Opened pathname none dat created = (none, refl, refl)
open_files-Opened pathname (some idx) none created = (none, refl, refl)
open_files-Opened pathname (some idx) (some dat) false = (
  _,
  refl,
  record {
    nhash = refl;
    hashoff = refl;
    locks = refl;
    next_record = refl;
    dat_bytes = refl;
    set_up_now = λ c e. cc;
    kept = λ h. refl;
  },
)
open_files-Opened pathname (some []) (some dat) true = (
  _,
  refl,
  record {
    nhash = refl;
    hashoff = refl;
    locks = refl;
    next_record = refl;
    dat_bytes = refl;
    set_up_now = λ c e. record {
      free_list = rw (written (pointers 138)) (record {
        first = 0;
        fits = omega arith;
        pointer = pointers-Holds 138 0 (omega arith);
        chain = refl;
      });
      chains = λ h lt.
          rw (written (pointers 138), place h)
            (record {
              first = 0;
              fits = omega arith;
              pointer = pointers-Holds 138 (suc h) (omega arith);
              chain = refl;
              texts = tt;
            });
      size = rw (written (pointers 138)) (length-pointers 138);
    };
    kept = λ h. elim h [ inl e ↦ cc | inr lt ↦ absurd (omega arith) ];
  },
)
open_files-Opened pathname (some (c ∷ bs)) (some dat) true = rw (filled (length bs)) (
  _,
  refl,
  record {
    nhash = refl;
    hashoff = refl;
    locks = refl;
    next_record = refl;
    dat_bytes = refl;
    set_up_now = λ c e. cc;
    kept = λ h. refl;
  },
)
  where
    filled : (n : ℕ) → (suc n == 0) ≡ false
    filled n = ground arith
