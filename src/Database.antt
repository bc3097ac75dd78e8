-- ===== src/Database.antt =====
-- apue/20db/db.c: a database of an index file and a data file. The state is `DB` with the two
-- files in it; each function returns the state with its result. A file is its bytes and the offset
-- of its descriptor; `lseek`, `read` and `write` do on these what the system does for a regular file
-- with no error of the device. A text is the list of its bytes up to the terminating zero, so
-- `idxbuf` and `datbuf` are what the code reads of them as strings. `char` values are below 128.
-- One process uses the files: a record lock is granted at once, and the held locks are kept in a
-- list. The `sprintf` in `_db_dodelete` whose source is `idxbuf` too is read as one that first
-- copies its source.
pub mod Append
pub mod Room
pub mod Bytes
pub mod Chains
pub mod Decimal
pub mod Fetch
pub mod Files
pub mod Store
pub mod Text
pub mod Writes
pub mod Reads
pub mod IndexText
pub mod Open
pub mod Records
pub mod Replace
pub mod Results
pub mod Operations
pub mod Scan
use code_learning.Base.{ℕ, ◌+◌, ◌%◌, ◌^◌, List, [], ◌∷◌, Bool}
use code_learning.Base.Int.{ℤ, pos}

-- how a call ends: with a value, through `err_dump` or `err_sys`, through `err_quit`, with an
-- access outside a buffer, or at the end of the model's fuel
pub data Outcome {ℓ} (A : Type ℓ) : Type ℓ where
  ok : A → Outcome A
  dumped : Outcome A
  quit : Outcome A
  fault : Outcome A
  out_of_fuel : Outcome A

infixl 5 ◌>>=◌
abbrev pub ◌>>=◌ {ℓ κ} : {A : Type ℓ} {B : Type κ} → Outcome A → (A → Outcome B) → Outcome B
ok a >>= f = f a
dumped >>= f = dumped
quit >>= f = quit
fault >>= f = fault
out_of_fuel >>= f = out_of_fuel

abbrev pub Bytes : Type 0
Bytes = List ℕ

pub record File : Type 0 where
  pub bytes : Bytes
  pub offset : ℕ

pub data Descriptor : Type 0 where
  index_file : Descriptor
  data_file : Descriptor

-- a locked region, to the end of the file where `len` is 0
pub record Lock : Type 0 where
  pub of : Descriptor
  pub exclusive : Bool
  pub start : ℕ
  pub len : ℕ

pub data Errno : Type 0 where
  unset : Errno
  einval : Errno
  enoent : Errno

pub record Counts : Type 0 where
  pub delok : ℕ
  pub delerr : ℕ
  pub fetchok : ℕ
  pub fetcherr : ℕ
  pub nextrec : ℕ
  pub stor1 : ℕ
  pub stor2 : ℕ
  pub stor3 : ℕ
  pub stor4 : ℕ
  pub storerr : ℕ

pub record Db : Type 0 where
  pub idx : File
  pub dat : File
  pub idxbuf : Bytes
  pub datbuf : Bytes
  pub name : Bytes
  pub idxoff : ℕ
  pub idxlen : ℕ
  pub datoff : ℕ
  pub datlen : ℕ
  pub ptrval : ℤ
  pub ptroff : ℤ
  pub chainoff : ℕ
  pub hashoff : ℕ
  pub nhash : ℕ
  pub cnt : Counts
  pub locks : List Lock
  pub errno : Errno

abbrev pub idxlen_sz : ℕ
idxlen_sz = 4

abbrev pub ptr_sz : ℕ
ptr_sz = 7

abbrev pub ptr_max : ℕ
ptr_max = 999999

abbrev pub nhash_def : ℕ
nhash_def = 137

abbrev pub free_off : ℕ
free_off = 0

abbrev pub hash_off : ℕ
hash_off = 7

abbrev pub idxlen_min : ℕ
idxlen_min = 6

abbrev pub idxlen_max : ℕ
idxlen_max = 1024

abbrev pub datlen_min : ℕ
datlen_min = 2

abbrev pub datlen_max : ℕ
datlen_max = 1024

abbrev pub sep : ℕ
sep = b':'

abbrev pub space : ℕ
space = b' '

abbrev pub newline : ℕ
newline = b'\n'

-- the next value of a counter, an `unsigned long`
unfoldable pub bump : ℕ → ℕ
bump n = (n + 1) % 2 ^ 64
