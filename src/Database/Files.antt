-- ===== src/Database/Files.antt =====
-- The system's operations on a file.
use code_learning.Base.{
  ℕ, zero, suc, ◌+◌, List, [], ◌∷◌, ◌++◌, length, Bool, true, false, ◌&&◌, ◌==◌, if◌then◌else◌,
}
use code_learning.Base.Int.{ℤ, pos, negsuc}
use code_learning.Database.{
  Outcome, ok, dumped, Bytes, File, Descriptor, index_file, data_file, Lock,
}

abbrev pub take {ℓ} : {A : Type ℓ} → ℕ → List A → List A
take zero xs = []
take (suc n) [] = []
take (suc n) (x ∷ xs) = x ∷ take n xs

abbrev pub drop {ℓ} : {A : Type ℓ} → ℕ → List A → List A
drop zero xs = xs
drop (suc n) [] = []
drop (suc n) (x ∷ xs) = drop n xs

-- the bytes with `s` written at an offset; a hole before it is filled with zeros
unfoldable pub overwrite : Bytes → (offset : ℕ) → (s : Bytes) → Bytes
overwrite bs zero s = s ++ drop (length s) bs
overwrite [] (suc n) s = 0 ∷ overwrite [] n s
overwrite (b ∷ bs) (suc n) s = b ∷ overwrite bs n s

-- lseek(fd, offset, SEEK_SET), which fails below 0
unfoldable pub seek_set : File → ℤ → Outcome File
seek_set f (pos n) = ok (record f { offset = n })
seek_set f (negsuc n) = dumped

-- lseek(fd, 0, SEEK_END)
unfoldable pub seek_end : File → File
seek_end f = record f { offset = length f.bytes }

-- read(fd, buf, n): what is there, up to `n` bytes
unfoldable pub read_bytes : File → ℕ → Bytes × File
read_bytes f n =
    let got = take n (drop f.offset f.bytes) in (got, record f { offset = f.offset + length got })

-- write(fd, s, strlen(s))
unfoldable pub write_bytes : File → Bytes → File
unfolding overwrite
write_bytes f s = record { bytes = overwrite f.bytes f.offset s; offset = f.offset + length s }

unfoldable pub same_file : Descriptor → Descriptor → Bool
same_file index_file index_file = true
same_file index_file data_file = false
same_file data_file index_file = false
same_file data_file data_file = true

-- un_lock on a region
unfoldable pub unlocked : (of : Descriptor) (start len : ℕ) → List Lock → List Lock
unfolding same_file
unlocked of start len [] = []
unlocked of start len (l ∷ locks) =
    let rest = unlocked of start len locks in
    if same_file of l.of && (start == l.start && len == l.len) then rest else l ∷ rest
