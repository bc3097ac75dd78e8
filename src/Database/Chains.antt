-- ===== src/Database/Chains.antt =====
-- A hash chain in the index file as the list of its records, and the search along it.
use code_learning.Base.{
  ℕ, zero, suc, ◌+◌, ◌≤◌, ◌<◌, ◌≡◌, ◌≢◌, inl, inr, refl, arith, List, [], ◌∷◌, ◌++◌, length, Option,
  none, some, Bool, true, false, if◌then◌else◌, Bool-cases,
}
use code_learning.Base.Int.{pos, eqb_ℤ}
use code_learning.Database.{Outcome, ok, ◌>>=◌, Bytes, Db, newline}
use code_learning.Database.Bytes.{Holds}
use code_learning.Database.Decimal.{NoZero}
use code_learning.Database.Reads.{readidx-Holds}
use code_learning.Database.IndexText.{index_record, IsReadable, loaded}
use code_learning.Database.Text.{same_text}
use code_learning.Database.Operations.{find_from}

-- a run ends with a value, and `P` holds of it
abbrev pub Ends {ℓ κ} : {A : Type ℓ} → (A → Type κ) → Outcome A → Type (ℓ ⊔ κ)
Ends P o = (a : _) × (o ≡ ok a) × P a

pub record Entry : Type 0 where
  pub offset : ℕ
  pub key : Bytes
  pub datoff : ℕ
  pub text : Bytes

-- the records start behind the pointers and their newline
abbrev pub header_end : ℕ
header_end = 967

-- the index records from the one at `p` on, up to the pointer 0
abbrev pub Chain : Bytes → ℕ → List Entry → Type 0
Chain bs p [] = p ≡ 0
Chain bs p (e ∷ entries) =
    (p ≡ e.offset)
    × (header_end ≤ p)
    × ((next : ℕ) × IsReadable next e.key e.datoff (length e.text + 1)
        × Holds bs p (index_record next e.key e.datoff (length e.text + 1))
        × Chain bs next entries)

-- their data records
abbrev pub AllData : Bytes → List Entry → Type 0
AllData bs [] = Unit
AllData bs (e ∷ entries) =
    NoZero e.text × Holds bs e.datoff (e.text ++ newline ∷ []) × AllData bs entries

-- the first record with a key
unfoldable pub lookup : Bytes → List Entry → Option Entry
lookup key [] = none
lookup key (e ∷ entries) = if same_text e.key key then some e else lookup key entries

same_text-eq : (s t : Bytes) → same_text s t ≡ true → s ≡ t
unfolding same_text
same_text-eq [] [] h = refl
same_text-eq [] (d ∷ t) h = cc
same_text-eq (c ∷ s) [] h = cc
same_text-eq (c ∷ s) (d ∷ t) h = ground (arith, same_text-eq s t)

pub same_text_refl : (s : Bytes) → same_text s s ≡ true
unfolding same_text
same_text_refl [] = refl
same_text_refl (c ∷ s) = ground (arith, same_text_refl s)

-- the same files, with the same places for the chain
pub record Kept (db db' : Db) : Type 0 where
  pub idx_bytes : db'.idx.bytes ≡ db.idx.bytes
  pub dat_bytes : db'.dat.bytes ≡ db.dat.bytes
  pub chainoff : db'.chainoff ≡ db.chainoff
  pub hashoff : db'.hashoff ≡ db.hashoff
  pub nhash : db'.nhash ≡ db.nhash
  pub locks : db'.locks ≡ db.locks

pub Kept-refl : (db : Db) → Kept db db
Kept-refl db = record {
  idx_bytes = refl;
  dat_bytes = refl;
  chainoff = refl;
  hashoff = refl;
  nhash = refl;
  locks = refl;
}

-- what the search gives: the record that was read last is the one that was looked for
abbrev pub Located : Option Entry → Bool × Db → Type 0
Located none (found, db) = found ≡ false
Located (some e) (found, db) =
    (found ≡ true) × (db.datoff ≡ e.datoff) × (db.datlen ≡ length e.text + 1)

pub find_from-Located :
    (k : ℕ) (db : Db) (key : Bytes) (p : ℕ) (entries : List Entry)
    → length entries < k
    → Chain db.idx.bytes p entries
    → Ends (λ r. Located (lookup key entries) r × Kept db r.1) (find_from k db key (pos p))
unfolding find_from lookup
find_from-Located zero db key p entries lt c = absurd (omega arith)
find_from-Located (suc k) db key p [] lt c = ((false, db), rw c refl, (refl, Kept-refl db))
find_from-Located (suc k) db key p (e ∷ entries) lt (at, far, (next, ready, held, rest)) =
    let db' = loaded db p next e.key e.datoff (length e.text + 1) in
    rw
      (
        not_zero p far,
        readidx-Holds db p next e.key e.datoff (length e.text + 1) ready held (nonzero p far),
        ◌>>=◌,
      )
      (elim (Bool-cases (same_text e.key key)) [
        | inl s ↦ (
          (true, db'),
          rw s refl,
          (
            rw s (refl, refl, refl),
            record {
              idx_bytes = refl;
              dat_bytes = refl;
              chainoff = refl;
              hashoff = refl;
              nhash = refl;
              locks = refl;
            },
          ),
        )
        | inr s ↦
            (let (r, e', (l, kept)) =
                find_from-Located k (record db' { ptroff = pos p }) key next entries (omega arith)
                  rest in
              (
                r,
                rw s e',
                (
                  rw s l,
                  record {
                    idx_bytes = kept.idx_bytes;
                    dat_bytes = kept.dat_bytes;
                    chainoff = kept.chainoff;
                    hashoff = kept.hashoff;
                    nhash = kept.nhash;
                    locks = kept.locks;
                  },
                ),
              ))
      ])
  where
    nonzero : (p : ℕ) → header_end ≤ p → p ≢ 0
    nonzero p far = ground arith

    not_zero : (p : ℕ) → header_end ≤ p → eqb_ℤ (pos p) (pos 0) ≡ false
    not_zero p far = ground arith
