-- ===== src/Database/Replace.antt =====
-- `db_store` of a text of the same length in the place of the old one.
use mathlib.Core.Path.{subst}
use code_learning.Base.{
  ℕ, ◌+◌, ◌≤◌, ◌<◌, ◌≡◌, ◌⊎◌, inl, inr, refl, sym, ap, ◌∙◌, arith, List, [], ◌∷◌, ◌++◌, length,
  length-append, none, some, Bool, true, false, ltb, ◌==◌, ◌||◌, Bool-cases,
}
use code_learning.Base.Int.{ℤ, pos}
use code_learning.Database.{◌>>=◌, Bytes, Db, newline, index_file, datlen_max, datlen_min, bump}
use code_learning.Database.Bytes.{Holds, Holds-overwrite, Holds-kept}
use code_learning.Database.Chains.{Ends, Entry, Chain, AllData, lookup, Located, Kept}
use code_learning.Database.Decimal.{NoZero}
use code_learning.Database.Fetch.{ChainAt, chain_of, locked_at, find_and_lock-Located, given_back}
use code_learning.Database.Files.{overwrite, write_bytes}
use code_learning.Database.IndexText.{index_record, IsReadable}
use code_learning.Database.Records.{
  seek, lock, un_lock, lock_end, un_lock_end, writedat, from_start,
}
use code_learning.Database.Operations.{store, store_old, store_found, Flag, is_flag, is_insert}
use code_learning.Database.Text.{same_text}

-- the data records have no byte in common
abbrev IsApart : Entry → Entry → Type 0
IsApart e d =
    (d.datoff + (length d.text + 1) ≤ e.datoff) ⊎ (e.datoff + (length e.text + 1) ≤ d.datoff)

abbrev AllApart : Entry → List Entry → Type 0
AllApart e [] = Unit
AllApart e (d ∷ entries) = IsApart e d × AllApart e entries

-- the records of a chain around the first one with the key
pub record Splits (key : Bytes) (before : List Entry) (e : Entry) (after : List Entry)
    : Type 0 where
  pub passed : lookup key before ≡ none
  pub found : same_text e.key key ≡ true
  pub apart_before : AllApart e before
  pub apart_after : AllApart e after

lookup-middle :
    (key : Bytes) (before : List Entry) (e : Entry) (after : List Entry)
    → lookup key before ≡ none
    → same_text e.key key ≡ true
    → lookup key (before ++ e ∷ after) ≡ some e
unfolding lookup
lookup-middle key [] e after h found = rw found refl
lookup-middle key (d ∷ before) e after h found = elim (Bool-cases (same_text d.key key)) [
  | inl s ↦ absurd (clash d (rw s at h))
  | inr s ↦ rw s (lookup-middle key before e after (rw s at h) found)
]
  where
    clash : (d : Entry) → some d ≡ none → ⊥
    clash d h = cc

length-line : (s : Bytes) → length (s ++ newline ∷ []) ≡ length s + 1
length-line s = length-append s (newline ∷ [])

-- the index file does not show the text
Chain-text :
    (bs : Bytes) (p : ℕ) (before : List Entry) (e : Entry) (after : List Entry) (text : Bytes)
    → length e.text ≡ length text
    → Chain bs p (before ++ e ∷ after)
    → Chain bs p (before ++ record e { text = text } ∷ after)
Chain-text bs p [] e after text same (at, far, (next, ready, held, rest)) = (
  at,
  far,
  (
    next,
    subst (λ n. IsReadable next e.key e.datoff (n + 1)) same ready,
    subst (λ n. Holds bs p (index_record next e.key e.datoff (n + 1))) same held,
    rest,
  ),
)
Chain-text bs p (d ∷ before) e after text same (at, far, (next, ready, held, rest)) =
    (at, far, (next, ready, held, Chain-text bs next before e after text same rest))

module _ (dat : Bytes) (e : Entry) (text : Bytes) (same : length e.text ≡ length text) where
  abbrev written : Bytes
  written = overwrite dat e.datoff (text ++ newline ∷ [])

  AllData-apart :
      (entries : List Entry) → AllApart e entries → AllData dat entries → AllData written entries
  AllData-apart [] a t = tt
  AllData-apart (d ∷ entries) (apart, a) (plain, held, t) = (
    plain,
    Holds-kept dat e.datoff (text ++ newline ∷ []) d.datoff (d.text ++ newline ∷ [])
        (rw (length-line d.text, length-line text, sym same) apart) held,
    AllData-apart entries a t,
  )

  AllData-text :
      (before after : List Entry)
      → NoZero text
      → AllApart e before
      → AllApart e after
      → AllData dat (before ++ e ∷ after)
      → AllData written (before ++ record e { text = text } ∷ after)
  AllData-text [] after plain a b (plain', held, t) =
      (plain, Holds-overwrite dat e.datoff (text ++ newline ∷ []), AllData-apart after b t)
  AllData-text (d ∷ before) after plain (apart, a) b (plain', held, t) = (
    plain',
    Holds-kept dat e.datoff (text ++ newline ∷ []) d.datoff (d.text ++ newline ∷ [])
        (rw (length-line d.text, length-line text, sym same) apart) held,
    AllData-text before after plain a b t,
  )

-- what is left: the new text in the chain of the key, and every other chain as before
pub record Replaced (db : Db) (key text : Bytes) (before : List Entry) (e : Entry)
    (after : List Entry) (r : ℤ × Db) : Type 0 where
  pub success : r.0 ≡ pos 0
  pub idx_bytes : r.1.idx.bytes ≡ db.idx.bytes
  pub nhash : r.1.nhash ≡ db.nhash
  pub hashoff : r.1.hashoff ≡ db.hashoff
  pub locks : r.1.locks ≡ []
  pub chain :
      ChainAt r.1.idx.bytes r.1.dat.bytes
        (chain_of db key)
        (before ++ record e { text = text } ∷ after)
  pub others :
      (at : ℕ) (es : List Entry)
      → AllApart e es
      → ChainAt db.idx.bytes db.dat.bytes at es
      → ChainAt r.1.idx.bytes r.1.dat.bytes at es

module _ (db : Db) (key text : Bytes) (before : List Entry) (e : Entry) (after : List Entry)
    (split : Splits key before e after) (same : length e.text ≡ length text) (plain : NoZero text)
    (free : db.locks ≡ [])
    (c : ChainAt db.idx.bytes db.dat.bytes (chain_of db key) (before ++ e ∷ after)) where
  store_found-Replaced :
      (fuel : ℕ) (flag : Flag) (found : Bool) (db₁ : Db)
      → is_insert flag ≡ false
      → found ≡ true
      → db₁.datoff ≡ e.datoff
      → db₁.datlen ≡ length e.text + 1
      → Kept (locked_at db key true) db₁
      → Ends (Replaced db key text before e after) (store_found fuel found db₁ key text flag)
  unfolding store_found store_old lock un_lock writedat lock_end un_lock_end seek write_bytes
  store_found-Replaced fuel flag found db₁ not_insert is off len k =
      let in_place = writedat db₁ text db₁.datoff from_start in
      (
        (
          pos 0,
          un_lock index_file in_place.chainoff 1
              (record in_place { cnt = record (in_place.cnt) { stor4 = bump in_place.cnt.stor4 } }),
        ),
        rw (is, not_insert, fits (length text) (len ∙ ap (λ n. n + 1) same), ◌>>=◌) refl,
        record {
          success = refl;
          idx_bytes = k.idx_bytes;
          nhash = k.nhash;
          hashoff = k.hashoff;
          locks = given_back db db₁ key true free k ∙ free;
          chain =
              rw (k.idx_bytes, k.dat_bytes, off)
                (record {
                  first = c.first;
                  fits = c.fits;
                  pointer = c.pointer;
                  chain = Chain-text db.idx.bytes c.first before e after text same c.chain;
                  texts =
                      AllData-text db.dat.bytes e text same before after plain split.apart_before
                        split.apart_after c.texts;
                });
          others = λ at es apart h.
              rw (k.idx_bytes, k.dat_bytes, off)
                (record {
                  first = h.first;
                  fits = h.fits;
                  pointer = h.pointer;
                  chain = h.chain;
                  texts = AllData-apart db.dat.bytes e text same es apart h.texts;
                });
        },
      )
    where
      fits : (n : ℕ) {m : ℕ} → m ≡ n + 1 → (n + 1 == m) ≡ true
      fits n e = ground arith

  -- `db_store` with `DB_REPLACE` or `DB_STORE` of a key that its chain has with a text of the same
  -- length ends with 0, where no lock is held before, the text has no zero and an allowed length, the
  -- other data records of the chain have no byte in common with the one that is written, and the
  -- fuel exceeds the number of records. The first record with the key then has the new text, the
  -- others are as before, and so is each other chain whose data records have no byte in common with
  -- it. The index file is untouched, and no lock is held.
  pub store-Replaced :
      (fuel : ℕ) (flag : Flag)
      → length (before ++ e ∷ after) < fuel
      → datlen_min ≤ length text + 1
      → length text + 1 ≤ datlen_max
      → is_flag flag ≡ true
      → is_insert flag ≡ false
      → Ends (Replaced db key text before e after) (store fuel db key text flag)
  unfolding store
  store-Replaced fuel flag lt long short is not_insert =
      let (r, e', (l, k)) = find_and_lock-Located fuel db key true (before ++ e ∷ after) lt c in
      let (found, off, len) =
        subst (λ o. Located o r) (lookup-middle key before e after split.passed split.found) l in
      rw (is, in_bounds (length text) long short, e', ◌>>=◌)
        (store_found-Replaced fuel flag r.0 r.1 not_insert found off len k)
    where
      in_bounds :
          (len : ℕ)
          → datlen_min ≤ len + 1
          → len + 1 ≤ datlen_max
          → (ltb (len + 1) datlen_min || ltb datlen_max (len + 1)) ≡ false
      in_bounds len a b = ground arith
