-- ===== src/Database/Store.antt =====
-- `db_store` of a new key that goes to the end of the files.
use code_learning.Base.{
  ℕ, zero, suc, ◌+◌, ◌≤◌, ◌<◌, ◌≡◌, ◌≢◌, ◌⊎◌, inl, inr, refl, arith, List, [], ◌∷◌, ◌++◌, length,
  false, ◌==◌, ◌&&◌,
}
use code_learning.Base.Int.{ℤ, pos, eqb_ℤ}
use code_learning.Database.{◌>>=◌, Bytes, Db, newline, ptr_sz, ptr_max}
use code_learning.Database.Bytes.{Holds, Holds-overwrite, Holds-kept, length-Holds}
use code_learning.Database.Chains.{Ends, Entry, Chain, AllData, Kept, Kept-refl, header_end}
use code_learning.Database.Decimal.{NoZero}
use code_learning.Database.Fetch.{ChainAt}
use code_learning.Database.Files.{overwrite}
use code_learning.Database.Reads.{readidx-Holds}
use code_learning.Database.IndexText.{index_record, IsReadable, loaded, length-ptr}
use code_learning.Database.Text.{padded}
use code_learning.Database.Operations.{findfree_from}

-- no record on the list has these lengths
abbrev pub NoFit : (keylen datlen : ℕ) → List Entry → Type 0
NoFit keylen datlen [] = Unit
NoFit keylen datlen (e ∷ entries) =
    ((length e.key == keylen && length e.text + 1 == datlen) ≡ false) × NoFit keylen datlen entries

-- the search of the free list finds nothing
pub findfree_from-Kept :
    (k : ℕ) (db : Db) (keylen datlen : ℕ) (saveoffset : ℤ) (p : ℕ) (entries : List Entry)
    → length entries < k
    → Chain db.idx.bytes p entries
    → NoFit keylen datlen entries
    → Ends (λ r. (r.0 ≡ false) × Kept db r.1) (findfree_from k db keylen datlen saveoffset (pos p))
unfolding findfree_from
findfree_from-Kept zero db keylen datlen saveoffset p entries lt c no_fit = absurd (omega arith)
findfree_from-Kept (suc k) db keylen datlen saveoffset p [] lt c no_fit =
    ((false, db), rw c refl, (refl, Kept-refl db))
findfree_from-Kept (suc k) db keylen datlen saveoffset p (e ∷ entries) lt
      (at, far, (next, ready, held, rest)) (differs, no_fit) =
    let (r, e', (l, kept)) =
      findfree_from-Kept k (loaded db p next e.key e.datoff (length e.text + 1)) keylen datlen
        (pos p) next entries (omega arith) rest no_fit in
    (
      r,
      rw
          (
            not_zero p far,
            readidx-Holds db p next e.key e.datoff (length e.text + 1) ready held (nonzero p far),
            ◌>>=◌,
            differs,
          )
          e',
      (
        l,
        record {
          idx_bytes = kept.idx_bytes;
          dat_bytes = kept.dat_bytes;
          chainoff = kept.chainoff;
          hashoff = kept.hashoff;
          nhash = kept.nhash;
          locks = kept.locks;
        },
      ),
    )
  where
    nonzero : (p : ℕ) → header_end ≤ p → p ≢ 0
    nonzero p far = ground arith

    not_zero : (p : ℕ) → header_end ≤ p → eqb_ℤ (pos p) (pos 0) ≡ false
    not_zero p far = ground arith

-- what stands from `low` on in the one file stands in the other
abbrev KeepsFrom : ℕ → Bytes → Bytes → Type 0
KeepsFrom low bs bs' = (p : ℕ) (t : Bytes) → low ≤ p → Holds bs p t → Holds bs' p t

Chain-kept :
    (bs bs' : Bytes) (p : ℕ) (entries : List Entry)
    → KeepsFrom header_end bs bs'
    → Chain bs p entries
    → Chain bs' p entries
Chain-kept bs bs' p [] keeps c = c
Chain-kept bs bs' p (e ∷ entries) keeps (at, far, (next, ready, held, rest)) = (
  at,
  far,
  (
    next,
    ready,
    keeps p (index_record next e.key e.datoff (length e.text + 1)) far held,
    Chain-kept bs bs' next entries keeps rest,
  ),
)

AllData-kept :
    (bs bs' : Bytes) (entries : List Entry)
    → KeepsFrom 0 bs bs'
    → AllData bs entries
    → AllData bs' entries
AllData-kept bs bs' [] keeps d = tt
AllData-kept bs bs' (e ∷ entries) keeps (plain, held, d) = (
  plain,
  keeps e.datoff (e.text ++ newline ∷ []) (omega arith) held,
  AllData-kept bs bs' entries keeps d,
)

-- a write at the end of a file
KeepsFrom-end : (bs s : Bytes) (low : ℕ) → KeepsFrom low bs (overwrite bs (length bs) s)
KeepsFrom-end bs s low p [] le h = tt
KeepsFrom-end bs s low p (c ∷ t) le h =
    Holds-kept bs (length bs) s p (c ∷ t) (inl (length-Holds bs p c t h)) h

-- a write of a pointer in front of the records
KeepsFrom-front :
    (bs s : Bytes) (off : ℕ)
    → off + length s ≤ header_end
    → KeepsFrom header_end bs (overwrite bs off s)
KeepsFrom-front bs s off le p t far h = Holds-kept bs off s p t (inr (omega arith)) h

-- the files after a record was put at their ends and in front of the chain at `c`
abbrev idx_after : (idx : Bytes) (c i next : ℕ) (key : Bytes) (d datlen : ℕ) → Bytes
idx_after idx c i next key d datlen =
    overwrite (overwrite idx i (index_record next key d datlen)) c (padded ptr_sz i)

abbrev dat_after : (dat : Bytes) (d : ℕ) (text : Bytes) → Bytes
dat_after dat d text = overwrite dat d (text ++ newline ∷ [])

module _ (idx dat : Bytes) (c i d next : ℕ) (key text : Bytes) (at_end : i ≡ length idx)
    (data_at_end : d ≡ length dat) (big : header_end ≤ length idx) (small : i ≤ ptr_max)
    (front : c + ptr_sz ≤ header_end) (plain : NoZero text)
    (ready : IsReadable next key d (length text + 1)) where
  abbrev idx' : Bytes
  idx' = idx_after idx c i next key d (length text + 1)

  idx-KeepsFrom : KeepsFrom header_end idx idx'
  idx-KeepsFrom p t far h =
      KeepsFrom-front (overwrite idx i (index_record next key d (length text + 1)))
        (padded ptr_sz i) c (rw (length-ptr i small) front) p t far
        (rw at_end
          (KeepsFrom-end idx (index_record next key d (length text + 1)) header_end p t far h))

  dat-KeepsFrom : KeepsFrom 0 dat (dat_after dat d text)
  dat-KeepsFrom p t far h = rw data_at_end (KeepsFrom-end dat (text ++ newline ∷ []) 0 p t far h)

  new_record : Holds idx' i (index_record next key d (length text + 1))
  new_record =
      KeepsFrom-front (overwrite idx i (index_record next key d (length text + 1)))
        (padded ptr_sz i) c (rw (length-ptr i small) front) i
        (index_record next key d (length text + 1)) (omega arith)
        (Holds-overwrite idx i (index_record next key d (length text + 1)))

  -- the key's chain has the new record in front
  pub ChainAt-new :
      (entries : List Entry)
      → Chain idx next entries
      → AllData dat entries
      → ChainAt idx'
          (dat_after dat d text)
          c
          (record { offset = i; key = key; datoff = d; text = text } ∷ entries)
  ChainAt-new entries chain texts = record {
    first = i;
    fits = small;
    pointer =
        Holds-overwrite (overwrite idx i (index_record next key d (length text + 1))) c
          (padded ptr_sz i);
    chain = (
      refl,
      omega arith,
      (next, ready, new_record, Chain-kept idx idx' next entries idx-KeepsFrom chain),
    );
    texts = (
      plain,
      Holds-overwrite dat d (text ++ newline ∷ []),
      AllData-kept dat (dat_after dat d text) entries dat-KeepsFrom texts,
    );
  }

  -- a pointer elsewhere stays
  pointer-kept :
      (at n : ℕ)
      → n ≤ ptr_max
      → at + ptr_sz ≤ header_end
      → (at + ptr_sz ≤ c) ⊎ (c + ptr_sz ≤ at)
      → Holds idx at (padded ptr_sz n)
      → Holds idx' at (padded ptr_sz n)
  pointer-kept at n le inside apart h =
      Holds-kept (overwrite idx i (index_record next key d (length text + 1))) c (padded ptr_sz i)
        at (padded ptr_sz n) (rw (length-ptr n le, length-ptr i small) apart)
        (Holds-kept idx i (index_record next key d (length text + 1)) at (padded ptr_sz n)
          (inl (rw (length-ptr n le) (omega arith))) h)

  pub ChainAt-other :
      (at : ℕ) (entries : List Entry)
      → at + ptr_sz ≤ header_end
      → (at + ptr_sz ≤ c) ⊎ (c + ptr_sz ≤ at)
      → ChainAt idx dat at entries
      → ChainAt idx' (dat_after dat d text) at entries
  ChainAt-other at entries inside apart h = record {
    first = h.first;
    fits = h.fits;
    pointer = pointer-kept at h.first h.fits inside apart h.pointer;
    chain = Chain-kept idx idx' h.first entries idx-KeepsFrom h.chain;
    texts = AllData-kept dat (dat_after dat d text) entries dat-KeepsFrom h.texts;
  }
