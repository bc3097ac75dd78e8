-- ===== src/HashSep/Keys.antt =====
-- The table against the set of its keys.
use code_learning.Base.{
  ℕ, ◌≡◌, ◌≢◌, sym, arith, Bool, true, false, List, [], ◌∷◌, ◌==◌, Bool-cases, inl, inr,
  if◌then◌else◌, ok, Yields, Yields-weaken,
}
use code_learning.HashSep.{HashTbl, Externals, find, insert}
use code_learning.HashSep.Insert.{IsValid, StartsWith, Inserted, insert-finds}

unfoldable pub contains : ℕ → List ℕ → Bool
contains k [] = false
contains k (x ∷ keys) = if x == k then true else contains k keys

-- the lookups find the keys and nothing else
pub record Holds (external : Externals) (keys : List ℕ) (h : HashTbl) : Type 0 where
  pub valid : IsValid h
  pub present : (k : ℕ) → contains k keys ≡ true → Yields (StartsWith k) (find external h k)
  pub absent : (k : ℕ) → contains k keys ≡ false → find external h k ≡ ok []

module _ (external : Externals) where
  other : {key k : ℕ} → (key == k) ≡ false → k ≢ key
  other ne = ground arith

  same_key : {key k : ℕ} → (key == k) ≡ true → key ≡ k
  same_key e = ground arith

  inserted :
      (keys : List ℕ) (key : ℕ) (h h' : HashTbl)
      → Holds external keys h
      → Inserted external key h h'
      → Holds external (key ∷ keys) h'
  unfolding contains
  inserted keys key h h' holds i = record {
    valid = i.valid;
    present = λ k. elim (Bool-cases (key == k)) [
      | inl e ↦ λ c. rw (sym (same_key e)) i.found
      | inr ne ↦ λ c. rw (i.others k (other ne)) (holds.present k (rw ne at c))
    ];
    absent = λ k. elim (Bool-cases (key == k)) [
      | inl e ↦ λ c. cc (rw e at c)
      | inr ne ↦ λ c. rw (i.others k (other ne)) (holds.absent k (rw ne at c))
    ];
  }

  -- `insert` in a table that holds `keys`, with memory for a cell, ends without a fault in a table
  -- that holds `keys` and the new key: each of them is found, and no other.
  pub insert-Holds :
      (keys : List ℕ) (h : HashTbl) (key : ℕ)
      → Holds external keys h
      → Yields (Holds external (key ∷ keys)) (insert external true h key)
  insert-Holds keys h key holds =
      Yields-weaken (insert-finds external h key holds.valid) λ h' i. inserted keys key h h' holds i
