-- ===== src/HashSep/Insert.antt =====
-- The table against lookups.
use code_learning.Base.{
  ℕ, ◌<◌, ◌≡◌, ◌≢◌, refl, ap, sym, ◌∙◌, arith, true, List, [], ◌∷◌, ◌==◌, Bool-cases, inl, inr,
  if◌then◌else◌, some, ok, ◌>>=◌, read, read-set, write-ok, set, length, length-set, length_of_read,
  Yields, yields,
}
use code_learning.HashSep.{HashTbl, Externals, cells, walk, find, push_cell, insert}

-- a table with a header at every index
pub record IsValid (h : HashTbl) : Type 0 where
  pub positive : 0 < h.tablesize
  pub size : length h.thelists ≡ h.tablesize
  pub chain : (i : ℕ) → i < h.tablesize → (c : List ℕ) × (read h.thelists i ≡ ok (some c))

-- what `find` returns: the cells from the key on, or none
abbrev pub StartsWith : ℕ → List ℕ → Type 0
StartsWith key [] = ⊥
StartsWith key (x ∷ p) = x ≡ key

walk_front : (p : List ℕ) (key : ℕ) {x : ℕ} {q : List ℕ} → walk p key ≡ x ∷ q → x ≡ key
unfolding walk
walk_front [] key h = cc
walk_front (y ∷ p) key h = elim (Bool-cases (y == key)) [
  | inl e ↦ ground (arith, rw e at h)
  | inr ne ↦ walk_front p key (rw ne at h)
]

-- after the insertion `key` is found, and every other key leads to the cells that it led to before
pub record Inserted (external : Externals) (key : ℕ) (h h' : HashTbl) : Type 0 where
  pub valid : IsValid h'
  pub tablesize : h'.tablesize ≡ h.tablesize
  pub found : Yields (StartsWith key) (find external h' key)
  pub others : (k : ℕ) → k ≢ key → find external h' k ≡ find external h k

at_front : (key : ℕ) (c : List ℕ) → StartsWith key (walk (key ∷ c) key)
unfolding walk
at_front key c = ground arith

-- a chain with the key on it leaves the table as it is
unchanged :
    (external : Externals) (h : HashTbl) (key : ℕ) (p : List ℕ)
    → IsValid h
    → find external h key ≡ ok p
    → StartsWith key p
    → Inserted external key h h
unchanged external h key p v e found = record {
  valid = v;
  tablesize = refl;
  found = rw e (yields found);
  others = λ k ne. refl;
}

module _ (external : Externals) where
  -- a lookup when the chain at the key's index is known
  find-chain :
      (h : HashTbl) (k : ℕ) (c : List ℕ)
      → read h.thelists (external.hash k h.tablesize) ≡ ok (some c)
      → find external h k ≡ ok (walk c k)
  unfolding find cells
  find-chain h k c at = rw (at, ◌>>=◌) refl

  module _ (h : HashTbl) (key : ℕ) (c : List ℕ) (v : IsValid h) where
    pushed : HashTbl
    pushed = record h { thelists = set h.thelists (external.hash key h.tablesize) (some (key ∷ c)) }

    module _ (at : read h.thelists (external.hash key h.tablesize) ≡ ok (some c)) where
      entry :
          (j : ℕ)
          → read pushed.thelists j ≡ (
              if external.hash key h.tablesize == j then ok (some (key ∷ c)) else read h.thelists j)
      unfolding pushed
      entry j =
          read-set h.thelists (external.hash key h.tablesize) j (some (key ∷ c))
            (length_of_read h.thelists (external.hash key h.tablesize) at)

      entry_here : read pushed.thelists (external.hash key h.tablesize) ≡ ok (some (key ∷ c))
      entry_here = ground (arith, entry (external.hash key h.tablesize))

      walk-pushed : (k : ℕ) → k ≢ key → walk (key ∷ c) k ≡ walk c k
      unfolding walk
      walk-pushed k ne = ground arith

      pushed-IsValid : IsValid pushed
      unfolding pushed
      pushed-IsValid = record {
        positive = v.positive;
        size = length-set h.thelists (external.hash key h.tablesize) (some (key ∷ c)) ∙ v.size;
        chain = λ j lt. elim (Bool-cases (external.hash key h.tablesize == j)) [
          | inl e ↦ (key ∷ c, rw (entry j, e) refl)
          | inr e ↦ ((v.chain j lt).0, rw (entry j, e) (v.chain j lt).1)
        ];
      }

      index : {m n : ℕ} → (m == n) ≡ true → m ≡ n
      index e = ground arith

      pushed-others : (k : ℕ) → k ≢ key → find external pushed k ≡ find external h k
      unfolding pushed find cells
      pushed-others k ne =
          elim (Bool-cases (external.hash key h.tablesize == external.hash k h.tablesize)) [
            | inl e ↦
                find-chain pushed k (key ∷ c) (rw (entry (external.hash k h.tablesize), e) refl)
                ∙ ap ok (walk-pushed k ne)
                ∙ sym (find-chain h k c (sym (ap (read h.thelists) (index e)) ∙ at))
            | inr e ↦
                ap (λ m. m >>= λ l. cells l >>= λ p. ok (walk p k))
                  (rw (entry (external.hash k h.tablesize), e) refl)
          ]

      pushed-Inserted : Inserted external key h pushed
      unfolding pushed walk
      pushed-Inserted = record {
        valid = pushed-IsValid;
        tablesize = refl;
        found = rw (find-chain pushed key (key ∷ c) entry_here) (yields (at_front key c));
        others = pushed-others;
      }

  push_cell-Inserted :
      (h : HashTbl) (key : ℕ)
      → IsValid h
      → Yields (Inserted external key h) (push_cell external true h key)
  unfolding push_cell cells pushed
  push_cell-Inserted h key v =
      let i = external.hash key h.tablesize in
      let (c, at) = v.chain i (external.hash-lt key h.tablesize v.positive) in
      let inside = length_of_read h.thelists i at in
      rw (at, ◌>>=◌, write-ok h.thelists i (some (key ∷ c)) inside)
        (yields (pushed-Inserted h key c v at))

  -- `insert` in a valid table, with memory for a cell, ends without a fault; the key is found
  -- afterwards and no other lookup changes.
  pub insert-finds :
      (h : HashTbl) (key : ℕ)
      → IsValid h
      → Yields (Inserted external key h) (insert external true h key)
  unfolding insert
  insert-finds h key v =
      let (c, at) =
        v.chain (external.hash key h.tablesize) (external.hash-lt key h.tablesize v.positive) in
      rw (find-chain h key c at, ◌>>=◌)
        (elim (walk c key)
            as (λ p.
              walk c key ≡ p
              → Yields (Inserted external key h)
                  (elim p [ [] ↦ push_cell external true h key | _ ∷ _ ↦ ok h ])) [
                    | [] ↦ λ e. push_cell-Inserted h key v
                    | x ∷ p ↦ λ e. yields (
                        unchanged external h key (x ∷ p) v (find-chain h key c at ∙ ap ok e)
                          (walk_front c key e))
                  ]
          refl)
