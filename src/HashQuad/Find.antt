-- ===== src/HashQuad/Find.antt =====
-- `find` against the sequence of its probes.
use native.Mathlib.Nat.{mod-lt, mod-eq_of_lt}
use mathlib.Core.Path.{subst}
use code_learning.Base.{
  ℕ, zero, suc, ◌+◌, ◌*◌, ◌≤◌, ◌<◌, ◌≡◌, ◌∙◌, sym, arith, refl, true, false, Bool, Bool-cases, inl,
  inr, length, read, List, [], ◌∷◌, Yields-split, ok, ◌>>=◌, ◌==◌, Yields, yields, if◌then◌else◌,
}
use code_learning.HashQuad.{HashTbl, HashEntry, Externals, is_empty, probe, find}
use code_learning.HashQuad.Probe.{position, position_next}

-- a cell for every position
pub record IsValid (h : HashTbl) : Type 0 where
  pub positive : 0 < h.tablesize
  pub size : length h.thecells ≡ h.tablesize

-- a cell at which the search for `key` ends
unfoldable pub stops : ℕ → HashEntry → Bool
stops key cell = if is_empty cell.info then true else cell.element == key

-- the cell at a position exists and the search goes past it, or ends there
abbrev pub Passes : HashTbl → ℕ → ℕ → Type 0
Passes h key pos = (c : HashEntry) × (read h.thecells pos ≡ ok c) × (stops key c ≡ false)

abbrev pub Stops : HashTbl → ℕ → ℕ → Type 0
Stops h key pos = (c : HashEntry) × (read h.thecells pos ≡ ok c) × (stops key c ≡ true)

-- `pos` is the first position of the sequence at which the search ends, after `count` others
pub record FirstStop (h : HashTbl) (key start count pos : ℕ) : Type 0 where
  pub at : pos ≡ position start h.tablesize count
  pub stop : Stops h key pos
  pub passed : (i : ℕ) → i < count → Passes h key (position start h.tablesize i)

abbrev pub FoundWithin : HashTbl → (key start n : ℕ) → ℕ → Type 0
FoundWithin h key start n pos = (count : ℕ) × (count ≤ n) × FirstStop h key start count pos

read_within : {A : Type 0} (xs : List A) (i : ℕ) → i < length xs → (a : A) × (read xs i ≡ ok a)
unfolding read
read_within [] i lt = absurd (omega arith)
read_within (x ∷ xs) zero lt = (x, refl)
read_within (x ∷ xs) (suc i) lt = read_within xs i (omega arith)

stops_if :
    {A : Type 0} (key : ℕ) (c : HashEntry) (m r : A)
    → (if is_empty c.info then m else if c.element == key then m else r)
      ≡ (if stops key c then m else r)
unfolding stops
stops_if key c m r = elim (Bool-cases (is_empty c.info)) [ inl e ↦ rw e refl | inr e ↦ rw e refl ]

-- no cell both ends the search and lets it pass
pub not_both : (h : HashTbl) (key pos : ℕ) → Stops h key pos → Passes h key pos → ⊥
not_both h key pos (c, e, s) (d, f, t) = cc

module _ (h : HashTbl) (v : IsValid h) (key start n : ℕ) (room : 2 * n ≤ h.tablesize + 1) where
  there : (i : ℕ) → (c : HashEntry) × (read h.thecells (position start h.tablesize i) ≡ ok c)
  there i =
      read_within h.thecells (position start h.tablesize i)
        (rw v.size (mod-lt (start + i * i) v.positive))

  further :
      (i : ℕ)
      → Passes h key (position start h.tablesize i)
      → i ≤ n
      → Stops h key (position start h.tablesize n)
      → i < n
  further i p le s = elim (Bool-cases (i == n)) [
    | inl e ↦ absurd (not_both h key (position start h.tablesize n) s (rw (sym (same e)) p))
    | inr e ↦ ground arith
  ]
    where
      same : (i == n) ≡ true → i ≡ n
      same e = ground arith

  further_passed :
      (i : ℕ)
      → Passes h key (position start h.tablesize i)
      → ((j : ℕ) → j < i → Passes h key (position start h.tablesize j))
      → (j : ℕ) → j < i + 1
      → Passes h key (position start h.tablesize j)
  further_passed i p passed j lt = elim (Bool-cases (j == i)) [
    | inl e ↦ rw (same e) p
    | inr e ↦ passed j (ground arith)
  ]
    where
      same : (j == i) ≡ true → j ≡ i
      same e = ground arith

  probe-FoundWithin :
      (k i : ℕ)
      → i ≤ n
      → n < i + k
      → Stops h key (position start h.tablesize n)
      → ((j : ℕ) → j < i → Passes h key (position start h.tablesize j))
      → Yields (FoundWithin h key start n) (probe k h key (position start h.tablesize i) i)
  unfolding probe stops
  probe-FoundWithin zero i le enough stop passed = absurd (omega arith)
  probe-FoundWithin (suc k) i le enough stop passed =
      let (c, e) = there i in
      rw (e, ◌>>=◌, stops_if key c)
        (Yields-split (stops key c)
          (λ s. yields (i, le, record { at = refl; stop = (c, e, s); passed = passed }))
          (λ s.
            (let lt = further i (c, e, s) le stop in
              rw (position_next start h.tablesize i v.positive (omega (arith, room))) (
                probe-FoundWithin k (i + 1) (omega arith) (omega arith) stop
                  (further_passed i (c, e, s) passed)))))

-- where the search for a key starts
abbrev pub start_of : Externals → HashTbl → ℕ → ℕ
start_of external h key = external.hash key h.tablesize

position-zero : (start n : ℕ) → start < n → position start n 0 ≡ start
position-zero start n lt = mod-eq_of_lt (omega arith) ∙ omega arith

-- In a valid table, if the search can end at the `n`-th position (start + n * n) % tablesize, and
-- 2 * n is at most tablesize + 1, `find` with more than `n` rounds of fuel ends without a fault, at
-- the first position of this sequence whose cell is empty or has the key's element.
pub find-FoundWithin :
    (external : Externals) (h : HashTbl) (key n k : ℕ)
    → IsValid h
    → 2 * n ≤ h.tablesize + 1
    → n < k
    → Stops h key (position (start_of external h key) h.tablesize n)
    → Yields (FoundWithin h key (start_of external h key) n) (find external k h key)
unfolding find
find-FoundWithin external h key n k v room enough stop =
    let start = external.hash key h.tablesize in
    let first = position-zero start h.tablesize (external.hash-lt key h.tablesize v.positive) in
    subst (λ pos. Yields (FoundWithin h key start n) (probe k h key pos 0)) first
      (probe-FoundWithin h v key start n room k 0 (omega arith) (omega arith) stop
        (λ j lt. absurd (omega arith)))
