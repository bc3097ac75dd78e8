-- ===== src/HashQuad/Insert.antt =====
-- `insert` against `find`.
use code_learning.Base.{
  ℕ, ◌+◌, ◌*◌, ◌≤◌, ◌<◌, ◌≡◌, ◌≢◌, ◌∙◌, sym, ap, arith, refl, true, false, Bool-cases, inl, inr,
  length-set, set, read, read-set, length_of_read, write-ok, ok, ◌>>=◌, ◌==◌, Yields, Yields-split,
  yields, if◌then◌else◌, Yields-bind,
}
use code_learning.HashQuad.{
  HashTbl, HashEntry, KindOfEntry, legitimate, empty, deleted, Externals, is_empty, is_legitimate,
  insert,
}
use code_learning.HashQuad.Probe.{position}
use code_learning.HashQuad.Find.{
  IsValid, stops, Stops, Passes, not_both, FirstStop, start_of, find-FoundWithin,
}

-- the search for `key` ends at a legitimate cell with this element, after `count` other cells
pub record Holds (external : Externals) (h : HashTbl) (key count : ℕ) : Type 0 where
  pub filled :
      read h.thecells (position (start_of external h key) h.tablesize count)
      ≡ ok (record { element = key; info = legitimate })
  pub passed : (i : ℕ) → i < count → Passes h key (position (start_of external h key) h.tablesize i)

pub record Entered (external : Externals) (h : HashTbl) (key n : ℕ) (h' : HashTbl) : Type 0 where
  pub valid : IsValid h'
  pub tablesize : h'.tablesize ≡ h.tablesize
  pub found : (count : ℕ) × (count ≤ n) × Holds external h' key count
  pub others : (k count : ℕ) → k ≢ key → Holds external h k count → Holds external h' k count

-- a legitimate cell at which the search ends
legit_cell :
    {key : ℕ} (element : ℕ) (info : KindOfEntry)
    → is_legitimate info ≡ true
    → stops key (record { element = element; info = info }) ≡ true
    → Path HashEntry
        (record { element = element; info = info })
        (record { element = key; info = legitimate })
unfolding is_legitimate stops is_empty
legit_cell e legitimate l s = ap (λ x. record { element = x; info = legitimate }) (ground arith)
legit_cell e empty l s = cc
legit_cell e deleted l s = cc

module _ (external : Externals) (h : HashTbl) (v : IsValid h) (key count pos : ℕ)
    (first : FirstStop h key (start_of external h key) count pos) where
  filled_cell : HashEntry
  filled_cell = record { element = key; info = legitimate }

  stored : HashTbl
  stored = record h { thecells = set h.thecells pos filled_cell }

  entry :
      (j : ℕ) → read stored.thecells j ≡ (if pos == j then ok filled_cell else read h.thecells j)
  unfolding stored
  entry j =
      let (c, e, s) = first.stop in
      read-set h.thecells pos j filled_cell (length_of_read h.thecells pos e)

  same : {i j : ℕ} → (i == j) ≡ true → i ≡ j
  same e = ground arith

  -- a search that passes a cell passes it afterwards, unless it is the new one's own
  Passes-stored : (k j : ℕ) → (pos ≡ j → k ≢ key) → Passes h k j → Passes stored k j
  unfolding stops filled_cell is_empty
  Passes-stored k j ne (c, e, s) = elim (Bool-cases (pos == j)) [
    | inl p ↦ (filled_cell, rw (entry j, p) refl, different (ne (same p)))
    | inr p ↦ (c, rw (entry j, p) e, s)
  ]
    where
      different : k ≢ key → (key == k) ≡ false
      different d = ground arith

  itself : (j : ℕ) → (j == j) ≡ true
  itself j = ground arith

  Holds-key : Holds external stored key count
  unfolding stored filled_cell
  Holds-key = record {
    filled =
        (let j = position (start_of external h key) h.tablesize count in
          rw (sym first.at, entry pos, itself pos) refl);
    passed = λ i lt.
        Passes-stored key (position (start_of external h key) h.tablesize i)
          (λ p. absurd (not_both h key pos first.stop (rw p (first.passed i lt))))
          (first.passed i lt);
  }

  passed_by : (k : ℕ) → k ≢ key → stops key (record { element = k; info = legitimate }) ≡ false
  unfolding stops is_empty
  passed_by k ne = ground arith

  not_here :
      (k j : ℕ)
      → k ≢ key
      → read h.thecells j ≡ ok (record { element = k; info = legitimate })
      → (pos == j) ≡ false
  not_here k j ne e = elim (Bool-cases (pos == j)) [
    | inl p ↦ absurd (not_both h key pos first.stop (_, rw (same p) e, passed_by k ne))
    | inr p ↦ p
  ]

  Holds-stored : (k n : ℕ) → k ≢ key → Holds external h k n → Holds external stored k n
  unfolding stored
  Holds-stored k n ne old = record {
    filled =
        let j = position (start_of external h k) h.tablesize n in
        rw (entry j, not_here k j ne old.filled) old.filled;
    passed = λ i lt.
        Passes-stored k (position (start_of external h k) h.tablesize i) (λ p. ne)
          (old.passed i lt);
  }

  stored-Entered : (n : ℕ) → count ≤ n → Entered external h key n stored
  unfolding stored
  stored-Entered n le = record {
    valid = record { positive = v.positive; size = length-set h.thecells pos filled_cell ∙ v.size };
    tablesize = refl;
    found = (count, le, Holds-key);
    others = λ k m ne old. Holds-stored k m ne old;
  }

  found_cell : (c : HashEntry) → read h.thecells pos ≡ ok c → stops key c ≡ true
  found_cell c e =
      let (d, f, s) = first.stop in
      elim (Bool-cases (stops key c)) [
        | inl t ↦ t
        | inr t ↦ absurd (not_both h key pos first.stop (c, e, t))
      ]

  kept-Entered :
      (n : ℕ)
      → count ≤ n
      → (c : HashEntry) → read h.thecells pos ≡ ok c
      → is_legitimate c.info ≡ true
      → Entered external h key n h
  kept-Entered n le c e l = record {
    valid = v;
    tablesize = refl;
    found = (
      count,
      le,
      record {
        filled = rw (sym first.at, e) (ap ok (legit_cell c.element c.info l (found_cell c e)));
        passed = first.passed;
      },
    );
    others = λ k m ne old. old;
  }

-- In a valid table, if the search for `key` can end at its `n`-th position, where 2 * n is at most
-- tablesize + 1, `insert` with more than `n` rounds of fuel ends without a fault. Afterwards the
-- search for `key` leads to a legitimate cell with `key` after at most `n` others, and every other
-- key in the table is where it was.
pub insert-Entered :
    (external : Externals) (h : HashTbl) (key n k : ℕ)
    → IsValid h
    → 2 * n ≤ h.tablesize + 1
    → n < k
    → Stops h key (position (start_of external h key) h.tablesize n)
    → Yields (Entered external h key n) (insert external k h key)
unfolding insert stored filled_cell
insert-Entered external h key n k v room enough stop =
    Yields-bind (find-FoundWithin external h key n k v room enough stop) λ pos (count, le, first).
      let (c, e, s) = first.stop in
      rw (e, ◌>>=◌)
        (Yields-split (is_legitimate c.info)
          (λ l. yields (kept-Entered external h v key count pos first n le c e l))
          (λ l.
            rw
              (
                write-ok h.thecells pos (record { element = key; info = legitimate })
                    (length_of_read h.thecells pos e),
                ◌>>=◌,
              )
              (yields (stored-Entered external h v key count pos first n le))))
