-- ===== src/Sorting/Merge/Pieces.antt =====
-- The pieces of an array that a merge sort works on.
use mathlib.Core.List.{append_assoc}
use code_learning.Base.{
  ℕ, zero, suc, ◌+◌, ◌-◌, ◌/◌, ◌≤◌, ◌<◌, ◌≡◌, refl, ap, ◌∙◌, arith, List, [], ◌∷◌, ◌++◌, true, ltb,
  length, length-append, SameCounts, count, count-append,
}
use code_learning.Sorting.Merge.Lists.{IsAscending}

-- a list in two pieces, the first of length `n`
pub record Split (xs : List ℕ) (n : ℕ) : Type 0 where
  pub left : List ℕ
  pub right : List ℕ
  pub whole : xs ≡ left ++ right
  pub size : length left ≡ n

pub split : (xs : List ℕ) (n : ℕ) → n ≤ length xs → Split xs n
split xs zero le = record { left = []; right = xs; whole = refl; size = refl }
split [] (suc n) le = absurd (omega arith)
split (x ∷ xs) (suc n) le =
    let r = split xs n (omega arith) in
    record {
      left = x ∷ r.left;
      right = r.right;
      whole = ap (λ l. x ∷ l) r.whole;
      size = ap suc r.size;
    }

-- a stretch of an array cut in two, as a merge sort cuts it
pub record Halves (pre s post : List ℕ) (b e : ℕ) : Type 0 where
  pub left : List ℕ
  pub right : List ℕ
  pub whole : s ≡ left ++ right
  pub array : pre ++ (s ++ post) ≡ pre ++ (left ++ (right ++ post))
  pub size : length s ≡ length left + length right
  pub middle : (b + e) / 2 ≡ b + length left
  pub left_shorter : length left < length s
  pub right_shorter : length right < length s

pub halve :
    (pre s post : List ℕ) (b e : ℕ)
    → ltb (b + 1) e ≡ true
    → e ≡ b + length s
    → Halves pre s post b e
halve pre s post b e big ee =
    let cut = split s ((b + e) / 2 - b) (ground arith) in
    let size : length s ≡ length cut.left + length cut.right =
      ap length cut.whole ∙ length-append cut.left cut.right in
    record {
      left = cut.left;
      right = cut.right;
      whole = cut.whole;
      array =
          ap (λ x. pre ++ (x ++ post)) cut.whole
          ∙ ap (λ x. pre ++ x) (append_assoc cut.left cut.right post);
      size = size;
      middle = ground (arith, cut.size);
      left_shorter = ground (arith, cut.size);
      right_shorter = ground (arith, cut.size, size);
    }

-- `b` is `a` with the entries `s` behind `pre` sorted, and `t` as long as before
pub record Sorted (pre s post : List ℕ) (size : ℕ) (r : List ℕ × List ℕ) : Type 0 where
  pub entries : List ℕ
  pub array : r.0 ≡ pre ++ (entries ++ post)
  pub ascending : IsAscending entries
  pub counts : SameCounts entries s
  pub length_same : length entries ≡ length s
  pub tmp_size : length r.1 ≡ size

pub Sorted-of_Halves :
    (s l r l' r' : List ℕ) {pre post : List ℕ} {size size' : ℕ} {res : List ℕ × List ℕ}
    → s ≡ l ++ r
    → SameCounts l' l
    → SameCounts r' r
    → length l' ≡ length l
    → length r' ≡ length r
    → size' ≡ size
    → Sorted pre (l' ++ r') post size' res
    → Sorted pre s post size res
Sorted-of_Halves s l r l' r' whole cl cr ll lr es f = record {
  entries = f.entries;
  array = f.array;
  ascending = f.ascending;
  counts = λ v.
      omega (
        arith,
        f.counts v,
        count-append v l' r',
        cl v,
        cr v,
        count-append v l r,
        ap (count v) whole,
      );
  length_same =
      omega (arith, f.length_same, length-append l' r', length-append l r, ap length whole);
  tmp_size = f.tmp_size ∙ es;
}

pub short-IsAscending : (s : List ℕ) → length s ≤ 1 → IsAscending s
short-IsAscending [] le = tt
short-IsAscending (x ∷ []) le = (tt, tt)
short-IsAscending (x ∷ y ∷ s) le = absurd (omega arith)
