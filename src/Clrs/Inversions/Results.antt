-- ===== src/Clrs/Inversions/Results.antt =====
-- What the counting merge sort leaves in the array and in `*num`.
use mathlib.Core.List.{append_assoc}
use code_learning.Base.{
  ℕ, zero, suc, ◌+◌, ◌-◌, ◌/◌, ◌^◌, ◌≤◌, ◌<◌, ◌≡◌, refl, sym, ap, ◌∙◌, arith, List, [], ◌∷◌, ◌++◌,
  ltb, leb, some, length, length-append, Run, ok, fault, out_of_fuel, ◌>>=◌, Bool-cases, inl, inr,
  Yields, yields, Yields-bind,
}
use code_learning.Sorting.{Sorts}
use code_learning.Sorting.Merge.{merge_loop, copy}
use code_learning.Sorting.Merge.Arrays.{Reads, Reads-halves}
use code_learning.Sorting.Merge.Lists.{IsOrder}
use code_learning.Sorting.Merge.Laws.{merge-Halves}
use code_learning.Sorting.Merge.Pieces.{Sorted, Halves, halve, short-IsAscending}
use code_learning.Sorting.Merge.Results.{Sorts-of_Sorted}
use code_learning.Clrs.Inversions.{merge, inversions, inverse_pairs}
use code_learning.Clrs.Inversions.Counts.{
  smaller-nil, inversion_count, inversion_count-append, across, across-same, passed, passed-across,
}
use code_learning.Clrs.Inversions.Loop.{count_loop-eq}
use code_learning.Sorting.Merge

-- what the two merges do with the temporary array
abbrev paired : Run (List ℕ) → List ℕ → Run (List ℕ × List ℕ)
paired r u = r >>= λ sorted. ok (sorted, u)

abbrev counted : Run (List ℕ) → ℕ → Run (List ℕ × ℕ)
counted m n = m >>= λ u. ok (u, n)

abbrev final : Run (List ℕ) → List ℕ → ℕ → Run ((List ℕ × List ℕ) × ℕ)
final r u n = r >>= λ sorted. ok ((sorted, u), n)

copied : (r : Run (List ℕ)) (u : List ℕ) (n : ℕ) → final r u n ≡ (paired r u >>= λ p. ok (p, n))
copied (ok x) u n = refl
copied fault u n = refl
copied out_of_fuel u n = refl

array_and_count :
    (m : Run (List ℕ)) (f : List ℕ → Run (List ℕ)) (n : ℕ)
    → (counted m n >>= λ p. final (f (p.0)) (p.0) (p.1))
      ≡ ((m >>= λ u. paired (f u) u) >>= λ p. ok (p, n))
array_and_count (ok u) f n = copied (f u) u n
array_and_count fault f n = refl
array_and_count out_of_fuel f n = refl

-- the merge of the merge sort, and the count beside it
merge-eq_count :
    (a tmparr s t : List ℕ) (num b mid e : ℕ)
    → mid ≡ b + length s
    → e ≡ mid + length t
    → Reads a b s
    → Reads a mid t
    → num + passed s t < 2 ^ 31
    → merge a tmparr num b mid e
      ≡ (Merge.merge leb (λ b. 0) a tmparr b mid e >>= λ r. ok (r, num + passed s t))
unfolding merge Merge.merge
merge-eq_count a tmparr s t num b mid e em ee hs ht lt =
    rw (count_loop-eq a mid e (e - b + 1) s t tmparr num b mid 0 0 em ee (omega arith) hs ht lt) (
      array_and_count (merge_loop leb (λ b. 0) (e - b + 1) a tmparr b mid 0 mid e)
        (λ u. copy (e - b) u a 0 b) (num + passed s t))

order : IsOrder leb
order = record { left_le = λ x y e. ground arith; right_le = λ x y e. ground arith }

-- the stretch `s` is sorted, and its inversions are added to `num`
record Counted (pre s post : List ℕ) (size num : ℕ) (r : (List ℕ × List ℕ) × ℕ) : Type 0 where
  sorted : Sorted pre s post size (r.0)
  total : r.1 ≡ num + inversion_count s

inversion_count-short : (s : List ℕ) → length s ≤ 1 → inversion_count s ≡ 0
unfolding inversion_count
inversion_count-short [] le = refl
inversion_count-short (x ∷ []) le = omega (arith, smaller-nil x)
inversion_count-short (x ∷ y ∷ s) le = absurd (omega arith)

merge-Counted :
    (pre s post tmparr : List ℕ) (num b e : ℕ)
    → b ≡ length pre
    → e ≡ b + length s
    → e ≤ length tmparr
    → (h : Halves pre s post b e) → num + inversion_count s < 2 ^ 31
    → {m n : (List ℕ × List ℕ) × ℕ} (f : Counted pre h.left (h.right ++ post) (length tmparr) num m)
    → (g : Counted (pre ++ f.sorted.entries) h.right post (length m.0.1) (m.1) n)
    → Yields (Counted pre s post (length tmparr) num) (
        merge
          (pre ++ (f.sorted.entries ++ (g.sorted.entries ++ post)))
          (n.0.1)
          (n.1)
          b
          ((b + e) / 2)
          e)
merge-Counted pre s post tmparr num b e eb ee fits h bound {n = n} f g =
    let l = f.sorted.entries in
    let r = g.sorted.entries in
    let em : (b + e) / 2 ≡ b + length l = omega (arith, f.sorted.length_same, h.middle) in
    let ej : e ≡ (b + e) / 2 + length r = omega (arith, g.sorted.length_same, h.middle, h.size) in
    let reads = Reads-halves pre l r post eb em in
    let total : num + inversion_count s ≡ n.1 + passed l r = omega (
      arith,
      ap inversion_count h.whole,
      inversion_count-append h.left h.right,
      f.total,
      g.total,
      passed-across l r f.sorted.ascending g.sorted.ascending,
      across-same l h.left r h.right f.sorted.length_same f.sorted.counts g.sorted.counts,
    ) in
    rw
      (merge-eq_count (pre ++ (l ++ (r ++ post))) (n.0.1) l r (n.1) b ((b + e) / 2) e em ej
        (reads.0) (reads.1) (omega (arith, total)))
      (Yields-bind
        (merge-Halves leb (λ b. 0) order (λ b. omega arith) pre s post tmparr b e eb ee fits h
          f.sorted g.sorted)
        (λ p done. yields (record { sorted = done; total = sym total })))

inversions-Counted :
    (k : ℕ) (pre s post tmparr : List ℕ) (num b e : ℕ)
    → b ≡ length pre
    → e ≡ b + length s
    → length s < k
    → e ≤ length tmparr
    → num + inversion_count s < 2 ^ 31
    → Yields
        (Counted pre s post (length tmparr) num)
        (inversions k (pre ++ (s ++ post)) tmparr num b e)
unfolding inversions
inversions-Counted zero pre s post tmparr num b e eb ee lt fits bound = absurd (omega arith)
inversions-Counted (suc k) pre s post tmparr num b e eb ee lt fits bound =
    elim (Bool-cases (ltb (b + 1) e)) [
      | inr small ↦ rw small (
          yields (record {
            sorted = record {
              entries = s;
              array = refl;
              ascending = short-IsAscending s (ground arith);
              counts = λ v. refl;
              length_same = refl;
              tmp_size = refl;
            };
            total = omega (arith, inversion_count-short s (ground arith));
          }))
      | inl big ↦ rw big (
          let h = halve pre s post b e big ee in
          let sum : inversion_count s
              ≡ inversion_count h.left + inversion_count h.right + across h.left h.right =
            ap inversion_count h.whole ∙ inversion_count-append h.left h.right in
          rw h.array (
            Yields-bind
              (inversions-Counted k pre h.left (h.right ++ post) tmparr num b ((b + e) / 2) eb
                h.middle (omega (arith, h.left_shorter)) (omega (arith, h.middle, h.size))
                (omega (arith, sum)))
              (λ m f.
                rw (f.sorted.array ∙ sym (append_assoc pre f.sorted.entries (h.right ++ post))) (
                  Yields-bind
                    (inversions-Counted k (pre ++ f.sorted.entries) h.right post (m.0.1) (m.1)
                      ((b + e) / 2) e
                      (omega
                        (arith, f.sorted.length_same, length-append pre f.sorted.entries, h.middle))
                      (omega (arith, h.middle, h.size)) (omega (arith, h.right_shorter))
                      (omega (arith, f.sorted.tmp_size)) (omega (arith, f.total, sum)))
                    (λ n g.
                      rw
                        (g.sorted.array
                          ∙ append_assoc pre f.sorted.entries (g.sorted.entries ++ post))
                        (merge-Counted pre s post tmparr num b e eb ee fits h bound f g))))))
    ]

-- Where `malloc` gives the temporary array and the count stays within an `int`, inverse_pairs ends,
-- sorts the entries of `s`, leaves those behind alone, and adds to `*num` the number of pairs of
-- entries of `s` of which the earlier one is the larger.
pub inverse_pairs-counts :
    (raw s post : List ℕ) (num : ℕ)
    → length raw ≡ length s
    → num + inversion_count s < 2 ^ 31
    → Yields
        (λ r. Sorts (length s) (s ++ post) (r.0) × (r.1 ≡ num + inversion_count s))
        (inverse_pairs (some raw) (s ++ post) (length s) num)
unfolding inverse_pairs
inverse_pairs-counts raw s post num size bound =
    Yields-bind
      (inversions-Counted (length s + 1) [] s post raw num 0 (length s) refl (omega arith)
        (omega arith) (omega arith) bound)
      (λ r f. yields (Sorts-of_Sorted (length s) (s ++ post) s post refl refl f.sorted, f.total))
