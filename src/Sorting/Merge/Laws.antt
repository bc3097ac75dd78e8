-- ===== src/Sorting/Merge/Laws.antt =====
-- The merge sorts sort.
use mathlib.Core.List.{append_assoc}
use code_learning.Base.{
  ℕ, zero, suc, ◌+◌, ◌-◌, ◌/◌, ◌≤◌, ◌<◌, ◌≡◌, refl, sym, ap, ◌∙◌, arith, List, ◌++◌, Bool, ltb,
  length, length-append, count-append, ok, ◌>>=◌, Bool-cases, inl, inr, Yields, yields, Yields-bind,
  Yields-weaken,
}
use code_learning.Sorting.Merge.{copy, merge_loop, merge, msort}
use code_learning.Sorting.Merge.Pieces.{
  split, Halves, halve, Sorted, Sorted-of_Halves, short-IsAscending,
}
use code_learning.Sorting.Merge.Arrays.{Reads-middle, Reads-halves, copy-eq, merge_loop-eq}
use code_learning.Sorting.Merge.Lists.{
  IsAscending, merge_lists, length-merge_lists, count-merge_lists, IsOrder, IsAscending-merge_lists,
}

module _ (takes_left : ℕ → ℕ → Bool) (base : ℕ → ℕ) (order : IsOrder takes_left)
    (base-le : (b : ℕ) → base b ≤ b) where
  merge-eq :
      (pre s t post tp old tpost : List ℕ) (b mid e : ℕ)
      → b ≡ length pre
      → mid ≡ b + length s
      → e ≡ mid + length t
      → length tp ≡ base b
      → length old ≡ length s + length t
      → merge takes_left base (pre ++ (s ++ (t ++ post))) (tp ++ (old ++ tpost)) b mid e
        ≡ ok (
          pre ++ (merge_lists takes_left s t ++ post),
          tp ++ (merge_lists takes_left s t ++ tpost),
        )
  unfolding merge
  merge-eq pre s t post tp old tpost b mid e eb em ee etp eold =
      let m = merge_lists takes_left s t in
      let a = pre ++ (s ++ (t ++ post)) in
      let reads = Reads-halves pre s t post eb em in
      let loop : merge_loop takes_left base (e - b + 1) a (tp ++ (old ++ tpost)) b mid (length tp)
            mid e
          ≡ ok (tp ++ (m ++ tpost)) =
        merge_loop-eq takes_left base a mid e (e - b + 1) s t tp old tpost b mid em ee (reads.0)
          (reads.1) eold (omega arith) in
      rw (sym etp, loop, ◌>>=◌, back) refl
    where
      m : List ℕ
      m = merge_lists takes_left s t

      a : List ℕ
      a = pre ++ (s ++ (t ++ post))

      size : e - b ≡ length m
      size = omega (arith, length-merge_lists takes_left s t)

      back : copy (e - b) (tp ++ (m ++ tpost)) a (length tp) b ≡ ok (pre ++ (m ++ post))
      back =
          rw (size, eb, sym (append_assoc s t post))
            (copy-eq (tp ++ (m ++ tpost)) m pre (s ++ t) post (length tp)
              (omega (arith, length-append s t, length-merge_lists takes_left s t))
              (Reads-middle tp m tpost))

  merge-Sorted :
      (pre s t post tmp : List ℕ) (b mid e : ℕ)
      → b ≡ length pre
      → mid ≡ b + length s
      → e ≡ mid + length t
      → e ≤ length tmp
      → IsAscending s
      → IsAscending t
      → Yields
          (Sorted pre (s ++ t) post (length tmp))
          (merge takes_left base (pre ++ (s ++ (t ++ post))) tmp b mid e)
  merge-Sorted pre s t post tmp b mid e eb em ee fits hs ht =
      let le = base-le b in
      let front = split tmp (base b) (omega arith) in
      let back =
        split front.right (length s + length t) (
          omega (arith, front.size, ap length front.whole, length-append front.left front.right)) in
      let whole : tmp ≡ front.left ++ (back.left ++ back.right) =
        front.whole ∙ ap (λ l. front.left ++ l) back.whole in
      let m = merge_lists takes_left s t in
      rw
        (ap (λ l. merge takes_left base (pre ++ (s ++ (t ++ post))) l b mid e) whole
          ∙ merge-eq pre s t post front.left back.left back.right b mid e eb em ee front.size
              back.size)
        (yields (record {
          entries = m;
          array = refl;
          ascending = IsAscending-merge_lists takes_left order s t hs ht;
          counts = λ v. omega (arith, count-merge_lists takes_left v s t, count-append v s t);
          length_same = omega (arith, length-merge_lists takes_left s t, length-append s t);
          tmp_size = omega (
            arith,
            ap length whole,
            back.size,
            length-append front.left (back.left ++ back.right),
            length-append front.left (m ++ back.right),
            length-append back.left back.right,
            length-append m back.right,
            length-merge_lists takes_left s t,
          );
        }))

  -- two sorted halves, merged
  pub merge-Halves :
      (pre s post tmp : List ℕ) (b e : ℕ)
      → b ≡ length pre
      → e ≡ b + length s
      → e ≤ length tmp
      → (h : Halves pre s post b e) {m n : List ℕ × List ℕ}
      → (f : Sorted pre h.left (h.right ++ post) (length tmp) m)
      → (g : Sorted (pre ++ f.entries) h.right post (length m.1) n)
      → Yields (Sorted pre s post (length tmp)) (
          merge takes_left base (pre ++ (f.entries ++ (g.entries ++ post))) (n.1) b ((b + e) / 2) e)
  merge-Halves pre s post tmp b e eb ee fits h {n = n} f g =
      Yields-weaken
        (merge-Sorted pre f.entries g.entries post (n.1) b ((b + e) / 2) e eb
          (omega (arith, f.length_same, h.middle)) (omega (arith, g.length_same, h.middle, h.size))
          (omega (arith, g.tmp_size, f.tmp_size)) f.ascending g.ascending)
        (λ r done.
          Sorted-of_Halves s h.left h.right f.entries g.entries h.whole f.counts g.counts
            f.length_same g.length_same (g.tmp_size ∙ f.tmp_size) done)

  pub msort-Sorted :
      (k : ℕ) (pre s post tmp : List ℕ) (b e : ℕ)
      → b ≡ length pre
      → e ≡ b + length s
      → length s < k
      → e ≤ length tmp
      → Yields
          (Sorted pre s post (length tmp))
          (msort takes_left base k (pre ++ (s ++ post)) tmp b e)
  unfolding msort
  msort-Sorted zero pre s post tmp b e eb ee lt fits = absurd (omega arith)
  msort-Sorted (suc k) pre s post tmp b e eb ee lt fits = elim (Bool-cases (ltb (b + 1) e)) [
    | inr small ↦ rw small (
        yields (record {
          entries = s;
          array = refl;
          ascending = short-IsAscending s (ground arith);
          counts = λ v. refl;
          length_same = refl;
          tmp_size = refl;
        }))
    | inl big ↦ rw big (
        let h = halve pre s post b e big ee in
        rw h.array (
          Yields-bind
            (msort-Sorted k pre h.left (h.right ++ post) tmp b ((b + e) / 2) eb h.middle
              (omega (arith, h.left_shorter)) (omega (arith, h.middle, h.size)))
            (λ m f. rw (f.array ∙ sym (append_assoc pre f.entries (h.right ++ post))) (
              Yields-bind
                (msort-Sorted k (pre ++ f.entries) h.right post (m.1) ((b + e) / 2) e
                  (omega (arith, f.length_same, length-append pre f.entries, h.middle))
                  (omega (arith, h.middle, h.size)) (omega (arith, h.right_shorter))
                  (omega (arith, f.tmp_size)))
                (λ n g.
                  rw (g.array ∙ append_assoc pre f.entries (g.entries ++ post))
                    (merge-Halves pre s post tmp b e eb ee fits h f g))))))
  ]
