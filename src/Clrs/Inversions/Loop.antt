-- ===== src/Clrs/Inversions/Loop.antt =====
-- The counting merge against the merge of the merge sort: the same array, and `*num` beside it.
use code_learning.Base.{
  ℕ, zero, suc, ◌+◌, ◌-◌, ◌^◌, ◌<◌, ◌≡◌, refl, arith, List, [], ◌∷◌, ltb, leb, length, write, Run,
  ok, fault, out_of_fuel, ◌>>=◌, Bool-cases, inl, inr,
}
use code_learning.Sorting.Merge.{merge_loop}
use code_learning.Sorting.Merge.Arrays.{Reads, left_empty, right_empty, both_left, plus_none}
use code_learning.Clrs.Inversions.{raise, count_loop}
use code_learning.Clrs.Inversions.Counts.{passed}

bind_congr :
    {A B C : Type 0} (m : Run A) (f : A → Run C) (g : A → Run B) (h : B → Run C)
    → ((a : A) → f a ≡ (g a >>= h))
    → (m >>= f) ≡ ((m >>= g) >>= h)
bind_congr (ok a) f g h e = e a
bind_congr fault f g h e = refl
bind_congr out_of_fuel f g h e = refl

raise-ok : (num d : ℕ) → num + d < 2 ^ 31 → raise num d ≡ ok (num + d)
unfolding raise
raise-ok num d lt = ground arith

waiting : (i j tmp n mid : ℕ) → mid ≡ i + n → j ≡ mid + tmp → j - i - tmp ≡ n
waiting i j tmp n mid e k = omega arith

module _ (a : List ℕ) (mid e : ℕ) where
  abbrev merged : ℕ → (tmparr : List ℕ) → (num i j index : ℕ) → Run (List ℕ × ℕ)
  merged k tmparr num i j index =
      merge_loop leb (λ b. 0) k a tmparr i j index mid e >>= λ t. ok (t, num)

  pub count_loop-eq :
      (k : ℕ) (s t tmparr : List ℕ) (num i j index tmp : ℕ)
      → mid ≡ i + length s
      → e ≡ j + length t
      → j ≡ mid + tmp
      → Reads a i s
      → Reads a j t
      → num + passed s t < 2 ^ 31
      → count_loop k a tmparr num i j index tmp mid e ≡ merged k tmparr (num + passed s t) i j index
  unfolding count_loop merge_loop passed
  count_loop-eq zero s t tmparr num i j index tmp em ee ej hs ht lt = refl
  count_loop-eq (suc k) [] t tmparr num i j index tmp em ee ej hs ht lt =
      rw (left_empty i mid (ltb j e) (omega arith), plus_none num) refl
  count_loop-eq (suc k) (x ∷ s) [] tmparr num i j index tmp em ee ej hs ht lt =
      rw (right_empty j e (ltb i mid) (omega arith), plus_none num) refl
  count_loop-eq (suc k) (x ∷ s) (y ∷ t) tmparr num i j index tmp em ee ej (ax, hs) (ay, ht) lt =
      elim (Bool-cases (leb x y)) [
        | inl c ↦
            rw (both_left i j mid e (omega arith) (omega arith), ax, ay, ◌>>=◌, c)
              (bind_congr (write tmparr index x) _ _ _ (λ t'.
                count_loop-eq k s (y ∷ t) t' num (i + 1) j (index + 1) tmp (omega arith) ee ej hs
                  (ay, ht) (ground (arith, c))))
        | inr c ↦
            rw (both_left i j mid e (omega arith) (omega arith), ax, ay, ◌>>=◌, c)
              (let add : num + (length (x ∷ s) + passed (x ∷ s) t)
                    ≡ num + length (x ∷ s) + passed (x ∷ s) t =
                  omega arith in
                let below : num + length (x ∷ s) + passed (x ∷ s) t < 2 ^ 31 = ground (arith, c) in
                rw
                  (
                    waiting i j tmp (length (x ∷ s)) mid em ej,
                    raise-ok num (length (x ∷ s)) (omega arith),
                    ◌>>=◌,
                    add,
                  )
                  (bind_congr (write tmparr index y) _ _ _ (λ t'.
                    count_loop-eq k (x ∷ s) t t' (num + length (x ∷ s)) i (j + 1) (index + 1)
                      (tmp + 1) em (omega arith) (omega arith) (ax, hs) ht below)))
      ]
