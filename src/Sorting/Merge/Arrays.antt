-- ===== src/Sorting/Merge/Arrays.antt =====
-- The loops of a merge against the merging of lists.
use mathlib.Core.List.{append_assoc}
use code_learning.Base.{
  ℕ, zero, suc, ◌+◌, ◌-◌, ◌<◌, ◌≡◌, refl, sym, ap, ◌∙◌, arith, List, [], ◌∷◌, ◌++◌, Bool, true,
  false, ◌&&◌, ltb, if◌then◌else◌, length, length-append, set, read, write, write-ok, ok, ◌>>=◌,
  Bool-cases, inl, inr,
}
use code_learning.Sorting.Merge.{copy, merge_loop}
use code_learning.Sorting.Merge.Lists.{merge_lists}

-- the entries from `i` on are those of `s`
abbrev pub Reads : List ℕ → ℕ → List ℕ → Type 0
Reads a i [] = Unit
Reads a i (x ∷ s) = (read a i ≡ ok x) × Reads a (i + 1) s

read-cons : (b : ℕ) (a : List ℕ) (i : ℕ) → read (b ∷ a) (i + 1) ≡ read a i
unfolding read
read-cons b a i = ap (read (b ∷ a)) (add_one i)
  where
    add_one : (i : ℕ) → i + 1 ≡ suc i
    add_one i = omega arith

Reads-cons : (b : ℕ) (a : List ℕ) (i : ℕ) (s : List ℕ) → Reads a i s → Reads (b ∷ a) (i + 1) s
Reads-cons b a i [] h = tt
Reads-cons b a i (x ∷ s) (e, h) = (read-cons b a i ∙ e, Reads-cons b a (i + 1) s h)

Reads-front : (s post : List ℕ) → Reads (s ++ post) 0 s
unfolding read
Reads-front [] post = tt
Reads-front (x ∷ s) post = (refl, Reads-cons x (s ++ post) 0 s (Reads-front s post))

pub Reads-middle : (pre s post : List ℕ) → Reads (pre ++ (s ++ post)) (length pre) s
Reads-middle [] s post = Reads-front s post
Reads-middle (b ∷ pre) s post =
    rw (add_one (length pre))
      (Reads-cons b (pre ++ (s ++ post)) (length pre) s (Reads-middle pre s post))
  where
    add_one : (i : ℕ) → suc i ≡ i + 1
    add_one i = omega arith

-- the two neighbouring pieces of an array
pub Reads-halves :
    (pre s t post : List ℕ) {b mid : ℕ}
    → b ≡ length pre
    → mid ≡ b + length s
    → Reads (pre ++ (s ++ (t ++ post))) b s × Reads (pre ++ (s ++ (t ++ post))) mid t
Reads-halves pre s t post {mid = mid} eb em = (rw eb (Reads-middle pre s (t ++ post)), right)
  where
    right : Reads (pre ++ (s ++ (t ++ post))) mid t
    right =
        rw
          (
            em ∙ ap (λ n. n + length s) eb ∙ sym (length-append pre s),
            sym (append_assoc pre s (t ++ post)),
          )
          (Reads-middle (pre ++ s) t post)

set-middle :
    (pre : List ℕ) (old v : ℕ) (post : List ℕ)
    → set (pre ++ old ∷ post) (length pre) v ≡ pre ++ v ∷ post
set-middle [] old v post = refl
set-middle (b ∷ pre) old v post = ap (λ r. b ∷ r) (set-middle pre old v post)

write-middle :
    (pre : List ℕ) (old v : ℕ) (post : List ℕ)
    → write (pre ++ old ∷ post) (length pre) v ≡ ok (pre ++ v ∷ post)
write-middle pre old v post =
    write-ok (pre ++ old ∷ post) (length pre) v (omega (arith, length-append pre (old ∷ post)))
    ∙ ap ok (set-middle pre old v post)

length-snoc : (pre : List ℕ) (x : ℕ) → length pre + 1 ≡ length (pre ++ x ∷ [])
length-snoc pre x = omega (arith, length-append pre (x ∷ []))

snoc-append : (pre : List ℕ) (x : ℕ) (s : List ℕ) → (pre ++ x ∷ []) ++ s ≡ pre ++ x ∷ s
snoc-append pre x s = append_assoc pre (x ∷ []) s

pub copy-eq :
    (src s pre old post : List ℕ) (i : ℕ)
    → length old ≡ length s
    → Reads src i s
    → copy (length s) src (pre ++ (old ++ post)) i (length pre) ≡ ok (pre ++ (s ++ post))
unfolding copy
copy-eq src [] pre [] post i e h = refl
copy-eq src [] pre (o ∷ old) post i e h = absurd (omega arith)
copy-eq src (x ∷ s) pre [] post i e h = absurd (omega arith)
copy-eq src (x ∷ s) pre (o ∷ old) post i e (at, h) =
    rw
      (
        at,
        ◌>>=◌,
        write-middle pre o x (old ++ post),
        length-snoc pre x,
        sym (snoc-append pre x (old ++ post)),
        sym (snoc-append pre x (s ++ post)),
      )
      (copy-eq src s (pre ++ x ∷ []) old post (i + 1) (omega arith) h)

-- the test of the first loop
pub left_empty : (i mid : ℕ) (b : Bool) → mid ≡ i → (ltb i mid && b) ≡ false
left_empty i mid b e = ground arith

pub right_empty : (j e : ℕ) (b : Bool) → e ≡ j → (b && ltb j e) ≡ false
right_empty j e b h = ground arith

pub both_left : (i j mid e : ℕ) → i < mid → j < e → (ltb i mid && ltb j e) ≡ true
both_left i j mid e h k = ground arith

minus_left : (i n m : ℕ) → m ≡ i + n → m - i ≡ n
minus_left i n m e = omega arith

pub plus_none : (n : ℕ) → n + 0 ≡ n
plus_none n = omega arith

module _ (takes_left : ℕ → ℕ → Bool) (base : ℕ → ℕ) (a : List ℕ) (mid e : ℕ) where
  merge_loop-left_empty :
      (k : ℕ) (t pre old post : List ℕ) (i j : ℕ)
      → mid ≡ i
      → e ≡ j + length t
      → Reads a j t
      → length old ≡ length t
      → merge_loop takes_left base (suc k) a (pre ++ (old ++ post)) i j (length pre) mid e
        ≡ ok (pre ++ (t ++ post))
  unfolding merge_loop copy
  merge_loop-left_empty k t pre old post i j em ee h l =
      rw
        (
          left_empty i mid (ltb j e) em,
          minus_left i 0 mid (em ∙ sym (plus_none i)),
          ◌>>=◌,
          minus_left j (length t) e ee,
          plus_none (length pre),
        )
        (copy-eq a t pre old post j l h)

  merge_loop-right_empty :
      (k : ℕ) (s pre old post : List ℕ) (i j : ℕ)
      → mid ≡ i + length s
      → e ≡ j
      → Reads a i s
      → length old ≡ length s
      → merge_loop takes_left base (suc k) a (pre ++ (old ++ post)) i j (length pre) mid e
        ≡ ok (pre ++ (s ++ post))
  unfolding merge_loop copy
  merge_loop-right_empty k s pre old post i j em ee h l =
      rw
        (
          right_empty j e (ltb i mid) ee,
          minus_left i (length s) mid em,
          copy-eq a s pre old post i l h,
          ◌>>=◌,
          minus_left j 0 e (ee ∙ sym (plus_none j)),
        )
        refl

  merge_loop-step :
      (k : ℕ) (pre rest : List ℕ) (o x y i j : ℕ)
      → i < mid
      → j < e
      → read a i ≡ ok x
      → read a j ≡ ok y
      → merge_loop takes_left base (suc k) a (pre ++ o ∷ rest) i j (length pre) mid e ≡ (
          if takes_left x y
          then merge_loop takes_left base k a
              ((pre ++ x ∷ []) ++ rest)
              (i + 1)
              j
              (length (pre ++ x ∷ []))
              mid
              e
          else merge_loop takes_left base k a
              ((pre ++ y ∷ []) ++ rest)
              i
              (j + 1)
              (length (pre ++ y ∷ []))
              mid
              e)
  unfolding merge_loop
  merge_loop-step k pre rest o x y i j lt lt' ax ay =
      rw
        (
          both_left i j mid e lt lt',
          ax,
          ay,
          ◌>>=◌,
          write-middle pre o x rest,
          write-middle pre o y rest,
          snoc-append pre x rest,
          snoc-append pre y rest,
          sym (length-snoc pre x),
          sym (length-snoc pre y),
        )
        refl

  pub merge_loop-eq :
      (k : ℕ) (s t pre old post : List ℕ) (i j : ℕ)
      → mid ≡ i + length s
      → e ≡ j + length t
      → Reads a i s
      → Reads a j t
      → length old ≡ length s + length t
      → length s + length t < k
      → merge_loop takes_left base k a (pre ++ (old ++ post)) i j (length pre) mid e
        ≡ ok (pre ++ (merge_lists takes_left s t ++ post))
  unfolding merge_lists
  merge_loop-eq zero s t pre old post i j em ee hs ht l lt = absurd (omega arith)
  merge_loop-eq (suc k) [] t pre old post i j em ee hs ht l lt =
      merge_loop-left_empty k t pre old post i j (omega arith) ee ht (omega arith)
  merge_loop-eq (suc k) (x ∷ s) [] pre old post i j em ee hs ht l lt =
      merge_loop-right_empty k (x ∷ s) pre old post i j em (omega arith) hs (omega arith)
  merge_loop-eq (suc k) (x ∷ s) (y ∷ t) pre [] post i j em ee hs ht l lt = absurd (omega arith)
  merge_loop-eq (suc k) (x ∷ s) (y ∷ t) pre (o ∷ old) post i j em ee (ax, hs) (ay, ht) l lt =
      merge_loop-step k pre (old ++ post) o x y i j (omega arith) (omega arith) ax ay
      ∙ elim (Bool-cases (takes_left x y)) [
        | inl c ↦
            rw (c, sym (snoc-append pre x (merge_lists takes_left s (y ∷ t) ++ post)))
              (merge_loop-eq k s (y ∷ t) (pre ++ x ∷ []) old post (i + 1) j (omega arith) ee hs
                (ay, ht) (omega arith) (omega arith))
        | inr c ↦
            rw (c, sym (snoc-append pre y (merge_lists takes_left (x ∷ s) t ++ post)))
              (merge_loop-eq k (x ∷ s) t (pre ++ y ∷ []) old post i (j + 1) em (omega arith)
                (ax, hs) ht (omega arith) (omega arith))
      ]
