-- ===== src/DisjointSet/Roots.antt =====
-- The root of an element and its depth, as a relation on the array.
use code_learning.Base.{
  ℕ, zero, suc, ◌≤◌, ◌<◌, ◌≡◌, refl, arith, List, ok, read, set, length, none, some, ◌>>=◌,
  read-set, Yields-weaken, leb, ◌∙◌, length-set, write-ok, Yields, yields, Bool-cases, inl, inr,
}
use code_learning.Base.Int.{ℤ, pos}
use code_learning.DisjointSet.{parent, find, initialize}

-- from `x` the parents lead in `n` steps to the root `r`
pub data Root (s : List ℤ) : ℕ → ℕ → ℕ → Type 0 where
  top : {x : ℕ} {e : ℤ} → read s x ≡ ok e → parent e ≡ none → Root s x x 0
  up :
      {x p r n : ℕ} {e : ℤ}
      → read s x ≡ ok e
      → parent e ≡ some p
      → Root s p r n
      → Root s x r (suc n)

-- an index whose entry is not positive
abbrev pub IsRoot : List ℤ → ℕ → Type 0
IsRoot s x = (e : ℤ) × (read s x ≡ ok e) × (parent e ≡ none)

pub Root-IsRoot : {s : List ℤ} {x r n : ℕ} → Root s x r n → IsRoot s r
Root-IsRoot (top {e} h p) = (e, h, p)
Root-IsRoot (up h p t) = Root-IsRoot t

-- `find` returns the root, once it may make more calls than the element is deep.
pub find-Root : {s : List ℤ} {x r n : ℕ} (k : ℕ) → Root s x r n → n < k → find k s x ≡ ok r
unfolding find
find-Root zero (top h p) lt = absurd (omega arith)
find-Root zero (up h p t) lt = absurd (omega arith)
find-Root (suc k) (top h p) lt = rw (h, ◌>>=◌, p)
find-Root (suc k) (up h p t) lt = rw (h, ◌>>=◌, p) (find-Root k t (omega arith))

initialize-keeps :
    (i : ℕ) (s : List ℤ)
    → i < length s
    → Yields
        (λ t.
          (length t ≡ length s)
          × ((x : ℕ) → i < x → read t x ≡ read s x)
          × ((x : ℕ) → 1 ≤ x → x ≤ i → read t x ≡ ok (pos 0)))
        (initialize i s)
unfolding initialize
initialize-keeps zero s lt = yields (refl, λ x p. refl, λ x p q. absurd (omega arith))
initialize-keeps (suc i) s lt =
    let s' = set s (suc i) (pos 0) in
    rw (write-ok s (suc i) (pos 0) lt) (
      Yields-weaken (initialize-keeps i s' (omega (arith, length-set s (suc i) (pos 0))))
        λ t (size, kept, zeroed). (
          size ∙ length-set s (suc i) (pos 0),
          λ x p. kept x (omega arith) ∙ ground (arith, read-set s (suc i) x (pos 0) lt),
          λ x p q. last t kept zeroed x p q,
        ))
  where
    last :
        (t : List ℤ)
        → ((x : ℕ) → i < x → read t x ≡ read (set s (suc i) (pos 0)) x)
        → ((x : ℕ) → 1 ≤ x → x ≤ i → read t x ≡ ok (pos 0))
        → (x : ℕ) → 1 ≤ x
        → x ≤ suc i
        → read t x ≡ ok (pos 0)
    last t kept zeroed x p q = elim (Bool-cases (leb x i)) [
      | inl e ↦ zeroed x p (ground arith)
      | inr e ↦ kept x (ground arith) ∙ ground (arith, read-set s (suc i) x (pos 0) lt)
    ]

-- `initialize` makes every index from 1 to `numsets` a root of its own, without a fault where the
-- array has these indices.
initialize-Root :
    (numsets : ℕ) (s : List ℤ)
    → numsets < length s
    → Yields (λ t. (x : ℕ) → 1 ≤ x → x ≤ numsets → Root t x x 0) (initialize numsets s)
unfolding parent
initialize-Root numsets s lt =
    Yields-weaken (initialize-keeps numsets s lt)
      λ t (size, kept, zeroed) x p q. top (zeroed x p q) refl
