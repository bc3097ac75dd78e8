-- ===== src/BinaryHeap/Contents.antt =====
-- What a binary heap holds, and its order.
use code_learning.Base.{
  ℕ, zero, suc, ◌+◌, ◌/◌, ◌≤◌, ◌<◌, ◌≡◌, refl, arith, List, same, length, set, ◌!◌, !-set,
  !-set_self, ap, length-set, false, sym, ◌∙◌, ◌==◌, true, Bool-cases, inl, inr,
}

-- how often `v` stands in a[1..n]
unfoldable pub occurs : ℕ → ℕ → List ℕ → ℕ
occurs v zero a = 0
occurs v (suc n) a = occurs v n a + same v (a ! suc n)

-- no entry of a[1..n] is smaller than its parent
abbrev pub IsHeap : ℕ → List ℕ → Type 0
IsHeap n a = (c : ℕ) → 2 ≤ c → c ≤ n → a ! (c / 2) ≤ a ! c

pub occurs-set_past :
    (v n : ℕ) (a : List ℕ) (i x : ℕ) → n < i → i < length a → occurs v n (set a i x) ≡ occurs v n a
unfolding occurs
occurs-set_past v zero a i x h lt = refl
occurs-set_past v (suc n) a i x h lt =
    let kept : set a i x ! suc n ≡ a ! suc n = ground (arith, !-set a i (suc n) x lt) in
    omega (arith, occurs-set_past v n a i x (omega arith) lt, ap (same v) kept)

pub occurs-set :
    (v n : ℕ) (a : List ℕ) (i x : ℕ)
    → 1 ≤ i
    → i ≤ n
    → i < length a
    → occurs v n (set a i x) + same v (a ! i) ≡ occurs v n a + same v x
unfolding occurs
occurs-set v zero a i x h le lt = absurd (omega arith)
occurs-set v (suc n) a i x h le lt = elim (Bool-cases (i == suc n)) [
  | inl e ↦
      let e' : i ≡ suc n = ground arith in
      omega (
        arith,
        occurs-set_past v n a i x (omega arith) lt,
        ap (same v) (ap (λ j. set a i x ! j) (sym e') ∙ !-set_self a i x lt),
        ap (λ j. same v (a ! j)) e',
      )
  | inr ne ↦
      let kept : set a i x ! suc n ≡ a ! suc n = ground (arith, !-set a i (suc n) x lt) in
      omega (arith, occurs-set v n a i x h (ground arith) lt, ap (same v) kept)
]

occurs_of_index : (v n : ℕ) (a : List ℕ) (i : ℕ) → 1 ≤ i → i ≤ n → a ! i ≡ v → 0 < occurs v n a
unfolding occurs same
occurs_of_index v zero a i h le e = absurd (omega arith)
occurs_of_index v (suc n) a i h le e = elim (Bool-cases (i == suc n)) [
  | inl e' ↦ let at : a ! suc n ≡ v = ap (λ j. a ! j) (sym (index e')) ∙ e in ground arith
  | inr ne ↦ omega (arith, occurs_of_index v n a i h (ground arith) e)
]
  where
    index : (i == suc n) ≡ true → i ≡ suc n
    index e' = ground arith

-- the heap's root is its least element
root_below : (k n : ℕ) (a : List ℕ) → IsHeap n a → (c : ℕ) → c < k → 1 ≤ c → c ≤ n → a ! 1 ≤ a ! c
root_below zero n a h c lt ge le = absurd (omega arith)
root_below (suc k) n a h zero lt ge le = absurd (omega arith)
root_below (suc k) n a h (suc zero) lt ge le = omega arith
root_below (suc k) n a h (suc (suc c)) lt ge le = omega (
  arith,
  h (suc (suc c)) (omega arith) le,
  root_below k n a h (suc (suc c) / 2) (omega arith) (omega arith) (omega arith),
)

least_within : (n v : ℕ) (a : List ℕ) → IsHeap n a → (m : ℕ) → m ≤ n → 0 < occurs v m a → a ! 1 ≤ v
unfolding occurs same
least_within n v a h zero le p = absurd (omega arith)
least_within n v a h (suc m) le p =
    ground (arith, least_within n v a h m, root_below (suc (suc m)) n a h (suc m))

-- the root of a heap is no larger than any entry
pub root_least : (n v : ℕ) (a : List ℕ) → IsHeap n a → 0 < occurs v n a → a ! 1 ≤ v
root_least n v a h p = least_within n v a h n (omega arith) p

-- a filled hole that moves: entry `j` goes to `i`, and `x`, which was to fill `i`, fills `j`
pub occurs-move :
    (v n : ℕ) (a : List ℕ) (i j x : ℕ)
    → 1 ≤ i
    → i ≤ n
    → 1 ≤ j
    → j ≤ n
    → (i == j) ≡ false
    → n < length a
    → occurs v n (set (set a i (a ! j)) j x) ≡ occurs v n (set a i x)
occurs-move v n a i j x hi hi' hj hj' ne lt =
    let b = set a i (a ! j) in
    let kept : b ! j ≡ a ! j = ground (arith, !-set a i j (a ! j) (omega arith)) in
    omega (
      arith,
      length-set a i (a ! j),
      occurs-set v n b j x hj hj' (omega (arith, length-set a i (a ! j))),
      ap (same v) kept,
      occurs-set v n a i (a ! j) hi hi' (omega arith),
      occurs-set v n a i x hi hi' (omega arith),
    )
