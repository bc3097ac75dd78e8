-- ===== src/FooTable/Chains.antt =====
-- The chains of the hash table.
use mathlib.Core.Path.{subst}
use code_learning.Base.{
  ℕ, zero, suc, ◌<◌, ◌≡◌, refl, sym, ap, ◌∙◌, arith, true, false, ◌==◌, if◌then◌else◌, List, [],
  ◌∷◌, length, ◌!◌, Bool-cases, inl, inr, ok,
}
use code_learning.Base.Int.{ℤ, pos, ◌≤ℤ◌}
use code_learning.JobQueue.Links.{NotIn, IsDistinct}
use code_learning.FooTable.{Foo, Memory, Table, nhash, hash, load, update}

-- From `p` on the chain of bucket `i` has the objects at the addresses `l`; each belongs into this
-- bucket and is counted.
abbrev pub Chain : Memory → (i p : ℕ) → List ℕ → Type 0
Chain m i p [] = p ≡ 0
Chain m i p (x ∷ l) =
    (p ≡ x)
    × ((f : Foo) × (load m x ≡ ok f) × (hash f.id ≡ i) × (pos 1 ≤ℤ f.count) × Chain m i f.next l)

-- each bucket has its chain, with every object once
pub record Holds (lists : ℕ → List ℕ) (t : Table) : Type 0 where
  pub size : length t.heads ≡ nhash
  pub chains : (i : ℕ) → i < nhash → Chain t.foos i (t.heads ! i) (lists i)
  pub distinct : (i : ℕ) → i < nhash → IsDistinct (lists i)

-- the lists with another one for one bucket
abbrev pub put : (ℕ → List ℕ) → ℕ → List ℕ → ℕ → List ℕ
put lists i l j = if i == j then l else lists j

pub hash-bound : (id : ℤ) → hash id < nhash
unfolding hash
hash-bound id = ground arith

pub load-nonzero : (m : Memory) (x : ℕ) {f : Foo} → load m x ≡ ok f → (x == 0) ≡ false
unfolding load
load-nonzero m zero h = absurd (ground arith)
load-nonzero m (suc x) h = ground arith

pub load-other :
    (m : Memory) (x : ℕ) (f : Foo) (y : ℕ) → (x == y) ≡ false → load (update m x f) y ≡ load m y
unfolding load update
load-other m x f zero ne = refl
load-other m x f (suc y) ne = rw (load, update, ne) refl

pub load-update : (m : Memory) (x : ℕ) (f : Foo) → (x == 0) ≡ false → load (update m x f) x ≡ ok f
unfolding load update
load-update m zero f h = absurd (ground arith)
load-update m (suc x) f h = rw (load, update, itself x) refl
  where
    itself : (x : ℕ) → (suc x == suc x) ≡ true
    itself x = ground arith

-- there is one object at an address
pub loaded_same :
    (m : Memory) (x y : ℕ) (f g : Foo) → load m x ≡ ok f → load m y ≡ ok g → x ≡ y → f ≡ g
loaded_same m x y f g h k e = ok_injective (sym h ∙ ap (load m) e ∙ k)
  where
    ok_injective : {f g : Foo} → ok f ≡ ok g → f ≡ g
    ok_injective e = cc

pub same_address : (x y : ℕ) → (x == y) ≡ true → x ≡ y
same_address x y h = ground arith

apart : (a b : ℕ) → a ≡ b → (a == b) ≡ false → ⊥
apart a b e ne = ground arith

-- a chain without `x` does not see what is there
pub Chain-other :
    (m : Memory) (x : ℕ) (f : Foo) (i p : ℕ) (l : List ℕ)
    → NotIn x l
    → Chain m i p l
    → Chain (update m x f) i p l
Chain-other m x f i p [] fresh e = e
Chain-other m x f i p (y ∷ l) (ne, fresh) (at, (g, h, home, n, c)) =
    (at, (g, load-other m x f y ne ∙ h, home, n, Chain-other m x f i g.next l fresh c))

-- an object of another bucket is not on the chain
pub Chain-NotIn :
    (m : Memory) (x : ℕ) (f : Foo) (i p : ℕ) (l : List ℕ)
    → load m x ≡ ok f
    → (hash f.id == i) ≡ false
    → Chain m i p l
    → NotIn x l
Chain-NotIn m x f i p [] h ne c = tt
Chain-NotIn m x f i p (y ∷ l) h ne (at, (g, h', home, n, c)) =
    (differs, Chain-NotIn m x f i g.next l h ne c)
  where
    differs : (x == y) ≡ false
    differs = elim (Bool-cases (x == y)) [
      | inr e ↦ e
      | inl e ↦ absurd (
          apart (hash f.id) i
            (ap (λ k. hash k.id) (loaded_same m x y f g h h' (same_address x y e)) ∙ home) ne)
    ]

-- another count at `x`
pub Chain-counted :
    (m : Memory) (x : ℕ) (f f' : Foo) (i p : ℕ) (l : List ℕ)
    → load m x ≡ ok f
    → f'.id ≡ f.id
    → f'.next ≡ f.next
    → pos 1 ≤ℤ f'.count
    → Chain m i p l
    → Chain (update m x f') i p l
Chain-counted m x f f' i p [] h e e' n c = c
Chain-counted m x f f' i p (y ∷ l) h e e' n (at, (g, h', home, n', c)) =
    elim (Bool-cases (x == y)) [
      | inr ne ↦ (
        at,
        (g, load-other m x f' y ne ∙ h', home, n', Chain-counted m x f f' i g.next l h e e' n c),
      )
      | inl eq ↦
          let same = loaded_same m x y f g h h' (same_address x y eq) in
          (
            at,
            (
              f',
              ap (load (update m x f')) (sym (same_address x y eq))
                  ∙ load-update m x f' (load-nonzero m x h),
              ap hash e ∙ ap (λ k. hash k.id) same ∙ home,
              n,
              subst (λ q. Chain (update m x f') i q l) (sym (e' ∙ ap (λ k. k.next) same))
                  (Chain-counted m x f f' i g.next l h e e' n c),
            ),
          )
    ]
