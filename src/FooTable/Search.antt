-- ===== src/FooTable/Search.antt =====
-- What `foo_find` finds, and the table after it and after the first part of `foo_rele`.
use code_learning.Base.{
  ℕ, zero, suc, ◌-◌, ◌^◌, ◌<◌, ◌≡◌, refl, arith, Bool, true, false, ◌==◌, List, [], ◌∷◌, ◌++◌,
  length, ◌!◌, read-ok, ok, ◌>>=◌, Yields, yields, Yields-bind, Yields-weaken, Bool-cases, inl, inr,
}
use code_learning.Base.Int.{ℤ, pos, ◌+ℤ◌, ◌-ℤ◌, ◌≤ℤ◌, ◌<ℤ◌, eqb_ℤ, ltb_ℤ, -ℤ_parts, int_laws}
use code_learning.FooTable.{
  Foo, Memory, Table, hash, load, update, foo_hold, find_from, foo_find, lower, rele_first,
}
use code_learning.FooTable.Chains.{Chain, Holds, hash-bound, load-nonzero, Chain-counted}

-- another count of one object
Holds-counted :
    (lists : ℕ → List ℕ) (t : Table) (x : ℕ) (f f' : Foo)
    → load t.foos x ≡ ok f
    → f'.id ≡ f.id
    → f'.next ≡ f.next
    → pos 1 ≤ℤ f'.count
    → Holds lists t
    → Holds lists (record t { foos = update t.foos x f' })
Holds-counted lists t x f f' h e e' n held = record {
  size = held.size;
  chains =
      λ i lt. Chain-counted t.foos x f f' i (t.heads ! i) (lists i) h e e' n (held.chains i lt);
  distinct = held.distinct;
}

-- the object at `x` has the identifier, or another one
abbrev pub Has : Table → (id : ℤ) → Bool → ℕ → Type 0
Has t id answer x = (f : Foo) × (load t.foos x ≡ ok f) × (eqb_ℤ f.id id ≡ answer)

abbrev pub NoneHas : Table → (id : ℤ) → List ℕ → Type 0
NoneHas t id [] = Unit
NoneHas t id (x ∷ l) = Has t id false x × NoneHas t id l

-- the first object with the identifier, counted once more, or `NULL` where none has it
pub data Found (t : Table) (id : ℤ) : List ℕ → Table × ℕ → Type 0 where
  missing : {l : List ℕ} → NoneHas t id l → Found t id l (t, 0)
  found :
      (before : List ℕ) (x : ℕ) (after : List ℕ) (f : Foo)
      → NoneHas t id before
      → load t.foos x ≡ ok f
      → eqb_ℤ f.id id ≡ true
      → pos 1 ≤ℤ f.count
      → Found t id
          (before ++ x ∷ after)
          (record t { foos = update t.foos x (record f { count = f.count +ℤ pos 1 }) }, x)

behind :
    {t : Table} {id : ℤ} (x : ℕ) {l : List ℕ} {r : Table × ℕ}
    → Has t id false x
    → Found t id l r
    → Found t id (x ∷ l) r
behind x h (missing n) = missing (h, n)
behind x h (found before y after f n g e c) = found (x ∷ before) y after f (h, n) g e c

-- the counts of the objects on a chain can grow
abbrev pub HasRoom : Memory → List ℕ → Type 0
HasRoom m [] = Unit
HasRoom m (x ∷ l) = ((f : Foo) → load m x ≡ ok f → f.count <ℤ pos (2 ^ 31 - 1)) × HasRoom m l

find_from-Found :
    (k : ℕ) (t : Table) (id : ℤ) (i p : ℕ) (l : List ℕ)
    → Chain t.foos i p l
    → HasRoom t.foos l
    → length l < k
    → Yields (λ r. Found t id l (r.0, r.1)) (find_from k t id p)
unfolding find_from foo_hold
find_from-Found zero t id i p l c room lt = absurd (omega arith)
find_from-Found (suc k) t id i p [] e room lt = rw (is_zero p e) (yields (missing tt))
  where
    is_zero : (p : ℕ) → p ≡ 0 → (p == 0) ≡ true
    is_zero p e = ground arith
find_from-Found (suc k) t id i p (x ∷ l) (at, (f, h, home, n, c)) (room, rooms) lt =
    rw (at, load-nonzero t.foos x h, h, ◌>>=◌)
      (elim (Bool-cases (eqb_ℤ f.id id)) [
        | inl same ↦ rw (same, ◌>>=◌, fits f (room f h)) (yields (found [] x l f tt h same n))
        | inr other ↦ rw other (
            Yields-weaken (find_from-Found k t id i f.next l c rooms (omega arith))
              (λ r. behind x (f, h, other)))
      ])
  where
    fits : (f : Foo) → f.count <ℤ pos (2 ^ 31 - 1) → ltb_ℤ f.count (pos (2 ^ 31 - 1)) ≡ true
    fits f h = ground arith

Found-Holds :
    (lists : ℕ → List ℕ) (t : Table) (id : ℤ) (l : List ℕ) (r : Table × ℕ)
    → Holds lists t
    → Found t id l r
    → Holds lists (r.0)
Found-Holds lists t id l r held (missing n) = held
Found-Holds lists t id l r held (found before x after f n h e c) =
    Holds-counted lists t x f (record f { count = f.count +ℤ pos 1 }) h refl refl (omega int_laws)
      held

-- In a table that holds its chains, where the counts in the bucket can grow and the fuel exceeds its
-- number of objects, foo_find ends: it returns the first object of the bucket with the identifier
-- and counts it once more, or returns `NULL` where there is none and leaves the table alone. The
-- chains stay as they are.
pub foo_find-Found :
    (lists : ℕ → List ℕ) (k : ℕ) (t : Table) (id : ℤ)
    → Holds lists t
    → HasRoom t.foos (lists (hash id))
    → length (lists (hash id)) < k
    → Yields (λ r. Found t id (lists (hash id)) (r.0, r.1) × Holds lists (r.0)) (foo_find k t id)
unfolding foo_find
foo_find-Found lists k t id held room lt =
    let i = hash id in
    rw (read-ok t.heads i (omega (arith, held.size, hash-bound id)), ◌>>=◌)
      (Yields-bind
        (find_from-Found k t id i (t.heads ! i) (lists i) (held.chains i (hash-bound id)) room lt)
        (λ r f. yields (f, Found-Holds lists t id (lists i) (r.0, r.1) held f)))

-- one count less leaves the table as it is, where the object is counted more than once
lower-Holds :
    (lists : ℕ → List ℕ) (t : Table) (x : ℕ) (f : Foo)
    → load t.foos x ≡ ok f
    → pos 1 ≤ℤ f.count
    → eqb_ℤ f.count (pos 1) ≡ false
    → Holds lists t
    → Holds lists (lower t x f)
unfolding lower
lower-Holds lists t x f h n ne held =
    Holds-counted lists t x f (record f { count = f.count -ℤ pos 1 }) h refl refl
      (still f.count n ne) held
  where
    still : (c : ℤ) → pos 1 ≤ℤ c → eqb_ℤ c (pos 1) ≡ false → pos 1 ≤ℤ c -ℤ pos 1
    still c n ne = ground (arith, -ℤ_parts c (pos 1))

rele_first-Holds :
    (lists : ℕ → List ℕ) (t : Table) (x : ℕ) (f : Foo)
    → load t.foos x ≡ ok f
    → pos 1 ≤ℤ f.count
    → Holds lists t
    → Yields (λ r. Holds lists (r.0) × (r.1 ≡ eqb_ℤ f.count (pos 1))) (rele_first t x)
unfolding rele_first
rele_first-Holds lists t x f h n held = elim (Bool-cases (eqb_ℤ f.count (pos 1))) [
  | inl e ↦ rw (h, ◌>>=◌, e) (yields (held, refl))
  | inr e ↦ rw (h, ◌>>=◌, e) (yields (lower-Holds lists t x f h n e held, refl))
]
