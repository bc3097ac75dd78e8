-- ===== src/FooTable/Alloc.antt =====
-- The table after `foo_alloc`.
use mathlib.Core.Path.{subst}
use code_learning.Base.{
  ℕ, suc, ok, ◌<◌, ◌≡◌, refl, ◌∙◌, arith, true, false, ◌==◌, List, ◌∷◌, length-set, set, ◌!◌, !-set,
  !-set_self, read-ok, write-ok, ◌>>=◌, Yields, yields, Bool-cases, inl, inr,
}
use code_learning.Base.Int.{ℤ, pos}
use code_learning.JobQueue.Links.{NotIn, IsDistinct}
use code_learning.FooTable.{Foo, Table, nhash, Action, load, hash, update, foo_alloc}
use code_learning.FooTable.Chains.{
  Chain, Holds, put, hash-bound, load-other, load-update, Chain-other, same_address,
}

-- the bucket's chain has the object in front, and every other bucket has the chain that it had
pub put-Chain :
    (lists : ℕ → List ℕ) (t t' : Table) (i : ℕ) (l : List ℕ)
    → ((j : ℕ) → j < nhash → (i == j) ≡ false → Chain t'.foos j (t'.heads ! j) (lists j))
    → Chain t'.foos i (t'.heads ! i) l
    → (j : ℕ) → j < nhash
    → Chain t'.foos j (t'.heads ! j) (put lists i l j)
put-Chain lists t t' i l others here j lt = elim (Bool-cases (i == j)) [
  | inl e ↦ rw e (subst (λ k. Chain t'.foos k (t'.heads ! k) l) (same_address i j e) here)
  | inr e ↦ rw e (others j lt e)
]

pub put-IsDistinct :
    (lists : ℕ → List ℕ) (i : ℕ) (l : List ℕ)
    → ((j : ℕ) → j < nhash → IsDistinct (lists j))
    → IsDistinct l
    → (j : ℕ) → j < nhash
    → IsDistinct (put lists i l j)
put-IsDistinct lists i l others here j lt = elim (Bool-cases (i == j)) [
  | inl e ↦ rw e here
  | inr e ↦ rw e (others j lt)
]

-- what `foo_alloc` returns: the new object in front of its bucket's chain, with the identifier and
-- the count 1, and the other objects and chains as before
pub record Allocated (lists : ℕ → List ℕ) (t : Table) (p : ℕ) (id : ℤ) (r : Table × ℕ × List Action)
    : Type 0 where
  pub chains : Holds (put lists (hash id) (p ∷ lists (hash id))) (r.0)
  pub result : r.1 ≡ p
  pub object : load r.0.foos p ≡ ok (record { count = pos 1; id = id; next = t.heads ! hash id })
  pub others : (x : ℕ) → (p == x) ≡ false → load r.0.foos x ≡ load t.foos x

-- In a table that holds its chains, where `malloc` gives an object that is in no chain and its lock
-- can be made, foo_alloc returns the object and puts it in front of the chain of its bucket, with the
-- identifier and the count 1. The other chains, and the objects at other addresses, are as before.
pub foo_alloc-Holds :
    (lists : ℕ → List ℕ) (t : Table) (p : ℕ) (id : ℤ)
    → Holds lists t
    → ((i : ℕ) → i < nhash → NotIn (suc p) (lists i))
    → Yields (Allocated lists t (suc p) id) (foo_alloc (suc p) true t id)
unfolding foo_alloc
foo_alloc-Holds lists t p id held fresh =
    let i = hash id in
    let lt = hash-bound id in
    let f : Foo = record { count = pos 1; id = id; next = t.heads ! i } in
    let t' : Table = record { heads = set t.heads i (suc p); foos = update t.foos (suc p) f } in
    rw
      (
        read-ok t.heads i (omega (arith, held.size)),
        write-ok t.heads i (suc p) (omega (arith, held.size)),
        ◌>>=◌,
      )
      (yields (record {
        chains = record {
          size = length-set t.heads i (suc p) ∙ held.size;
          chains =
              put-Chain lists t t' i (suc p ∷ lists i)
                (λ j lj ne.
                  subst (λ q. Chain t'.foos j q (lists j))
                    (ground (arith, !-set t.heads i j (suc p), held.size))
                    (Chain-other t.foos (suc p) f j (t.heads ! j) (lists j) (fresh j lj)
                      (held.chains j lj)))
                (
                  !-set_self t.heads i (suc p) (omega (arith, held.size)),
                  (
                    f,
                    load-update t.foos (suc p) f (ground arith),
                    refl,
                    omega arith,
                    Chain-other t.foos (suc p) f i (t.heads ! i) (lists i) (fresh i lt)
                        (held.chains i lt),
                  ),
                );
          distinct =
              put-IsDistinct lists i (suc p ∷ lists i) held.distinct
                (fresh i lt, held.distinct i lt);
        };
        result = refl;
        object = load-update t.foos (suc p) f (ground arith);
        others = λ x ne. load-other t.foos (suc p) f x ne;
      }))
