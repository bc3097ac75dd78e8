-- ===== src/Tests/FooTables.antt =====
-- The table of counted objects on a concrete memory.
use mathlib.Core.Path.{subst}
use code_learning.Base.{
  ℕ, zero, suc, ◌-◌, ◌^◌, ◌<◌, ◌≡◌, ◌⊎◌, refl, arith, ◌==◌, if◌then◌else◌, List, [], ◌∷◌, get_or,
  ◌!◌, none, some, ok, Bool, true, false, read, Yields,
}
use code_learning.Base.Int.{pos, ◌<ℤ◌, ◌+ℤ◌}
use code_learning.JobQueue.Links.{NotIn}
use code_learning.FooTable.{
  Foo, Memory, Table, Action, hashlock, f_lock, takes, gives_back, hash, load, update, foo_alloc,
  foo_hold, find_from, foo_find, rele_first, rele_second,
}
use code_learning.FooTable.Chains.{Holds, put}
use code_learning.FooTable.Alloc.{Allocated, foo_alloc-Holds, put-Chain, put-IsDistinct}
use code_learning.FooTable.Search.{Found, HasRoom, foo_find-Found}
use code_learning.FooTable.Release.{rele_second-Holds}
use code_learning.FooTable.Locks.{Thread, Step, step, take_table, AllDone}
use code_learning.FooTable.Traces.{
  Trace, next, here, none_left, tests, thread, finds, call, nothing, calls-CanStep,
}

-- n entries that are `NULL`
unfoldable nulls : ℕ → List ℕ
nulls zero = []
nulls (suc n) = 0 ∷ nulls n

nulls-! : (n i : ℕ) → i < n → nulls n ! i ≡ 0
unfolding nulls ◌!◌ get_or
nulls-! zero i lt = absurd (omega arith)
nulls-! (suc n) zero lt = refl
nulls-! (suc n) (suc i) lt = nulls-! n i (omega arith)

-- objects at 1 and 2 in bucket 3, the first counted once and the second twice
abbrev memory : Memory
memory p =
    if p == 1
    then some (record { count = pos 1; id = pos 3; next = 2 })
    else if p == 2
    then some (record { count = pos 2; id = pos 32; next = 0 })
    else none

abbrev heads : List ℕ
heads = 0 ∷ 0 ∷ 0 ∷ 1 ∷ nulls 25

abbrev two : Table
two = record { heads = heads; foos = memory }

abbrev lists : ℕ → List ℕ
lists = put (λ i. []) 3 (1 ∷ 2 ∷ [])

heads-! : (i : ℕ) → i < 29 → (3 == i) ≡ false → heads ! i ≡ 0
unfolding ◌!◌ get_or
heads-! zero lt ne = refl
heads-! (suc zero) lt ne = refl
heads-! (suc (suc zero)) lt ne = refl
heads-! (suc (suc (suc zero))) lt ne = absurd (ground arith)
heads-! (suc (suc (suc (suc i)))) lt ne = nulls-! 25 i (omega arith)

two-Holds : Holds lists two
unfolding load nulls hash ◌!◌ get_or
two-Holds = record {
  size = refl;
  chains =
      put-Chain (λ i. []) two two 3 (1 ∷ 2 ∷ []) heads-!
        (refl, (_, refl, refl, omega arith, (refl, (_, refl, refl, omega arith, refl))));
  distinct = put-IsDistinct (λ i. []) 3 (1 ∷ 2 ∷ []) (λ i lt. tt) ((refl, tt), (tt, tt));
}

foo_find_run :
    foo_find 3 two (pos 32)
    ≡ ok (
      record {
        heads = heads;
        foos = update memory 2 (record { count = pos 3; id = pos 32; next = 0 });
      },
      2,
      takes hashlock ∷ takes (f_lock 2) ∷ gives_back (f_lock 2) ∷ gives_back hashlock ∷ [],
    )
unfolding foo_find find_from foo_hold load hash nulls ◌+ℤ◌ read
foo_find_run = refl

foo_alloc-Holds_example : Yields (Allocated lists two 5 (pos 61)) (foo_alloc 5 true two (pos 61))
unfolding hash
foo_alloc-Holds_example = foo_alloc-Holds lists two 4 (pos 61) two-Holds (λ i lt. fresh (3 == i))
  where
    fresh : (here : Bool) → NotIn 5 (if here then 1 ∷ 2 ∷ [] else [])
    fresh true = (refl, (refl, tt))
    fresh false = tt

-- both counts can grow
two-HasRoom : HasRoom memory (1 ∷ 2 ∷ [])
unfolding load
two-HasRoom = (λ f h. small _ f h (omega arith), (λ f h. small _ f h (omega arith), tt))
  where
    counts_alike : {g f : Foo} → ok g ≡ ok f → g.count ≡ f.count
    counts_alike e = cc

    small : (g f : Foo) → ok g ≡ ok f → g.count <ℤ pos 3 → f.count <ℤ pos (2 ^ 31 - 1)
    small g f e lt = subst (λ c. c <ℤ pos (2 ^ 31 - 1)) (counts_alike e) (omega arith)

foo_find-Found_example :
    Yields
      (λ r. Found two (pos 32) (1 ∷ 2 ∷ []) (r.0, r.1) × Holds lists (r.0))
      (foo_find 3 two (pos 32))
unfolding hash
foo_find-Found_example = foo_find-Found lists 3 two (pos 32) two-Holds two-HasRoom (omega arith)

rele_second-Holds_example : Yields (λ r. Holds (put lists 3 (2 ∷ [])) (r.0)) (rele_second 1 two 1)
unfolding hash load
rele_second-Holds_example =
    rele_second-Holds lists 1 two [] 1 (2 ∷ []) _ two-Holds refl refl refl (omega arith)

abbrev found_locks : List Action
found_locks = takes hashlock ∷ takes (f_lock 2) ∷ gives_back (f_lock 2) ∷ gives_back hashlock ∷ []

finds_two : Trace found_locks
unfolding foo_find find_from foo_hold load hash nulls ◌+ℤ◌ read
finds_two = finds 3 two (pos 32) _ refl

tests_two : Trace (takes (f_lock 2) ∷ gives_back (f_lock 2) ∷ [])
unfolding rele_first load nulls
tests_two = tests two 2 _ refl

-- a thread that searches, one that gives an object back and searches then, after the step of the first
abbrev searching : Thread
searching = record { table = false; object = none; todo = found_locks }

abbrev releasing : Thread
releasing = record {
  table = false;
  object = none;
  todo = takes (f_lock 2) ∷ gives_back (f_lock 2) ∷ found_locks;
}

abbrev in_search : Thread
in_search = record searching {
  table = true;
  todo = takes (f_lock 2) ∷ gives_back (f_lock 2) ∷ gives_back hashlock ∷ [];
}

calls-CanStep_example :
    AllDone (in_search ∷ releasing ∷ [])
    ⊎ ((vs : List Thread) × Step (in_search ∷ releasing ∷ []) vs)
calls-CanStep_example =
    calls-CanStep (searching ∷ releasing ∷ []) (in_search ∷ releasing ∷ [])
      (thread (call finds_two nothing) (thread (call tests_two (call finds_two nothing)) none_left))
      (next (step [] (releasing ∷ []) (take_table false none _ (refl, (refl, tt)))) here)
