-- ===== src/FooTable/Traces.antt =====
-- The locks of the functions of the program: no order of steps of any threads ends in a deadlock.
use mathlib.Core.Path.{subst}
use mathlib.Core.List.{append_assoc}
use code_learning.Base.{
  ◌^◌, ◌-◌, ℕ, zero, suc, ◌≡◌, ◌⊎◌, refl, sym, Bool, true, false, List, [], ◌∷◌, ◌++◌, none, ok,
  read, write, ◌==◌, Gives, gives, faults, unfinished, Gives-bind, Gives-after, Gives-if, Gives-at,
}
use code_learning.Base.Int.{ℤ, pos, eqb_ℤ, ltb_ℤ}
use code_learning.FooTable.{
  Table, hashlock, Action, gives_back, load, hash, foo_alloc, foo_hold, find_from, foo_find,
  rele_first, remove, rele_second,
}
use code_learning.FooTable.Progress.{AllFollow-CanStep}
use code_learning.FooTable.Locks.{Thread, Follows, Step, AllFollow, AllDone, Step-AllFollow}

-- the actions come back to a thread that holds nothing, whatever it does then
abbrev Returns : (table : Bool) → List Action → Type 0
Returns table actions =
    (rest : List Action) → Follows table none rest → Follows table none (actions ++ rest)

foo_alloc-Returns :
    (fp : ℕ) (locked : Bool) (t : Table) (id : ℤ)
    → Gives (λ r. Returns false r.2) (foo_alloc fp locked t id)
unfolding foo_alloc
foo_alloc-Returns zero locked t id = gives (λ rest f. f)
foo_alloc-Returns (suc p) false t id = gives (λ rest f. f)
foo_alloc-Returns (suc p) true t id = Gives-after (read t.heads (hash id)) (λ head.
    Gives-after (write t.heads (hash id) (suc p))
      (λ heads. gives (λ rest f. (refl, refl, (refl, (refl, (refl, f)))))))

foo_hold-Returns :
    (table : Bool) (t : Table) (fp : ℕ) → Gives (λ r. Returns table r.1) (foo_hold t fp)
unfolding foo_hold
foo_hold-Returns table t fp =
    Gives-after (load t.foos fp) (λ f.
      Gives-if (ltb_ℤ f.count (pos (2 ^ 31 - 1))) (gives (λ rest f. (refl, (refl, f)))) faults)

find_from-Returns :
    (k : ℕ) (t : Table) (id : ℤ) (fp : ℕ) → Gives (λ r. Returns true r.2) (find_from k t id fp)
unfolding find_from
find_from-Returns zero t id fp = unfinished
find_from-Returns (suc k) t id fp = Gives-if (fp == 0) (gives (λ rest f. f)) (
    Gives-after (load t.foos fp) (λ f.
      Gives-if (eqb_ℤ f.id id) (Gives-bind (foo_hold-Returns true t fp) (λ r p. gives p))
        (find_from-Returns k t id f.next)))

foo_find-Returns : (k : ℕ) (t : Table) (id : ℤ) → Gives (λ r. Returns false r.2) (foo_find k t id)
unfolding foo_find
foo_find-Returns k t id = Gives-after (read t.heads (hash id)) (λ head.
    Gives-bind (find_from-Returns k t id head) (λ r p. gives (λ rest f. (
      refl,
      refl,
      subst (Follows true none) (sym (append_assoc r.2 (gives_back hashlock ∷ []) rest))
          (p (gives_back hashlock ∷ rest) (refl, f)),
    ))))

rele_first-Returns : (t : Table) (fp : ℕ) → Gives (λ r. Returns false r.2) (rele_first t fp)
unfolding rele_first
rele_first-Returns t fp = Gives-after (load t.foos fp) (λ f.
    Gives-if (eqb_ℤ f.count (pos 1)) (gives (λ rest f. (refl, (refl, f))))
      (gives (λ rest f. (refl, (refl, f)))))

rele_second-Returns :
    (k : ℕ) (t : Table) (fp : ℕ) → Gives (λ r. Returns false r.1) (rele_second k t fp)
unfolding rele_second
rele_second-Returns k t fp = Gives-after (load t.foos fp) (λ f.
    Gives-if (eqb_ℤ f.count (pos 1))
      (Gives-after (remove k t fp f)
        (λ t₁. gives (λ rest f. (refl, refl, (refl, (refl, (refl, f)))))))
      (gives (λ rest f. (refl, refl, (refl, (refl, (refl, f)))))))

-- the actions of one call, of `foo_rele` as far as its test or behind it
pub data Trace : List Action → Type 0 where
  allocs :
      (fp : ℕ) (locked : Bool) (t : Table) (id : ℤ) (r : Table × ℕ × List Action)
      → foo_alloc fp locked t id ≡ ok r
      → Trace r.2
  holds : (t : Table) (fp : ℕ) (r : Table × List Action) → foo_hold t fp ≡ ok r → Trace r.1
  finds :
      (k : ℕ) (t : Table) (id : ℤ) (r : Table × ℕ × List Action)
      → foo_find k t id ≡ ok r
      → Trace r.2
  tests : (t : Table) (fp : ℕ) (r : Table × Bool × List Action) → rele_first t fp ≡ ok r → Trace r.2
  releases :
      (k : ℕ) (t : Table) (fp : ℕ) (r : Table × List Action) → rele_second k t fp ≡ ok r → Trace r.1

-- any number of calls, one after the other, each on the table that it finds
pub data Calls : List Action → Type 0 where
  nothing : Calls []
  call : {actions rest : List Action} → Trace actions → Calls rest → Calls (actions ++ rest)

Trace-Returns : {actions : List Action} → Trace actions → Returns false actions
Trace-Returns (allocs fp locked t id r e) = Gives-at (foo_alloc-Returns fp locked t id) e
Trace-Returns (holds t fp r e) = Gives-at (foo_hold-Returns false t fp) e
Trace-Returns (finds k t id r e) = Gives-at (foo_find-Returns k t id) e
Trace-Returns (tests t fp r e) = Gives-at (rele_first-Returns t fp) e
Trace-Returns (releases k t fp r e) = Gives-at (rele_second-Returns k t fp) e

Calls-Follows : {actions : List Action} → Calls actions → Follows false none actions
Calls-Follows nothing = (refl, refl)
Calls-Follows (call trace rest) = Trace-Returns trace _ (Calls-Follows rest)

-- threads that hold nothing and make calls
pub data AllCall : List Thread → Type 0 where
  none_left : AllCall []
  thread :
      {actions : List Action} {ts : List Thread}
      → Calls actions
      → AllCall ts
      → AllCall (record { table = false; object = none; todo = actions } ∷ ts)

pub data Steps : List Thread → List Thread → Type 0 where
  here : {ts : List Thread} → Steps ts ts
  next : {ts us vs : List Thread} → Step ts us → Steps us vs → Steps ts vs

AllCall-AllFollow : {ts : List Thread} → AllCall ts → AllFollow ts
AllCall-AllFollow none_left = tt
AllCall-AllFollow (thread calls ts) = (Calls-Follows calls, AllCall-AllFollow ts)

Steps-AllFollow : {ts us : List Thread} → Steps ts us → AllFollow ts → AllFollow us
Steps-AllFollow here f = f
Steps-AllFollow (next s steps) f = Steps-AllFollow steps (Step-AllFollow s f)

-- Threads that make any calls of the functions, each with the locks that the call takes, never come
-- to a deadlock: after any steps, all are done or one can do its next action.
pub calls-CanStep :
    (ts us : List Thread)
    → AllCall ts
    → Steps ts us
    → AllDone us ⊎ ((vs : List Thread) × Step us vs)
calls-CanStep ts us calls steps =
    AllFollow-CanStep us (Steps-AllFollow steps (AllCall-AllFollow calls))
