-- ===== src/FooTable/Progress.antt =====
-- Threads that follow the order of the locks go on.
use mathlib.Core.Path.{subst}
use code_learning.Base.{
  ℕ, ◌≡◌, ◌⊎◌, inl, inr, refl, sym, Bool, true, false, List, [], ◌∷◌, ◌++◌, Option, none, some,
  Bool-cases, arith,
}
use code_learning.FooTable.{Lock, hashlock, f_lock, Action, takes, gives_back}
use code_learning.FooTable.Locks.{
  Thread, Follows, IsFree, Acts, take_table, take_object, give_table, give_object, Step, step,
  AllFollow, AllDone,
}

-- a thread at some place
data At (P : Thread → Type 0) : List Thread → Type 0 where
  at : (before : List Thread) (t : Thread) (after : List Thread) → P t → At P (before ++ t ∷ after)

later : {P : Thread → Type 0} (t : Thread) {ts : List Thread} → At P ts → At P (t ∷ ts)
later t (at before u after p) = at (t ∷ before) u after p

abbrev All : (P : Thread → Type 0) → List Thread → Type 0
All P [] = Unit
All P (t ∷ ts) = P t × All P ts

-- some thread has the one property, or all have the other
search_threads :
    {P Q : Thread → Type 0} → ((t : Thread) → P t ⊎ Q t) → (ts : List Thread) → At P ts ⊎ All Q ts
search_threads decide [] = inr tt
search_threads decide (t ∷ ts) = elim (decide t) [
  | inl p ↦ inl (at [] t ts p)
  | inr q ↦ elim (search_threads decide ts) [ inl a ↦ inl (later t a) | inr qs ↦ inr (q, qs) ]
]

some-none : {object : Option ℕ} {x : ℕ} → object ≡ some x → object ≡ none → ⊥
some-none e o = cc

abbrev CanAct : List Thread → (table : Bool) → Option ℕ → List Action → Type 0
CanAct all table object todo =
    (t' : Thread) × Acts all (record { table = table; object = object; todo = todo }) t'

-- a thread that holds an object's lock goes on
holder_acts :
    (all : List Thread) (table : Bool) (object : Option ℕ) (todo : List Action) (x : ℕ)
    → object ≡ some x
    → Follows table object todo
    → CanAct all table object todo
holder_acts all table object [] x e (h, o) = absurd (some-none e o)
holder_acts all table object (takes hashlock ∷ rest) x e (h, o, f) = absurd (some-none e o)
holder_acts all table object (takes (f_lock y) ∷ rest) x e (o, f) = absurd (some-none e o)
holder_acts all table object (gives_back hashlock ∷ rest) x e f = (_, give_table table object rest)
holder_acts all table object (gives_back (f_lock y) ∷ rest) x e f =
    (_, give_object y table object rest)

-- where no object's lock is held, a thread that holds the table's goes on
table_acts :
    (all : List Thread) (table : Bool) (object : Option ℕ) (todo : List Action)
    → ((x : ℕ) → IsFree (f_lock x) all)
    → table ≡ true
    → Follows table object todo
    → CanAct all table object todo
table_acts all table object [] free e (h, o) = absurd (ground arith)
table_acts all table object (takes hashlock ∷ rest) free e (h, o, f) = absurd (ground arith)
table_acts all table object (takes (f_lock y) ∷ rest) free e (o, f) =
    (_, take_object y table object rest (free y))
table_acts all table object (gives_back hashlock ∷ rest) free e f =
    (_, give_table table object rest)
table_acts all table object (gives_back (f_lock y) ∷ rest) free e f =
    (_, give_object y table object rest)

-- where no lock is held, any thread goes on
any_acts :
    (all : List Thread) (table : Bool) (object : Option ℕ) (a : Action) (rest : List Action)
    → ((l : Lock) → IsFree l all)
    → CanAct all table object (a ∷ rest)
any_acts all table object (takes hashlock) rest free =
    (_, take_table table object rest (free hashlock))
any_acts all table object (takes (f_lock y)) rest free =
    (_, take_object y table object rest (free (f_lock y)))
any_acts all table object (gives_back hashlock) rest free = (_, give_table table object rest)
any_acts all table object (gives_back (f_lock y)) rest free = (_, give_object y table object rest)

abbrev CanStep : List Thread → Type 0
CanStep ts = (ts' : List Thread) × Step ts ts'

AllFollow-at :
    (before : List Thread) (t : Thread) (after : List Thread)
    → AllFollow (before ++ t ∷ after)
    → Follows t.table t.object t.todo
AllFollow-at [] t after (f, fs) = f
AllFollow-at (b ∷ before) t after (f, fs) = AllFollow-at before t after fs

steps-At :
    {P : Thread → Type 0} (ts : List Thread)
    → At P ts
    → AllFollow ts
    → ((t : Thread) → P t → Follows t.table t.object t.todo → CanAct ts t.table t.object t.todo)
    → CanStep ts
steps-At ts (at before t after p) fs act =
    let (t', acts) = act t p (AllFollow-at before t after fs) in
    (before ++ t' ∷ after, step before after acts)

abbrev HoldsObject : Thread → Type 0
HoldsObject t = (x : ℕ) × (t.object ≡ some x)

abbrev HoldsNone : Thread → Type 0
HoldsNone t = t.object ≡ none

abbrev HoldsTable : Thread → Type 0
HoldsTable t = t.table ≡ true

abbrev HoldsNothing : Thread → Type 0
HoldsNothing t = t.table ≡ false

abbrev IsBusy : Thread → Type 0
IsBusy t = (a : Action) × (rest : List Action) × (t.todo ≡ a ∷ rest)

Option-cases : (o : Option ℕ) → ((x : ℕ) × (o ≡ some x)) ⊎ (o ≡ none)
Option-cases none = inr refl
Option-cases (some x) = inl (x, refl)

List-cases : (l : List Action) → ((a : Action) × (rest : List Action) × (l ≡ a ∷ rest)) ⊎ (l ≡ [])
List-cases [] = inr refl
List-cases (a ∷ rest) = inl (a, rest, refl)

objects-IsFree : (ts : List Thread) → All HoldsNone ts → (x : ℕ) → IsFree (f_lock x) ts
objects-IsFree [] h x = tt
objects-IsFree (t ∷ ts) (e, h) x = (λ e'. some-none e' e, objects-IsFree ts h x)

table-IsFree : (ts : List Thread) → All HoldsNothing ts → IsFree hashlock ts
table-IsFree [] h = tt
table-IsFree (t ∷ ts) (e, h) = (e, table-IsFree ts h)

All-IsFree : (ts : List Thread) → All HoldsNone ts → All HoldsNothing ts → (l : Lock) → IsFree l ts
All-IsFree ts h k hashlock = table-IsFree ts k
All-IsFree ts h k (f_lock x) = objects-IsFree ts h x

all_done : (ts : List Thread) → All (λ t. t.todo ≡ []) ts → AllDone ts
all_done [] h = tt
all_done (t ∷ ts) (e, h) = (e, all_done ts h)

-- Where every thread follows the order of the locks, all are done or one can do its next action.
pub AllFollow-CanStep :
    (ts : List Thread) → AllFollow ts → AllDone ts ⊎ ((ts' : List Thread) × Step ts ts')
AllFollow-CanStep ts fs = elim (search_threads (λ t. Option-cases t.object) ts) [
  | inl held ↦
      inr (steps-At ts held fs (λ t p f. holder_acts ts t.table t.object t.todo (p.0) (p.1) f))
  | inr none_held ↦ elim (search_threads (λ t. Bool-cases t.table) ts) [
    | inl held ↦ inr (
        steps-At ts held fs
          (λ t p f. table_acts ts t.table t.object t.todo (objects-IsFree ts none_held) p f))
    | inr nothing ↦ elim (search_threads (λ t. List-cases t.todo) ts) [
      | inl busy ↦ inr (
          steps-At ts busy fs (λ t (a, rest, e) f.
            subst (CanAct ts t.table t.object) (sym e)
              (any_acts ts t.table t.object a rest (All-IsFree ts none_held nothing))))
      | inr done ↦ inl (all_done ts done)
    ]
  ]
]
