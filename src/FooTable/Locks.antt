-- ===== src/FooTable/Locks.antt =====
-- Threads that take locks: what each holds, the steps, and the order of the locks that rules out a
-- deadlock.
use mathlib.Core.Path.{subst}
use code_learning.Base.{
  ℕ, ◌≡◌, ◌≢◌, sym, Bool, true, false, List, [], ◌∷◌, ◌++◌, Option, none, some,
}
use code_learning.FooTable.{Lock, hashlock, f_lock, Action, takes, gives_back}

-- what a thread holds, and the actions that it has still to do
pub record Thread : Type 0 where
  pub table : Bool
  pub object : Option ℕ
  pub todo : List Action

-- The actions end with no lock held, give back only what is held, and take the table's lock only
-- while holding none and an object's lock only while holding no other object's.
abbrev pub Follows : (table : Bool) (object : Option ℕ) → List Action → Type 0
Follows table object [] = (table ≡ false) × (object ≡ none)
Follows table object (takes hashlock ∷ rest) =
    (table ≡ false) × (object ≡ none) × Follows true none rest
Follows table object (takes (f_lock x) ∷ rest) = (object ≡ none) × Follows table (some x) rest
Follows table object (gives_back hashlock ∷ rest) = (table ≡ true) × Follows false object rest
Follows table object (gives_back (f_lock x) ∷ rest) = (object ≡ some x) × Follows table none rest

-- no thread holds the lock
abbrev pub IsFree : Lock → List Thread → Type 0
IsFree l [] = Unit
IsFree hashlock (t ∷ ts) = (t.table ≡ false) × IsFree hashlock ts
IsFree (f_lock x) (t ∷ ts) = (t.object ≢ some x) × IsFree (f_lock x) ts

-- the next action of a thread among all
pub data Acts (all : List Thread) : Thread → Thread → Type 0 where
  take_table :
      (table : Bool) (object : Option ℕ) (rest : List Action)
      → IsFree hashlock all
      → Acts all
          (record { table = table; object = object; todo = takes hashlock ∷ rest })
          (record { table = true; object = object; todo = rest })
  take_object :
      (x : ℕ) (table : Bool) (object : Option ℕ) (rest : List Action)
      → IsFree (f_lock x) all
      → Acts all
          (record { table = table; object = object; todo = takes (f_lock x) ∷ rest })
          (record { table = table; object = some x; todo = rest })
  give_table :
      (table : Bool) (object : Option ℕ) (rest : List Action)
      → Acts all
          (record { table = table; object = object; todo = gives_back hashlock ∷ rest })
          (record { table = false; object = object; todo = rest })
  give_object :
      (x : ℕ) (table : Bool) (object : Option ℕ) (rest : List Action)
      → Acts all
          (record { table = table; object = object; todo = gives_back (f_lock x) ∷ rest })
          (record { table = table; object = none; todo = rest })

-- one thread does its next action
pub data Step : List Thread → List Thread → Type 0 where
  step :
      (before after : List Thread) {t t' : Thread}
      → Acts (before ++ t ∷ after) t t'
      → Step (before ++ t ∷ after) (before ++ t' ∷ after)

abbrev pub AllFollow : List Thread → Type 0
AllFollow [] = Unit
AllFollow (t ∷ ts) = Follows t.table t.object t.todo × AllFollow ts

abbrev pub AllDone : List Thread → Type 0
AllDone [] = Unit
AllDone (t ∷ ts) = (t.todo ≡ []) × AllDone ts

Acts-Follows :
    {all : List Thread} {t t' : Thread}
    → Acts all t t'
    → Follows t.table t.object t.todo
    → Follows t'.table t'.object t'.todo
Acts-Follows (take_table table object rest free) (h, o, f) =
    subst (λ x. Follows true x rest) (sym o) f
Acts-Follows (take_object x table object rest free) (o, f) = f
Acts-Follows (give_table table object rest) (h, f) = f
Acts-Follows (give_object x table object rest) (o, f) = f

AllFollow-step :
    (before after : List Thread) (t t' : Thread)
    → (Follows t.table t.object t.todo → Follows t'.table t'.object t'.todo)
    → AllFollow (before ++ t ∷ after)
    → AllFollow (before ++ t' ∷ after)
AllFollow-step [] after t t' keep (f, fs) = (keep f, fs)
AllFollow-step (b ∷ before) after t t' keep (f, fs) = (f, AllFollow-step before after t t' keep fs)

pub Step-AllFollow : {ts ts' : List Thread} → Step ts ts' → AllFollow ts → AllFollow ts'
Step-AllFollow (step before after {t} {t'} acts) fs =
    AllFollow-step before after t t' (Acts-Follows acts) fs
