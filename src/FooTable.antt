-- ===== src/FooTable.antt =====
-- apue/11.6.2avoid_deadlock1.c: counted objects in a hash table with chains, on an explicit memory. A
-- pointer is an address, 0 is `NULL`. Each function gives the locks that it takes and gives back, in
-- order. `foo_rele` gives its lock back and takes two again, so it is two steps, between which
-- other threads run.
pub mod Chains
pub mod Alloc
pub mod Search
pub mod Release
pub mod Locks
pub mod Progress
pub mod Traces
use code_learning.Base.{
  ℕ, zero, suc, ◌+◌, ◌-◌, ◌%◌, ◌^◌, ◌==◌, ltb, if◌then◌else◌, Bool, true, false, List, [], ◌∷◌,
  ◌++◌, Option, none, some, Run, ok, fault, out_of_fuel, ◌>>=◌, read, write,
}
use code_learning.Base.Int.{ℤ, pos, negsuc, ◌+ℤ◌, ◌-ℤ◌, eqb_ℤ, ltb_ℤ}

pub record Foo : Type 0 where
  pub count : ℤ
  pub id : ℤ
  pub next : ℕ

abbrev pub Memory : Type 0
Memory = ℕ → Option Foo

-- `fh` and the objects
pub record Table : Type 0 where
  pub heads : List ℕ
  pub foos : Memory

pub data Lock : Type 0 where
  hashlock : Lock
  f_lock : ℕ → Lock

pub data Action : Type 0 where
  takes gives_back : Lock → Action

abbrev pub nhash : ℕ
nhash = 29

-- HASH(id): the conversion to `unsigned long`, of 64 bits
unfoldable pub hash : ℤ → ℕ
hash (pos n) = n % nhash
hash (negsuc n) = (2 ^ 64 - 1 - n) % nhash

-- *fp
unfoldable pub load : Memory → ℕ → Run Foo
load m zero = fault
load m (suc p) = elim (m (suc p)) [ none ↦ fault | some f ↦ ok f ]

-- the memory with another object at one address
unfoldable pub update : Memory → ℕ → Foo → Memory
update m p f q = if p == q then some f else m q

-- `fp` is the result of `malloc`, and `locked` tells whether `pthread_mutex_init` returns 0. An object
-- that is freed at once was never seen.
unfoldable pub foo_alloc :
    (fp : ℕ) → (locked : Bool) → Table → (id : ℤ) → Run (Table × ℕ × List Action)
foo_alloc zero locked t id = ok (t, 0, [])
foo_alloc (suc p) false t id = ok (t, 0, [])
foo_alloc (suc p) true t id = do
  head ← read t.heads (hash id)
  heads ← write t.heads (hash id) (suc p)
  ok (
    record {
      heads = heads;
      foos = update t.foos (suc p) (record { count = pos 1; id = id; next = head });
    },
    suc p,
    takes hashlock
        ∷ takes (f_lock (suc p))
        ∷ gives_back hashlock
        ∷ gives_back (f_lock (suc p))
        ∷ [],
  )

-- `f_count++`, which C leaves undefined for the largest `int`
unfoldable pub foo_hold : Table → (fp : ℕ) → Run (Table × List Action)
foo_hold t fp = do
  f ← load t.foos fp
  let held : Run (Table × List Action) = ok (
    record t { foos = update t.foos fp (record f { count = f.count +ℤ pos 1 }) },
    takes (f_lock fp) ∷ gives_back (f_lock fp) ∷ [],
  )
  if ltb_ℤ f.count (pos (2 ^ 31 - 1)) then held else fault

-- the loop of `foo_find`
unfoldable pub find_from : ℕ → Table → (id : ℤ) → (fp : ℕ) → Run (Table × ℕ × List Action)
find_from zero t id fp = out_of_fuel
find_from (suc k) t id fp =
    let body : Run (Table × ℕ × List Action) = load t.foos fp >>= λ f.
    (let rest = find_from k t id f.next in
      let held : Run (Table × ℕ × List Action) = foo_hold t fp >>= λ r. ok (r.0, fp, r.1) in
      if eqb_ℤ f.id id then held else rest) in
    if fp == 0 then ok (t, 0, []) else body

unfoldable pub foo_find : ℕ → Table → (id : ℤ) → Run (Table × ℕ × List Action)
foo_find k t id = do
  head ← read t.heads (hash id)
  r ← find_from k t id head
  ok (r.0, r.1, takes hashlock ∷ r.2 ++ gives_back hashlock ∷ [])

-- `f_count--`
unfoldable pub lower : Table → (fp : ℕ) → Foo → Table
lower t fp f = record t { foos = update t.foos fp (record f { count = f.count -ℤ pos 1 }) }

-- `foo_rele` as far as the lock is given back: whether it goes on
unfoldable pub rele_first : Table → (fp : ℕ) → Run (Table × Bool × List Action)
rele_first t fp = do
  f ← load t.foos fp
  let actions = takes (f_lock fp) ∷ gives_back (f_lock fp) ∷ []
  if eqb_ℤ f.count (pos 1) then ok (t, true, actions) else ok (lower t fp f, false, actions)

-- while (tfp->f_next != fp) tfp = tfp->f_next; and the assignment behind it
unfoldable pub unlink : ℕ → Memory → (tfp fp next : ℕ) → Run Memory
unlink zero m tfp fp next = out_of_fuel
unlink (suc k) m tfp fp next = do
  f ← load m tfp
  let rest = unlink k m f.next fp next
  if f.next == fp then ok (update m tfp (record f { next = next })) else rest

-- the object is taken out of the table
unfoldable pub remove : ℕ → Table → (fp : ℕ) → Foo → Run Table
remove k t fp f = do
  tfp ← read t.heads (hash f.id)
  let first : Run Table =
      write t.heads (hash f.id) f.next >>= λ heads. ok (record t { heads = heads })
  let later : Run Table = unlink k t.foos tfp fp f.next >>= λ m. ok (record t { foos = m })
  if tfp == fp then first else later

-- the rest of `foo_rele`, where it goes on
unfoldable pub rele_second : ℕ → Table → (fp : ℕ) → Run (Table × List Action)
rele_second k t fp = do
  f ← load t.foos fp
  let others : Run (Table × List Action) = ok (
    lower t fp f,
    takes hashlock ∷ takes (f_lock fp) ∷ gives_back (f_lock fp) ∷ gives_back hashlock ∷ [],
  )
  let last : Run (Table × List Action) = remove k t fp f >>= λ t₁.
      ok
        (t₁, takes hashlock ∷ takes (f_lock fp) ∷ gives_back hashlock ∷ gives_back (f_lock fp) ∷ [])
  if eqb_ℤ f.count (pos 1) then last else others
