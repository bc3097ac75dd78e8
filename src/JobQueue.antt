-- ===== src/JobQueue.antt =====
-- apue/11.6.4job_queue.c: a queue of jobs, linked both ways, on an explicit memory. A pointer is an
-- address, 0 is `NULL`, and a job that is not allocated is `none`. Every function holds the lock of
-- the queue from its first access to its last, so a step is a whole function. The missing semicolon
-- of `job_insert` is read as there.
pub mod Links
pub mod Insert
pub mod Remove
pub mod Find
pub mod Reach
use code_learning.Base.{
  ℕ, zero, suc, Bool, true, false, ◌==◌, if◌then◌else◌, Option, none, some, Run, ok, fault,
  out_of_fuel, ◌>>=◌,
}

pub record Job : Type 0 where
  pub next : ℕ
  pub prev : ℕ
  pub id : ℕ

abbrev pub Memory : Type 0
Memory = ℕ → Option Job

-- the queue and the jobs that it points to
pub record JobQueue : Type 0 where
  pub head : ℕ
  pub tail : ℕ
  pub jobs : Memory

-- *jp
unfoldable pub load : Memory → ℕ → Run Job
load m zero = fault
load m (suc p) = elim (m (suc p)) [ none ↦ fault | some j ↦ ok j ]

-- the memory with another job at one address
unfoldable pub update : Memory → ℕ → Job → Memory
update m p j q = if p == q then some j else m q

-- jp->j_next = q
unfoldable pub set_next : Memory → (jp q : ℕ) → Run Memory
set_next m jp q = load m jp >>= λ j. ok (update m jp (record j { next = q }))

-- jp->j_prev = q
unfoldable pub set_prev : Memory → (jp q : ℕ) → Run Memory
set_prev m jp q = load m jp >>= λ j. ok (update m jp (record j { prev = q }))

-- `err` is the result of `pthread_rwlock_init`
unfoldable pub queue_init : (err : ℕ) → JobQueue → JobQueue × ℕ
queue_init err qp = (record qp { head = 0; tail = 0 }, if err == 0 then 0 else err)

-- the job in front of the others, its own links set
unfoldable pub insert_placed : JobQueue → (jp : ℕ) → Memory → Run JobQueue
insert_placed qp jp m =
    let first = ok (record { head = jp; tail = jp; jobs = m }) in
    let before : Run JobQueue =
      set_prev m qp.head jp >>= λ m₁. ok (record { head = jp; tail = qp.tail; jobs = m₁ }) in
    if qp.head == 0 then first else before

unfoldable pub job_insert : JobQueue → (jp : ℕ) → Run JobQueue
job_insert qp jp = do m ← set_next qp.jobs jp qp.head; m₁ ← set_prev m jp 0; insert_placed qp jp m₁

-- the job behind the others, its own links set
unfoldable pub append_placed : JobQueue → (jp : ℕ) → Memory → Run JobQueue
append_placed qp jp m =
    let first = ok (record { head = jp; tail = jp; jobs = m }) in
    let behind : Run JobQueue =
      set_next m qp.tail jp >>= λ m₁. ok (record { head = qp.head; tail = jp; jobs = m₁ }) in
    if qp.tail == 0 then first else behind

unfoldable pub job_append : JobQueue → (jp : ℕ) → Run JobQueue
job_append qp jp = do m ← set_next qp.jobs jp 0; m₁ ← set_prev m jp qp.tail; append_placed qp jp m₁

-- The first test of the branch assigns `jp` to the tail, so that it holds of every pointer but
-- `NULL`.
unfoldable pub remove_head : JobQueue → (jp : ℕ) → Run JobQueue
remove_head qp jp = do
  j ← load qp.jobs jp
  let emptied = ok (record { head = j.next; tail = 0; jobs = qp.jobs })
  let rest : Run JobQueue =
      set_prev qp.jobs j.next j.prev >>= λ m. ok (record { head = j.next; tail = jp; jobs = m })
  if jp == 0 then rest else emptied

unfoldable pub remove_tail : JobQueue → (jp : ℕ) → Run JobQueue
remove_tail qp jp = do
  j ← load qp.jobs jp
  m ← set_next qp.jobs j.prev j.next
  ok (record { head = qp.head; tail = j.prev; jobs = m })

unfoldable pub remove_inner : JobQueue → (jp : ℕ) → Run JobQueue
remove_inner qp jp = do
  j ← load qp.jobs jp
  m ← set_next qp.jobs j.prev j.next
  j₁ ← load m jp
  m₁ ← set_prev m j₁.next j₁.prev
  ok (record { head = qp.head; tail = qp.tail; jobs = m₁ })

unfoldable pub job_remove : JobQueue → (jp : ℕ) → Run JobQueue
job_remove qp jp =
    let other = if jp == qp.tail then remove_tail qp jp else remove_inner qp jp in
    if jp == qp.head then remove_head qp jp else other

-- `equal` is `pthread_equal`
module _ (equal : ℕ → ℕ → Bool) where
  unfoldable pub find_from : ℕ → Memory → (id jp : ℕ) → Run ℕ
  find_from zero m id jp = out_of_fuel
  find_from (suc k) m id jp =
      let body = load m jp >>= λ j.
      (let rest = find_from k m id j.next in if equal j.id id then ok jp else rest) in
      if jp == 0 then ok jp else body

  -- `locked`: `pthread_rwlock_rdlock` returns 0
  unfoldable pub job_find : ℕ → (locked : Bool) → JobQueue → (id : ℕ) → Run ℕ
  job_find k true qp id = find_from k qp.jobs id qp.head
  job_find k false qp id = ok 0
