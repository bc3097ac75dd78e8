-- ===== src/JobQueue/Reach.antt =====
-- The queues that a program reaches by the operations on one queue, in any order.
use code_learning.Base.{ℕ, ◌≡◌, refl, List, [], ◌∷◌, ◌++◌, Run, ok, Yields, yields}
use mathlib.Core.Path.{subst}
use code_learning.JobQueue.{Job, JobQueue, load, queue_init, job_insert, job_append, job_remove}
use code_learning.JobQueue.Links.{NotIn, Holds}
use code_learning.JobQueue.Insert.{job_insert-Holds, job_append-Holds}
use code_learning.JobQueue.Remove.{job_remove-Holds, job_remove_only-Holds}

-- `q` is reached from a fresh queue, with the jobs `l` in it, by jobs put in front or behind that are
-- not in the queue, and by jobs taken out that are not the first of several
pub data Reaches : List ℕ → JobQueue → Type 0 where
  initial : (err : ℕ) (q : JobQueue) → Reaches [] (queue_init err q).0
  inserted :
      {l : List ℕ} {q q' : JobQueue} (jp : ℕ) {j : Job}
      → Reaches l q
      → NotIn jp l
      → load q.jobs jp ≡ ok j
      → job_insert q jp ≡ ok q'
      → Reaches (jp ∷ l) q'
  appended :
      {l : List ℕ} {q q' : JobQueue} (jp : ℕ) {j : Job}
      → Reaches l q
      → NotIn jp l
      → load q.jobs jp ≡ ok j
      → job_append q jp ≡ ok q'
      → Reaches (l ++ jp ∷ []) q'
  removed :
      (l l' : List ℕ) (y x : ℕ) {q q' : JobQueue}
      → Reaches ((l ++ y ∷ []) ++ x ∷ l') q
      → job_remove q x ≡ ok q'
      → Reaches ((l ++ y ∷ []) ++ l') q'
  removed_only :
      (x : ℕ) {q q' : JobQueue} → Reaches (x ∷ []) q → job_remove q x ≡ ok q' → Reaches [] q'

value : {P : JobQueue → Type 0} {m : Run JobQueue} {q : JobQueue} → Yields P m → m ≡ ok q → P q
value {P = P} (yields {a} p) e = subst P (ok_injective e) p
  where
    ok_injective : {a b : JobQueue} → ok a ≡ ok b → a ≡ b
    ok_injective e = cc

-- A queue that is reached from a fresh one by job_insert and job_append of jobs that are in memory and
-- not in the queue, and by job_remove of jobs in the queue that are not the first of several, holds
-- its jobs, each once, in their order, linked both ways.
pub Reaches-Holds : (l : List ℕ) (q : JobQueue) → Reaches l q → Holds l q
unfolding queue_init
Reaches-Holds l q (initial err q₀) = record { links = (refl, refl); distinct = tt }
Reaches-Holds l q (inserted jp r fresh h e) =
    value (job_insert-Holds _ _ jp (Reaches-Holds _ _ r) fresh h) e
Reaches-Holds l q (appended jp r fresh h e) =
    value (job_append-Holds _ _ jp (Reaches-Holds _ _ r) fresh h) e
Reaches-Holds l q (removed l₁ l' y x r e) =
    value (job_remove-Holds l₁ l' _ y x (Reaches-Holds _ _ r)) e
Reaches-Holds l q (removed_only x r e) = value (job_remove_only-Holds _ x (Reaches-Holds _ _ r)) e
