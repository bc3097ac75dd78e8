-- ===== src/JobQueue/Find.antt =====
-- What `job_find` finds.
use code_learning.Base.{
  ℕ, zero, suc, ◌<◌, ◌≡◌, refl, arith, Bool, true, false, List, [], ◌∷◌, ◌++◌, length, ok, ◌>>=◌,
  Yields, yields, Yields-weaken, Bool-cases, inl, inr,
}
use code_learning.JobQueue.{Job, Memory, JobQueue, load, find_from, job_find}
use code_learning.JobQueue.Insert.{is_zero}
use code_learning.JobQueue.Links.{Segment, Holds, load-nonzero}

module _ (equal : ℕ → ℕ → Bool) where
  -- the job at `x` has the identifier, or has another one
  abbrev Has : Memory → ℕ → Bool → ℕ → Type 0
  Has m id answer x = (j : Job) × (load m x ≡ ok j) × (equal j.id id ≡ answer)

  abbrev NoneHas : Memory → ℕ → List ℕ → Type 0
  NoneHas m id [] = Unit
  NoneHas m id (x ∷ l) = Has m id false x × NoneHas m id l

  -- the first job with the identifier, or `NULL` where none has it
  pub data Found (m : Memory) (id : ℕ) : List ℕ → ℕ → Type 0 where
    missing : {l : List ℕ} → NoneHas m id l → Found m id l 0
    found :
        (before : List ℕ) (p : ℕ) (after : List ℕ)
        → NoneHas m id before
        → Has m id true p
        → Found m id (before ++ p ∷ after) p

  behind :
      (m : Memory) (id x : ℕ) {l : List ℕ} {p : ℕ}
      → Has m id false x
      → Found m id l p
      → Found m id (x ∷ l) p
  behind m id x h (missing n) = missing (h, n)
  behind m id x h (found before p after n g) = found (x ∷ before) p after (h, n) g

  find_from-Found :
      (k : ℕ) (m : Memory) (id b f : ℕ) (l : List ℕ) (e : ℕ)
      → Segment m b f l e 0
      → length l < k
      → Yields (Found m id l) (find_from equal k m id f)
  unfolding find_from
  find_from-Found zero m id b f l e s lt = absurd (omega arith)
  find_from-Found (suc k) m id b f [] e (at, back) lt = rw (is_zero f at, at) (yields (missing tt))
  find_from-Found (suc k) m id b f (x ∷ l) e (at, (j, h, p, s)) lt =
      rw (at, load-nonzero m x h, h, ◌>>=◌)
        (elim (Bool-cases (equal j.id id)) [
          | inl yes_case ↦ rw yes_case (yields (found [] x l tt (j, h, yes_case)))
          | inr no_case ↦ rw no_case (
              Yields-weaken (find_from-Found k m id x j.next l e s (omega arith))
                (λ r. behind m id x (j, h, no_case)))
        ])

  -- Where the lock is taken, job_find ends and returns the first of the jobs that the queue holds
  -- with the identifier, or `NULL` where none has it; and `NULL` where the lock is not taken.
  pub job_find-Found :
      (k id : ℕ) (l : List ℕ) (q : JobQueue)
      → Holds l q
      → length l < k
      → Yields (Found q.jobs id l) (job_find equal k true q id)
        × (job_find equal k false q id ≡ ok 0)
  unfolding job_find
  job_find-Found k id l q held lt =
      (find_from-Found k q.jobs id 0 q.head l q.tail held.links lt, refl)
