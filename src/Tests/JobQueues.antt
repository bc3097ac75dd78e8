-- ===== src/Tests/JobQueues.antt =====
-- The queue of jobs on a concrete memory.
use code_learning.Base.{
  ◌≡◌, refl, arith, ◌==◌, if◌then◌else◌, [], ◌∷◌, none, some, ok, true, false, ◌>>=◌, Yields,
}
use code_learning.JobQueue.{
  Memory, JobQueue, load, update, set_next, set_prev, queue_init, insert_placed, job_insert,
  append_placed, job_append, remove_head, remove_tail, job_remove, find_from, job_find,
}
use code_learning.JobQueue.Links.{Holds}
use code_learning.JobQueue.Remove.{job_remove-Holds, job_remove-job_append-lost}
use code_learning.JobQueue.Find.{Found, job_find-Found}
use code_learning.JobQueue.Reach.{initial, inserted, appended, removed, Reaches-Holds}

-- jobs at 1, 2 and 3 in the queue, and one at 4 that is not
abbrev memory : Memory
memory p =
    if p == 1
    then some (record { next = 2; prev = 0; id = 10 })
    else if p == 2
    then some (record { next = 3; prev = 1; id = 20 })
    else if p == 3
    then some (record { next = 0; prev = 2; id = 20 })
    else if p == 4
    then some (record { next = 7; prev = 9; id = 40 })
    else none

abbrev three : JobQueue
three = record { head = 1; tail = 3; jobs = memory }

three-Holds : Holds (1 ∷ 2 ∷ 3 ∷ []) three
unfolding load
three-Holds = record {
  links = (refl, (_, refl, refl, (refl, (_, refl, refl, (refl, (_, refl, refl, (refl, refl)))))));
  distinct = ((refl, (refl, tt)), ((refl, tt), (tt, tt)));
}

-- the second job with a used identifier is not found
job_find_run : job_find ◌==◌ 4 true three 20 ≡ ok 2
unfolding job_find find_from load
job_find_run = refl

-- the first job taken out: the tail is `NULL`
job_remove_run : job_remove three 1 ≡ ok (record { head = 2; tail = 0; jobs = memory })
unfolding job_remove remove_head load
job_remove_run = refl

job_remove-Holds_example : Yields (Holds (1 ∷ 3 ∷ [])) (job_remove three 2)
job_remove-Holds_example = job_remove-Holds [] (3 ∷ []) three 1 2 three-Holds

job_remove-job_append-lost_example :
    Yields (Holds (4 ∷ [])) (job_remove three 1 >>= λ q. job_append q 4)
unfolding load
job_remove-job_append-lost_example =
    job_remove-job_append-lost (2 ∷ 3 ∷ []) three 1 4 three-Holds refl

job_find-Found_example :
    Yields (Found ◌==◌ memory 20 (1 ∷ 2 ∷ 3 ∷ [])) (job_find ◌==◌ 4 true three 20)
    × (job_find ◌==◌ 4 false three 20 ≡ ok 0)
job_find-Found_example = job_find-Found ◌==◌ 4 20 (1 ∷ 2 ∷ 3 ∷ []) three three-Holds (omega arith)

-- a fresh queue into which the job at 1 is put and behind it the one at 4, which is then taken out
abbrev one_job : JobQueue
unfolding update
one_job = record {
  head = 1;
  tail = 1;
  jobs =
      update
        (update
          (update
            (update
              (update (update memory 1 (record { next = 0; prev = 0; id = 10 })) 1
                (record { next = 0; prev = 0; id = 10 }))
              4 (record { next = 0; prev = 9; id = 40 }))
            4 (record { next = 0; prev = 1; id = 40 }))
          1 (record { next = 4; prev = 0; id = 10 }))
        1 (record { next = 0; prev = 0; id = 10 });
}

Reaches-Holds_example : Holds (1 ∷ []) one_job
unfolding queue_init job_insert insert_placed job_append append_placed job_remove remove_tail
    set_next set_prev load update
Reaches-Holds_example = Reaches-Holds (1 ∷ []) one_job (
    removed [] [] 1 4 (appended 4 (inserted 1 (initial 0 three) tt refl refl) (refl, tt) refl refl)
      refl)
