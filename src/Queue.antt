-- ===== src/Queue.antt =====
-- data_structure_and_algorithm/queue/queue.c: a bounded queue in a circular array, of elements of
-- any type. `IsFull` is not defined in the file and comes as a parameter; neither are the
-- operations that take an element out, so that only the way in is modelled.
pub mod Contents
use code_learning.Base.{ℕ, suc, ◌+◌, Bool, List, ◌==◌, if◌then◌else◌, Run, ok, ◌>>=◌, write}

pub record QueueRecord (A : Type 0) : Type 0 where
  pub capacity : ℕ
  pub front : ℕ
  pub rear : ℕ
  pub size : ℕ
  pub array : List A

module _ {A : Type 0} where
  unfoldable pub is_empty : QueueRecord A → Bool
  is_empty q = q.size == 0

  unfoldable pub make_empty : QueueRecord A → QueueRecord A
  make_empty q = record q { size = 0; front = 1; rear = 0 }

  -- `Succ`
  unfoldable pub successor : ℕ → QueueRecord A → ℕ
  successor value q = if value + 1 == q.capacity then 0 else value + 1

module _ {A : Type 0} (is_full : QueueRecord A → Bool) where
  unfoldable pub enqueue : A → QueueRecord A → Run (QueueRecord A)
  unfolding successor
  enqueue x q = if is_full q then ok q else (do
    let rear = successor q.rear q
    a ← write q.array rear x
    ok (record q { size = q.size + 1; rear = rear; array = a }))
