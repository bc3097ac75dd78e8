-- ===== src/Tests/Buffers.antt =====
-- The stack and the queue on concrete contents.
use code_learning.Base.{
  ℕ, zero, suc, ◌+◌, ◌<◌, ◌≡◌, refl, [], ◌∷◌, arith, ◌==◌, Bool, true, read, some,
}
use code_learning.Base.Int.{pos, pos_part}
use code_learning.Stack.{StackRecord, create_stack}
use code_learning.Stack.Contents.{Represents}
use code_learning.Queue.{QueueRecord}
use code_learning.Queue.Contents.{Holds, wrap}

abbrev is_full : StackRecord ℕ → Bool
is_full s = pos_part s.top_of_stack + 1 == s.capacity

abbrev two_items : StackRecord ℕ
two_items = record { capacity = 3; top_of_stack = pos 1; array = 5 ∷ 6 ∷ 0 ∷ [] }

two_items-Represents : Represents two_items (5 ∷ 6 ∷ [])
unfolding read
two_items-Represents = record { room = refl; fits = omega arith; top_is = refl; holds = held }
  where
    held : (i : ℕ) → i < 2 → read {A = ℕ} (5 ∷ 6 ∷ 0 ∷ []) i ≡ read (5 ∷ 6 ∷ []) i
    held zero h = refl
    held (suc zero) h = refl
    held (suc (suc i)) h = absurd (omega arith)

abbrev new_stack : StackRecord ℕ
new_stack = record { capacity = 2; top_of_stack = pos 4; array = 0 ∷ 0 ∷ [] }

created : create_stack true (pos 4) new_stack.array 2 ≡ some new_stack
unfolding create_stack
created = refl

abbrev queue_full : QueueRecord ℕ → Bool
queue_full q = q.size == q.capacity

-- the elements run past the end of the array
abbrev wrapped : QueueRecord ℕ
wrapped = record { capacity = 3; front = 2; rear = 0; size = 2; array = 6 ∷ 0 ∷ 5 ∷ [] }

wrapped-Holds : Holds wrapped (5 ∷ 6 ∷ [])
unfolding read
wrapped-Holds = record {
  room = refl;
  positive = omega arith;
  front_in = omega arith;
  size_is = refl;
  fits = omega arith;
  rear_in = omega arith;
  rear_is = refl;
  holds = held;
}
  where
    held : (i : ℕ) → i < 2 → read {A = ℕ} (6 ∷ 0 ∷ 5 ∷ []) (wrap 3 (2 + i)) ≡ read (5 ∷ 6 ∷ []) i
    held zero h = refl
    held (suc zero) h = refl
    held (suc (suc i)) h = absurd (omega arith)

full_test : queue_full wrapped ≡ (2 == 3)
full_test = refl
