-- ===== src/Queue/Contents.antt =====
-- The queue against the list of its elements.
use code_learning.Base.{
  ℕ, ◌+◌, ◌-◌, ◌≤◌, ◌<◌, ◌≡◌, refl, ◌∙◌, arith, Bool, true, false, List, [], ◌∷◌, ◌++◌, leb, ◌==◌,
  if◌then◌else◌, ok, read, read-set, write-ok, length, length-set, Yields, yields, Bool-cases, inl,
  inr,
}
use code_learning.Queue.{QueueRecord, is_empty, make_empty, successor, enqueue}
use code_learning.Stack.Contents.{read-append_left, read-append_last, length-snoc}

-- the place of an index that may have run past the end once
abbrev pub wrap : (capacity i : ℕ) → ℕ
wrap capacity i = if leb capacity i then i - capacity else i

-- the array holds the elements `xs` from `Front` on, the oldest first, and `Rear` is the last one's
-- place
pub record Holds {A : Type 0} (q : QueueRecord A) (xs : List A) : Type 0 where
  pub room : length q.array ≡ q.capacity
  pub positive : 1 ≤ q.capacity
  pub front_in : q.front ≤ q.capacity
  pub size_is : q.size ≡ length xs
  pub fits : length xs ≤ q.capacity
  pub rear_in : q.rear < q.capacity
  pub rear_is : wrap q.capacity (q.rear + 1) ≡ wrap q.capacity (wrap q.capacity (q.front + q.size))
  pub holds : (i : ℕ) → i < length xs → read q.array (wrap q.capacity (q.front + i)) ≡ read xs i

module _ {A : Type 0} where
  -- `MakeEmpty` empties a queue of whatever content.
  make_empty-Holds :
      (q : QueueRecord A)
      → length q.array ≡ q.capacity
      → 1 ≤ q.capacity
      → Holds (make_empty q) [] × (is_empty (make_empty q) ≡ true)
  unfolding make_empty is_empty
  make_empty-Holds q room pos = (
    record {
      room = room;
      positive = pos;
      front_in = pos;
      size_is = refl;
      fits = omega arith;
      rear_in = pos;
      rear_is = ground arith;
      holds = λ i h. absurd (omega arith);
    },
    refl,
  )

  -- `Enqueue` in a queue that is not full puts the element behind the others.
  enqueue-Holds :
      (is_full : QueueRecord A → Bool) (q : QueueRecord A) (xs : List A) (x : A)
      → is_full q ≡ (q.size == q.capacity)
      → Holds q xs
      → length xs < q.capacity
      → Yields (λ q'. Holds q' (xs ++ x ∷ [])) (enqueue is_full x q)
  unfolding enqueue successor
  enqueue-Holds is_full q xs x full r lt =
      let room = r.room in
      let size_is = r.size_is in
      let front_in = r.front_in in
      let rear_in = r.rear_in in
      let rear_is = r.rear_is in
      let closed : (q.size == q.capacity) ≡ false = ground arith in
      let rear = successor q.rear q in
      let at : rear ≡ wrap q.capacity (q.front + q.size) = ground arith in
      let inside : rear < length q.array = ground arith in
      rw (full, closed, write-ok q.array rear x inside)
        (yields (record {
          room = length-set q.array rear x ∙ room;
          positive = r.positive;
          front_in = front_in;
          size_is = omega (arith, length-snoc xs x);
          fits = omega (arith, length-snoc xs x);
          rear_in = omega arith;
          rear_is = ground arith;
          holds = λ i h. elim (Bool-cases (length xs == i)) [
            | inl e ↦
                let here : length xs ≡ i = ground arith in
                rw (← here) (
                  ground (
                    arith,
                    read-set q.array rear (wrap q.capacity (q.front + length xs)) x inside,
                    read-append_last xs x,
                  ))
            | inr ne ↦
                let before : i < length xs = ground (arith, length-snoc xs x) in
                ground (
                  arith,
                  read-set q.array rear (wrap q.capacity (q.front + i)) x inside,
                  r.holds i before,
                  read-append_left xs (x ∷ []) i before,
                )
          ];
        }))

  -- `Enqueue` in a full queue changes nothing.
  enqueue-full :
      (is_full : QueueRecord A → Bool) (q : QueueRecord A) (x : A)
      → is_full q ≡ true
      → enqueue is_full x q ≡ ok q
  unfolding enqueue
  enqueue-full is_full q x full = rw full
