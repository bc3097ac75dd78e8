-- ===== src/Stack/Contents.antt =====
-- The stack against the list of its elements.
use code_learning.Base.{
  ℕ, zero, suc, ◌≤◌, ◌<◌, ◌≡◌, refl, ap, ◌∙◌, sym, arith, Bool, true, false, List, [], ◌∷◌, ◌++◌,
  ◌==◌, ok, ◌>>=◌, read, read-set, write-ok, set, length, length-set, length-append, Yields, yields,
  some, Bool-cases, inl, inr,
}
use code_learning.Base.Int.{ℤ, pos, negsuc, ◌+ℤ◌, ◌-ℤ◌}
use code_learning.Stack.{
  StackRecord, index, create_stack, is_empty, make_empty, pop, push, top, top_and_pop,
}

-- the number of elements less one
abbrev last_index : ℕ → ℤ
last_index zero = negsuc 0
last_index (suc n) = pos n

-- the array holds the elements `xs`, the lowest first
pub record Represents {A : Type 0} (s : StackRecord A) (xs : List A) : Type 0 where
  pub room : length s.array ≡ s.capacity
  pub fits : length xs ≤ s.capacity
  pub top_is : s.top_of_stack ≡ last_index (length xs)
  pub holds : (i : ℕ) → i < length xs → read s.array i ≡ read xs i

before_last : (n : ℕ) → pos n -ℤ pos 1 ≡ last_index n
unfolding ◌-ℤ◌
before_last zero = refl
before_last (suc n) = ground arith

after_last : (n : ℕ) → last_index n +ℤ pos 1 ≡ pos n
unfolding ◌+ℤ◌
after_last zero = refl
after_last (suc n) = ground arith

module _ {A : Type 0} where
  pub read-append_left : (xs ys : List A) (i : ℕ) → i < length xs → read (xs ++ ys) i ≡ read xs i
  unfolding read
  read-append_left [] ys i h = absurd (omega arith)
  read-append_left (x ∷ xs) ys zero h = refl
  read-append_left (x ∷ xs) ys (suc i) h = read-append_left xs ys i (omega arith)

  pub read-append_last : (xs : List A) (x : A) → read (xs ++ x ∷ []) (length xs) ≡ ok x
  unfolding read
  read-append_last [] x = refl
  read-append_last (y ∷ xs) x = read-append_last xs x

  pub length-snoc : (xs : List A) (x : A) → length (xs ++ x ∷ []) ≡ suc (length xs)
  length-snoc xs x = omega (arith, length-append xs (x ∷ []))

  -- `CreateStack` does not set `TopOfStack`; after `MakeEmpty` the stack is empty.
  make_empty-Represents :
      (junk : ℤ) (raw : List A) (max_elements : ℕ) (s : StackRecord A)
      → length raw ≡ max_elements
      → create_stack true junk raw max_elements ≡ some s
      → Represents (make_empty s) []
  unfolding make_empty create_stack
  make_empty-Represents junk raw max_elements s room e = record {
    room = ground arith;
    fits = omega arith;
    top_is = refl;
    holds = λ i h. absurd (omega arith);
  }

  -- what is known of a stack with a last element
  module _ (s : StackRecord A) (xs : List A) (x : A) (r : Represents s (xs ++ x ∷ [])) where
    top_at : s.top_of_stack ≡ pos (length xs)
    top_at = r.top_is ∙ ap last_index (length-snoc xs x)

    not_empty : is_empty s ≡ false
    unfolding is_empty
    not_empty = rw top_at (ground arith)

    last_element : read s.array (length xs) ≡ ok x
    last_element = r.holds (length xs) (omega (arith, length-snoc xs x)) ∙ read-append_last xs x

    lowered : Represents (record s { top_of_stack = s.top_of_stack -ℤ pos 1 }) xs
    lowered = record {
      room = r.room;
      fits = omega (arith, r.fits, length-snoc xs x);
      top_is = rw top_at (before_last (length xs));
      holds = λ i h. r.holds i (omega (arith, length-snoc xs x)) ∙ read-append_left xs (x ∷ []) i h;
    }

    -- `Top` returns the last element; `Pop` takes it away; `TopAndPop` does both.
    top-pop-Represents :
        (zero_element : A)
        → (top zero_element s ≡ ok x)
          × Represents (pop s) xs
          × (top_and_pop zero_element s ≡ ok (x, pop s))
    unfolding top pop top_and_pop index
    top-pop-Represents zero_element = (
      rw (not_empty, top_at) last_element,
      rw not_empty lowered,
      rw (not_empty, top_at, ◌>>=◌, last_element),
    )

  -- `Push` on a stack that is not full puts the element behind the others.
  push-Represents :
      (is_full : StackRecord A → Bool) (s : StackRecord A) (xs : List A) (x : A)
      → is_full s ≡ (length xs == s.capacity)
      → Represents s xs
      → length xs < s.capacity
      → Yields (λ s'. Represents s' (xs ++ x ∷ [])) (push is_full x s)
  unfolding push index
  push-Represents is_full s xs x full r lt =
      let room = r.room in
      let closed : (length xs == s.capacity) ≡ false = ground arith in
      let top_is : s.top_of_stack +ℤ pos 1 ≡ pos (length xs) =
        rw r.top_is (after_last (length xs)) in
      rw (full, closed, top_is, ◌>>=◌, write-ok s.array (length xs) x (omega arith))
        (yields (record {
          room = length-set s.array (length xs) x ∙ room;
          fits = omega (arith, length-snoc xs x);
          top_is = sym (ap last_index (length-snoc xs x));
          holds = λ i h. elim (Bool-cases (length xs == i)) [
            | inl e ↦ at i (ground arith)
            | inr ne ↦ ground (
              arith,
              read-set s.array (length xs) i x (omega arith),
              r.holds i (below i h ne),
              read-append_left xs (x ∷ []) i (below i h ne),
            )
          ];
        }))
    where
      below : (i : ℕ) → i < length (xs ++ x ∷ []) → (length xs == i) ≡ false → i < length xs
      below i h ne = ground (arith, length-snoc xs x)

      at : (i : ℕ) → length xs ≡ i → read (set s.array (length xs) x) i ≡ read (xs ++ x ∷ []) i
      at i e = rw (← e) (
          ground (
            arith,
            read-set s.array (length xs) (length xs) x (omega (arith, r.room)),
            read-append_last xs x,
          ))

  -- `Push` on a full stack changes nothing.
  push-full :
      (is_full : StackRecord A → Bool) (s : StackRecord A) (x : A)
      → is_full s ≡ true
      → push is_full x s ≡ ok s
  unfolding push
  push-full is_full s x full = rw full
