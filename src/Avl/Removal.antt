-- ===== src/Avl/Removal.antt =====
-- Runs that end with a fault or a value, and the rotations after a deletion.
use code_learning.Base.{
  ℕ, ◌+◌, ◌-◌, ◌≡◌, refl, arith, same, ltb, Bool, true, false, Run, ok, fault, ◌==◌, if◌then◌else◌,
  ◌>>=◌,
}
use code_learning.Avl.{
  Tree, leaf, node, height, deleted_left, deleted_right, set_height, set_height_if, element,
  left_left_rotate, left_right_rotate, right_right_rotate, right_left_rotate,
}
use code_learning.Avl.Contents.{occurs, IsSearch}
use code_learning.Avl.Rotate.{Turned, turn_left, turn_right, in_left, in_right, Turned-trans}

-- the run ends, with a fault or with a value of which `P` holds
pub data Ends {A : Type 0} (P : A → Type 0) : Run A → Type 0 where
  value : {a : A} → P a → Ends P (ok a)
  faulty : Ends P fault

module _ {A B : Type 0} {P : A → Type 0} {Q : B → Type 0} where
  pub Ends-bind :
      {m : Run A} {f : A → Run B} → Ends P m → ((a : A) → P a → Ends Q (f a)) → Ends Q (m >>= f)
  Ends-bind (value p) next = next _ p
  Ends-bind faulty next = faulty

pub Ends-weaken :
    {A : Type 0} {P Q : A → Type 0} {m : Run A} → Ends P m → ((a : A) → P a → Q a) → Ends Q m
Ends-weaken (value p) weaken = value (weaken _ p)
Ends-weaken faulty weaken = faulty

pub Ends-split :
    {A : Type 0} {P : A → Type 0} (b : Bool) {m n : Run A}
    → (b ≡ true → Ends P m)
    → (b ≡ false → Ends P n)
    → Ends P (if b then m else n)
Ends-split true yes_case no_case = yes_case refl
Ends-split false yes_case no_case = no_case refl

-- the tree without `x`, in search order
pub record Removed (x : ℕ) (t t' : Tree) : Type 0 where
  pub counts : (v : ℕ) → occurs v t' ≡ occurs v t - same v x
  pub search : IsSearch t'

pub Removed-Turned : {x : ℕ} {t u w : Tree} → Removed x t u → Turned u w → Removed x t w
Removed-Turned p q = record {
  counts = λ v. omega (arith, p.counts v, q.counts v);
  search = q.search;
}

-- every rotation that does not fault keeps what the tree holds and its order
left_left-Turned : (t : Tree) → IsSearch t → Ends (Turned t) (left_left_rotate t)
unfolding left_left_rotate
left_left-Turned leaf s = faulty
left_left-Turned (node e₂ leaf c h₂) s = faulty
left_left-Turned (node e₂ (node e₁ a b h₁) c h₂) s = value (turn_right e₁ e₂ a b c h₁ h₂ _ _ s)

right_right-Turned : (t : Tree) → IsSearch t → Ends (Turned t) (right_right_rotate t)
unfolding right_right_rotate
right_right-Turned leaf s = faulty
right_right-Turned (node e₂ a leaf h₂) s = faulty
right_right-Turned (node e₂ a (node e₁ b c h₁) h₂) s = value (turn_left e₁ e₂ a b c h₁ h₂ _ _ s)

Ends-Turned : {t u : Tree} {m : Run Tree} → Turned t u → Ends (Turned u) m → Ends (Turned t) m
Ends-Turned p (value q) = value (Turned-trans p q)
Ends-Turned p faulty = faulty

left_right-Turned : (t : Tree) → IsSearch t → Ends (Turned t) (left_right_rotate t)
unfolding left_right_rotate
left_right-Turned leaf s = faulty
left_right-Turned (node e l r h) s = Ends-bind (right_right-Turned l s.2) λ l' p.
    let t = in_left e h h l l' r p s in Ends-Turned t (left_left-Turned (node e l' r h) t.search)

right_left-Turned : (t : Tree) → IsSearch t → Ends (Turned t) (right_left_rotate t)
unfolding right_left_rotate
right_left-Turned leaf s = faulty
right_left-Turned (node e l r h) s = Ends-bind (left_left-Turned r s.3) λ r' p.
    let t = in_right e h h l r r' p s in Ends-Turned t (right_right-Turned (node e l r' h) t.search)

Turned-refl : (t : Tree) → IsSearch t → Turned t t
Turned-refl t s = record { counts = λ v. refl; search = s }

element-Ends : (t : Tree) → Ends (λ e. Unit {0}) (element t)
unfolding element
element-Ends leaf = faulty
element-Ends (node e l r h) = value tt

pub deleted_left-Turned : (x : ℕ) (t : Tree) → IsSearch t → Ends (Turned t) (deleted_left x t)
unfolding deleted_left
deleted_left-Turned x leaf s = faulty
deleted_left-Turned x (node e l r h) s =
    Ends-split (height r == height l + 2)
      (λ high. Ends-bind (element-Ends r) λ e' u.
        Ends-split (ltb x e') (λ lt. right_left-Turned (node e l r h) s)
          (λ ge. right_right-Turned (node e l r h) s))
      (λ even. value (Turned-refl (node e l r h) s))

pub deleted_right-Turned : (x : ℕ) (t : Tree) → IsSearch t → Ends (Turned t) (deleted_right x t)
unfolding deleted_right
deleted_right-Turned x leaf s = faulty
deleted_right-Turned x (node e l r h) s =
    Ends-split (height l == height r + 2)
      (λ high. Ends-bind (element-Ends l) λ e' u.
        Ends-split (ltb x e') (λ lt. left_left-Turned (node e l r h) s)
          (λ ge. left_right-Turned (node e l r h) s))
      (λ even. value (Turned-refl (node e l r h) s))

pub set_height_if-Turned : (t : Tree) → IsSearch t → Ends (Turned t) (set_height_if t)
unfolding set_height_if set_height occurs
set_height_if-Turned leaf s = value (Turned-refl leaf s)
set_height_if-Turned (node e l r h) s = value (record { counts = λ v. refl; search = s })
