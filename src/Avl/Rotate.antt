-- ===== src/Avl/Rotate.antt =====
-- What the rotations keep.
use code_learning.Base.{ℕ, ◌+◌, ◌<◌, ◌≡◌, arith, same, Yields, yields, max}
use code_learning.Avl.{
  Tree, leaf, node, height, higher, left_left_rotate, right_right_rotate, left_right_rotate,
  right_left_rotate,
}
use code_learning.Avl.Contents.{occurs, IsSearch, IsBalanced}

-- The tree holds what it held, and is in search order.
pub record Turned (t t' : Tree) : Type 0 where
  pub counts : (v : ℕ) → occurs v t' ≡ occurs v t
  pub search : IsSearch t'

module _ (e₁ e₂ : ℕ) (a b c : Tree) (h₁ h₂ h₃ h₄ : ℕ) where
  pub turn_right :
      IsSearch (node e₂ (node e₁ a b h₁) c h₂)
      → Turned (node e₂ (node e₁ a b h₁) c h₂) (node e₁ a (node e₂ b c h₃) h₄)
  unfolding occurs same
  turn_right s =
      let lt : e₁ < e₂ = s.0 e₁ (ground arith) in
      record {
        counts = λ v. omega arith;
        search = (
          s.2.0,
          λ v p. ground (arith, s.2.1 v, s.1 v),
          s.2.2,
          (λ v p. s.0 v (omega arith), s.1, s.2.3, s.3),
        );
      }

  pub turn_left :
      IsSearch (node e₂ a (node e₁ b c h₁) h₂)
      → Turned (node e₂ a (node e₁ b c h₁) h₂) (node e₁ (node e₂ a b h₃) c h₄)
  unfolding occurs same
  turn_left s =
      let lt : e₂ < e₁ = s.1 e₁ (ground arith) in
      record {
        counts = λ v. omega arith;
        search = (
          λ v p. ground (arith, s.3.0 v, s.0 v),
          s.3.1,
          (s.0, λ v p. s.1 v (omega arith), s.2, s.3.2),
          s.3.3,
        );
      }

module _ (e : ℕ) (h h' : ℕ) where
  -- a subtree gives way to another that holds the same
  pub in_left :
      (l l' r : Tree)
      → Turned l l'
      → IsSearch (node e l r h)
      → Turned (node e l r h) (node e l' r h')
  unfolding occurs
  in_left l l' r t s = record {
    counts = λ v. omega (arith, t.counts v);
    search = (λ v p. s.0 v (omega (arith, t.counts v)), s.1, t.search, s.3);
  }

  pub in_right :
      (l r r' : Tree)
      → Turned r r'
      → IsSearch (node e l r h)
      → Turned (node e l r h) (node e l r' h')
  unfolding occurs
  in_right l r r' t s = record {
    counts = λ v. omega (arith, t.counts v);
    search = (s.0, λ v p. s.1 v (omega (arith, t.counts v)), s.2, t.search);
  }

pub Turned-trans : {t u w : Tree} → Turned t u → Turned u w → Turned t w
Turned-trans p q = record { counts = λ v. omega (arith, p.counts v, q.counts v); search = q.search }

-- a rotation that ends well keeps what the tree holds and its order, and restores the balance of
-- a tree whose one side has grown too high by one, to height `h`
pub record Restored (h : ℕ) (t t' : Tree) : Type 0 where
  pub turned : Turned t t'
  pub balanced : IsBalanced t'
  pub height_is : height t' ≡ h

pub left_left_restores :
    (e₁ e₂ : ℕ) (a b c : Tree) (h₁ h₂ : ℕ)
    → IsSearch (node e₂ (node e₁ a b h₁) c h₂)
    → IsBalanced (node e₁ a b h₁)
    → IsBalanced c
    → height a ≡ height c + 1
    → height b ≡ height c
    → Yields
        (Restored (height c + 2) (node e₂ (node e₁ a b h₁) c h₂))
        (left_left_rotate (node e₂ (node e₁ a b h₁) c h₂))
unfolding left_left_rotate height
left_left_restores e₁ e₂ a b c h₁ h₂ s p q ha hb = yields (record {
  turned = turn_right e₁ e₂ a b c h₁ h₂ _ _ s;
  balanced =
      (omega arith, omega arith, omega arith, p.3, (omega arith, omega arith, omega arith, p.4, q));
  height_is = omega arith;
})

pub right_right_restores :
    (e₁ e₂ : ℕ) (a b c : Tree) (h₁ h₂ : ℕ)
    → IsSearch (node e₂ a (node e₁ b c h₁) h₂)
    → IsBalanced (node e₁ b c h₁)
    → IsBalanced a
    → height c ≡ height a + 1
    → height b ≡ height a
    → Yields
        (Restored (height a + 2) (node e₂ a (node e₁ b c h₁) h₂))
        (right_right_rotate (node e₂ a (node e₁ b c h₁) h₂))
unfolding right_right_rotate height
right_right_restores e₁ e₂ a b c h₁ h₂ s p q hc hb = yields (record {
  turned = turn_left e₁ e₂ a b c h₁ h₂ _ _ s;
  balanced =
      (omega arith, omega arith, omega arith, (omega arith, omega arith, omega arith, q, p.3), p.4);
  height_is = omega arith;
})

pub left_right_restores :
    (e₁ e₂ : ℕ) (a b c : Tree) (h₁ h₂ : ℕ)
    → IsSearch (node e₂ (node e₁ a b h₁) c h₂)
    → IsBalanced (node e₁ a b h₁)
    → IsBalanced c
    → height b ≡ height c + 1
    → height a ≡ height c
    → Yields
        (Restored (height c + 2) (node e₂ (node e₁ a b h₁) c h₂))
        (left_right_rotate (node e₂ (node e₁ a b h₁) c h₂))
unfolding left_right_rotate height
left_right_restores e₁ e₂ a leaf c h₁ h₂ s p q hb ha = absurd (omega arith)
left_right_restores e₁ e₂ a (node e₃ b₁ b₂ h₃) c h₁ h₂ s p q hb ha =
    let inner =
      turn_left e₃ e₁ a b₁ b₂ h₃ h₁ (higher a b₁) (max (higher a b₁) (height b₂) + 1) s.2 in
    let outer = in_left e₂ h₂ h₂ _ _ c inner s in
    yields (record {
      turned = Turned-trans outer (turn_right e₃ e₂ _ b₂ c _ h₂ _ _ outer.search);
      balanced = (
        omega arith,
        omega arith,
        omega arith,
        (omega arith, omega arith, omega arith, p.3, p.4.3),
        (omega arith, omega arith, omega arith, p.4.4, q),
      );
      height_is = omega arith;
    })

pub right_left_restores :
    (e₁ e₂ : ℕ) (a b c : Tree) (h₁ h₂ : ℕ)
    → IsSearch (node e₂ a (node e₁ b c h₁) h₂)
    → IsBalanced (node e₁ b c h₁)
    → IsBalanced a
    → height b ≡ height a + 1
    → height c ≡ height a
    → Yields
        (Restored (height a + 2) (node e₂ a (node e₁ b c h₁) h₂))
        (right_left_rotate (node e₂ a (node e₁ b c h₁) h₂))
unfolding right_left_rotate height
right_left_restores e₁ e₂ a leaf c h₁ h₂ s p q hb hc = absurd (omega arith)
right_left_restores e₁ e₂ a (node e₃ b₁ b₂ h₃) c h₁ h₂ s p q hb hc =
    let inner =
      turn_right e₃ e₁ b₁ b₂ c h₃ h₁ (higher b₂ c) (max (height b₁) (higher b₂ c) + 1) s.3 in
    let outer = in_right e₂ h₂ h₂ a _ _ inner s in
    yields (record {
      turned = Turned-trans outer (turn_left e₃ e₂ a b₁ _ _ h₂ _ _ outer.search);
      balanced = (
        omega arith,
        omega arith,
        omega arith,
        (omega arith, omega arith, omega arith, q, p.3.3),
        (omega arith, omega arith, omega arith, p.3.4, p.4),
      );
      height_is = omega arith;
    })
