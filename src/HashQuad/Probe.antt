-- ===== src/HashQuad/Probe.antt =====
-- The probes of `find` against the squares.
use native.Mathlib.Nat.{mod-lt, mod-eq_of_lt, mod-add-mod, mod-eq-sub-mod}
use code_learning.Base.{
  ℕ, ◌+◌, ◌-◌, ◌*◌, ◌%◌, ◌≤◌, ◌<◌, ◌≡◌, ◌∙◌, ap, arith, refl, leb, true, false, Bool-cases, inl,
  inr,
}
use code_learning.HashQuad.{wrapped}

small_mod : (n y : ℕ) → y < n + n → wrapped n y ≡ y % n
unfolding wrapped
small_mod n y h = elim (Bool-cases (leb n y)) [
  | inl e ↦ rw (e, mod-eq-sub-mod (large e), mod-eq_of_lt (less e)) refl
  | inr e ↦ rw (e, mod-eq_of_lt (small e)) refl
]
  where
    large : leb n y ≡ true → n ≤ y
    large e = ground arith

    less : leb n y ≡ true → y - n < n
    less e = ground arith

    small : leb n y ≡ false → y < n
    small e = ground arith

next_position : (n x d : ℕ) → 0 < n → d ≤ n → wrapped n (x % n + d) ≡ (x + d) % n
next_position n x d p h = small_mod n (x % n + d) (omega (arith, mod-lt x p)) ∙ mod-add-mod x n d

-- the `i`-th position that `find` looks at
abbrev pub position : (start tablesize i : ℕ) → ℕ
position start tablesize i = (start + i * i) % tablesize

square_next : (start i : ℕ) → (start + i * i) + (2 * (i + 1) - 1) ≡ start + (i + 1) * (i + 1)
square_next start i = ground arith

pub position_next :
    (start n i : ℕ)
    → 0 < n
    → 2 * (i + 1) ≤ n + 1
    → wrapped n (position start n i + (2 * (i + 1) - 1)) ≡ position start n (i + 1)
position_next start n i p h =
    next_position n (start + i * i) (2 * (i + 1) - 1) p (omega arith)
    ∙ ap (λ x. x % n) (square_next start i)
