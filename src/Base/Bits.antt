-- ===== src/Base/Bits.antt =====
-- Exclusive or of two numbers: a second one with the same number takes the first back.
use Prim.Native.Nat.{
  ℕ, zero, suc, ◌+◌, ◌*◌, ◌/◌, ◌%◌, ◌≤◌, ◌<◌, bit_xor, digits, differ, bit_xor-bitwise,
}
use mathlib.Core.Path.{◌≡◌, refl, ◌∙◌}
use native.Mathlib.Omega.{arith}

abbrev xor_digits : ℕ → ℕ → ℕ → ℕ
xor_digits n a b = digits (λ b. b) differ n a b

xor_digits_fuel : (n m a b : ℕ) → a ≤ n → a ≤ m → xor_digits n a b ≡ xor_digits m a b
xor_digits_fuel zero zero a b p q = refl
xor_digits_fuel zero (suc m) zero b p q = refl
xor_digits_fuel zero (suc m) (suc a) b p q = absurd (omega arith)
xor_digits_fuel (suc n) zero zero b p q = refl
xor_digits_fuel (suc n) zero (suc a) b p q = absurd (omega arith)
xor_digits_fuel (suc n) (suc m) zero b p q = refl
xor_digits_fuel (suc n) (suc m) (suc a) b p q =
    omega (arith, xor_digits_fuel n m (suc a / 2) (b / 2) (omega arith) (omega arith))

zero-bit_xor : (b : ℕ) → bit_xor 0 b ≡ b
zero-bit_xor b = bit_xor-bitwise 0 b

differ-zero : (b : ℕ) → differ 0 b ≡ b
differ-zero b = refl

bit_xor_step : (a b : ℕ) → bit_xor a b ≡ bit_xor (a / 2) (b / 2) * 2 + differ (a % 2) (b % 2)
bit_xor_step zero b = omega (arith, zero-bit_xor b, zero-bit_xor (b / 2), differ-zero (b % 2))
bit_xor_step (suc a) b = omega (
  arith,
  bit_xor-bitwise (suc a) b,
  bit_xor-bitwise (suc a / 2) (b / 2),
  xor_digits_fuel a (suc a / 2) (suc a / 2) (b / 2) (omega arith) (omega arith),
)

differ-lt : (d e : ℕ) → d < 2 → e < 2 → differ d e < 2
differ-lt zero e h k = k
differ-lt (suc zero) zero h k = omega arith
differ-lt (suc zero) (suc zero) h k = omega arith
differ-lt (suc zero) (suc (suc e)) h k = absurd (omega arith)
differ-lt (suc (suc d)) e h k = absurd (omega arith)

differ_cancel : (d e : ℕ) → d < 2 → e < 2 → differ (differ d e) e ≡ d
differ_cancel zero zero h k = refl
differ_cancel zero (suc zero) h k = refl
differ_cancel (suc zero) zero h k = refl
differ_cancel (suc zero) (suc zero) h k = refl
differ_cancel zero (suc (suc e)) h k = absurd (omega arith)
differ_cancel (suc zero) (suc (suc e)) h k = absurd (omega arith)
differ_cancel (suc (suc d)) e h k = absurd (omega arith)

differ_comm : (d e : ℕ) → d < 2 → e < 2 → differ d e ≡ differ e d
differ_comm zero zero h k = refl
differ_comm zero (suc zero) h k = refl
differ_comm (suc zero) zero h k = refl
differ_comm (suc zero) (suc zero) h k = refl
differ_comm zero (suc (suc e)) h k = absurd (omega arith)
differ_comm (suc zero) (suc (suc e)) h k = absurd (omega arith)
differ_comm (suc (suc d)) e h k = absurd (omega arith)

-- the halves and the last digit of an exclusive or
xor_parts :
    (a b : ℕ)
    → (bit_xor a b / 2 ≡ bit_xor (a / 2) (b / 2)) × (bit_xor a b % 2 ≡ differ (a % 2) (b % 2))
xor_parts a b =
    let d = differ-lt (a % 2) (b % 2) (omega arith) (omega arith) in
    (omega (arith, bit_xor_step a b, d), omega (arith, bit_xor_step a b, d))

cancel_fuel : (n a b : ℕ) → a ≤ n → b ≤ n → bit_xor (bit_xor a b) b ≡ a
cancel_fuel zero zero zero h k = refl
cancel_fuel zero (suc a) b h k = absurd (omega arith)
cancel_fuel zero zero (suc b) h k = absurd (omega arith)
cancel_fuel (suc n) a b h k =
    let parts = xor_parts a b in
    bit_xor_step (bit_xor a b) b
    ∙ rw
        (
          parts.0,
          parts.1,
          cancel_fuel n (a / 2) (b / 2) (omega arith) (omega arith),
          differ_cancel (a % 2) (b % 2) (omega arith) (omega arith),
        )
        (omega arith)

comm_fuel : (n a b : ℕ) → a ≤ n → b ≤ n → bit_xor a b ≡ bit_xor b a
comm_fuel zero zero zero h k = refl
comm_fuel zero (suc a) b h k = absurd (omega arith)
comm_fuel zero zero (suc b) h k = absurd (omega arith)
comm_fuel (suc n) a b h k = omega (
  arith,
  bit_xor_step a b,
  bit_xor_step b a,
  comm_fuel n (a / 2) (b / 2) (omega arith) (omega arith),
  differ_comm (a % 2) (b % 2) (omega arith) (omega arith),
)

pub xor_cancel : (a b : ℕ) → bit_xor (bit_xor a b) b ≡ a
xor_cancel a b = cancel_fuel (a + b) a b (omega arith) (omega arith)

pub xor_comm : (a b : ℕ) → bit_xor a b ≡ bit_xor b a
xor_comm a b = comm_fuel (a + b) a b (omega arith) (omega arith)
