-- ===== src/Database/Decimal.antt =====
-- Printed numbers are read back.
use mathlib.Core.List.{append-nil, append_assoc}
use code_learning.Base.{
  ℕ, zero, suc, ◌+◌, ◌-◌, ◌*◌, ◌/◌, ◌%◌, ◌^◌, ◌≤◌, ◌<◌, ◌≡◌, ◌≢◌, refl, sym, ap, ◌∙◌, inl, inr,
  arith, [], ◌∷◌, ◌++◌, length, length-append, none, some, true, false, ltb, Bool-cases,
}
use code_learning.Base.Int.{pos}
use code_learning.Database.{Bytes, space, sep}
use code_learning.Database.Text.{
  replicate, digits, decimal, padded, is_digit, is_space, value, signed, atol, c_string, split_at,
}

-- a text with no digit in front
abbrev StopsNumber : Bytes → Type 0
StopsNumber [] = Unit
StopsNumber (c ∷ s) = is_digit c ≡ false

value-stop : (n : ℕ) (s : Bytes) → StopsNumber s → value n s ≡ n
unfolding value
value-stop n [] h = refl
value-stop n (c ∷ s) h = rw h refl

value-digit : (n d : ℕ) (s : Bytes) → d < 10 → value n ((b'0' + d) ∷ s) ≡ value (n * 10 + d) s
unfolding value is_digit
value-digit n d s h = ground arith

-- reading the digits of `n` gives `n`
value-digits : (k n : ℕ) (rest : Bytes) → n < k → value 0 (digits k n ++ rest) ≡ value n rest
unfolding digits
value-digits zero n rest h = absurd (omega arith)
value-digits (suc k) n rest h = elim (Bool-cases (ltb n 10)) [
  | inl e ↦ rw e (value-digit 0 n rest (ground arith) ∙ ap (λ m. value m rest) (omega arith))
  | inr e ↦
      rw (e, append_assoc (digits k (n / 10)) ((b'0' + n % 10) ∷ []) rest)
        (value-digits k (n / 10) ((b'0' + n % 10) ∷ rest) (ground arith)
          ∙ value-digit (n / 10) (n % 10) rest (omega arith)
          ∙ ap (λ m. value m rest) (omega arith))
]

-- the bytes of a printed number: digits and blanks
abbrev AllDigits : Bytes → Type 0
AllDigits [] = Unit
AllDigits (c ∷ s) = (b'0' ≤ c) × (c ≤ b'9') × AllDigits s

AllDigits-append : (s t : Bytes) → AllDigits s → AllDigits t → AllDigits (s ++ t)
AllDigits-append [] t h k = k
AllDigits-append (c ∷ s) t (a, b, h) k = (a, b, AllDigits-append s t h k)

AllDigits-digits : (k n : ℕ) → AllDigits (digits k n)
unfolding digits
AllDigits-digits zero n = tt
AllDigits-digits (suc k) n = elim (Bool-cases (ltb n 10)) [
  | inl e ↦ rw e (omega arith, ground arith, tt)
  | inr e ↦ rw e (
      AllDigits-append (digits k (n / 10)) ((b'0' + n % 10) ∷ []) (AllDigits-digits k (n / 10))
        (omega arith, omega arith, tt))
]

-- a text that starts with a digit is a number
signed-digits :
    (s rest : Bytes) → AllDigits s → 0 < length s → signed (s ++ rest) ≡ pos (value 0 (s ++ rest))
unfolding signed
signed-digits [] rest h l = absurd (omega arith)
signed-digits (c ∷ s) rest (a, b, h) l = ground arith

atol-digits : (s rest : Bytes) → AllDigits s → 0 < length s → atol (s ++ rest) ≡ signed (s ++ rest)
unfolding atol is_space
atol-digits [] rest h l = absurd (omega arith)
atol-digits (c ∷ s) rest (a, b, h) l = ground arith

length-digits_pos : (k n : ℕ) → n < k → 0 < length (digits k n)
unfolding digits
length-digits_pos zero n h = absurd (omega arith)
length-digits_pos (suc k) n h = elim (Bool-cases (ltb n 10)) [
  | inl e ↦ rw e (omega arith)
  | inr e ↦ rw e (omega (arith, length-append (digits k (n / 10)) ((b'0' + n % 10) ∷ [])))
]

-- `atol` on a printed number
pub atol-decimal : (n : ℕ) (rest : Bytes) → StopsNumber rest → atol (decimal n ++ rest) ≡ pos n
unfolding decimal
atol-decimal n rest h =
    let all = AllDigits-digits (n + 1) n in
    let some_digit = length-digits_pos (n + 1) n (omega arith) in
    atol-digits (digits (n + 1) n) rest all some_digit
    ∙ signed-digits (digits (n + 1) n) rest all some_digit
    ∙ ap pos (value-digits (n + 1) n rest (omega arith) ∙ value-stop n rest h)

atol-blanks : (w : ℕ) (s : Bytes) → atol (replicate w space ++ s) ≡ atol s
unfolding replicate atol is_space
atol-blanks zero s = refl
atol-blanks (suc w) s = atol-blanks w s

atol-padded : (w n : ℕ) (rest : Bytes) → StopsNumber rest → atol (padded w n ++ rest) ≡ pos n
unfolding padded
atol-padded w n rest h =
    ap atol (append_assoc (replicate (w - length (decimal n)) space) (decimal n) rest)
    ∙ atol-blanks (w - length (decimal n)) (decimal n ++ rest)
    ∙ atol-decimal n rest h

-- neither a zero nor a separator
abbrev pub Plain : Bytes → Type 0
Plain [] = Unit
Plain (c ∷ s) = (c ≢ 0) × (c ≢ sep) × Plain s

Plain-append : (s t : Bytes) → Plain s → Plain t → Plain (s ++ t)
Plain-append [] t h k = k
Plain-append (c ∷ s) t (a, b, h) k = (a, b, Plain-append s t h k)

Plain-of_digits : (s : Bytes) → AllDigits s → Plain s
Plain-of_digits [] h = tt
Plain-of_digits (c ∷ s) (a, b, h) = (ground arith, ground arith, Plain-of_digits s h)

Plain-blanks : (n : ℕ) → Plain (replicate n space)
unfolding replicate
Plain-blanks zero = tt
Plain-blanks (suc n) = (ground arith, ground arith, Plain-blanks n)

pub Plain-decimal : (n : ℕ) → Plain (decimal n)
unfolding decimal
Plain-decimal n = Plain-of_digits (digits (n + 1) n) (AllDigits-digits (n + 1) n)

Plain-padded : (w n : ℕ) → Plain (padded w n)
unfolding padded
Plain-padded w n =
    Plain-append (replicate (w - length (decimal n)) space) (decimal n)
      (Plain-blanks (w - length (decimal n))) (Plain-decimal n)

-- no zero inside
abbrev pub NoZero : Bytes → Type 0
NoZero [] = Unit
NoZero (c ∷ s) = (c ≢ 0) × NoZero s

pub NoZero-of_Plain : (s : Bytes) → Plain s → NoZero s
NoZero-of_Plain [] h = tt
NoZero-of_Plain (c ∷ s) (a, b, h) = (a, NoZero-of_Plain s h)

pub NoZero-append : (s t : Bytes) → NoZero s → NoZero t → NoZero (s ++ t)
NoZero-append [] t h k = k
NoZero-append (c ∷ s) t (a, h) k = (a, NoZero-append s t h k)

pub c_string-NoZero : (s : Bytes) → NoZero s → c_string s ≡ s
unfolding c_string
c_string-NoZero [] h = refl
c_string-NoZero (c ∷ s) (a, h) = ground (arith, c_string-NoZero s h)

-- what is read of a padded number
pub atol-c_string-padded : (w n : ℕ) → atol (c_string (padded w n)) ≡ pos n
atol-c_string-padded w n =
    ap atol (
      c_string-NoZero (padded w n) (NoZero-of_Plain (padded w n) (Plain-padded w n))
      ∙ sym (append-nil (padded w n)))
    ∙ atol-padded w n [] tt

pub split_at-Plain : (s t : Bytes) → Plain s → split_at sep (s ++ sep ∷ t) ≡ some (s, t)
unfolding split_at
split_at-Plain [] t h = refl
split_at-Plain (c ∷ s) t (a, b, h) = ground (arith, split_at-Plain s t h)

pub split_at-none : (s : Bytes) → Plain s → split_at sep s ≡ none
unfolding split_at
split_at-none [] h = refl
split_at-none (c ∷ s) (a, b, h) = ground (arith, split_at-none s h)

length-replicate : (n c : ℕ) → length (replicate n c) ≡ n
unfolding replicate
length-replicate zero c = refl
length-replicate (suc n) c = ap suc (length-replicate n c)

-- a number below 10 ^ w has at most `w` digits
length-digits : (w k n : ℕ) → n < 10 ^ suc w → length (digits k n) ≤ suc w
unfolding digits
length-digits w zero n h = omega arith
length-digits zero (suc k) n h = rw (one_digit n h) (omega arith)
  where
    one_digit : (n : ℕ) → n < 10 ^ 1 → ltb n 10 ≡ true
    one_digit n h = ground arith
length-digits (suc w) (suc k) n h = elim (Bool-cases (ltb n 10)) [
  | inl e ↦ rw e (omega arith)
  | inr e ↦ rw e (
      omega (
        arith,
        length-append (digits k (n / 10)) ((b'0' + n % 10) ∷ []),
        length-digits w k (n / 10) (tenth w n h),
      ))
]
  where
    tenth : (w n : ℕ) → n < 10 ^ suc (suc w) → n / 10 < 10 ^ suc w
    tenth w n h = let more : 10 ^ suc (suc w) ≡ 10 * 10 ^ suc w = omega arith in omega (arith, more)

pub length-padded : (w n : ℕ) → n < 10 ^ suc w → length (padded (suc w) n) ≡ suc w
unfolding padded decimal
length-padded w n h = omega (
  arith,
  length-append (replicate (suc w - length (digits (n + 1) n)) space) (digits (n + 1) n),
  length-replicate (suc w - length (digits (n + 1) n)) space,
  length-digits w (n + 1) n h,
)
