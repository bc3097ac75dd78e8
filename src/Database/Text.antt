-- ===== src/Database/Text.antt =====
-- Numbers as text, and strings: `sprintf`, `atol`, `strchr`, `strcmp` as the code uses them.
use code_learning.Base.{
  ℕ, zero, suc, ◌+◌, ◌-◌, ◌*◌, ◌/◌, ◌%◌, [], ◌∷◌, ◌++◌, length, Option, none, some, Bool, true,
  false, ◌&&◌, ◌||◌, ◌==◌, ltb, leb, if◌then◌else◌,
}
use code_learning.Base.Int.{ℤ, pos, ◌-ℤ◌}
use code_learning.Database.{Bytes, space}

unfoldable pub replicate : ℕ → ℕ → Bytes
replicate zero c = []
replicate (suc n) c = c ∷ replicate n c

-- the decimal digits of a number, in at most as many divisions as the first argument says
unfoldable pub digits : ℕ → ℕ → Bytes
digits zero n = []
digits (suc k) n =
    let front = digits k (n / 10) in
    if ltb n 10 then (b'0' + n) ∷ [] else front ++ (b'0' + n % 10) ∷ []

-- "%lld"
unfoldable pub decimal : ℕ → Bytes
unfolding digits
decimal n = digits (n + 1) n

-- "%*lld"
unfoldable pub padded : (width : ℕ) → ℕ → Bytes
unfolding replicate decimal
padded width n = replicate (width - length (decimal n)) space ++ decimal n

unfoldable pub is_digit : ℕ → Bool
is_digit c = leb b'0' c && leb c b'9'

unfoldable pub is_space : ℕ → Bool
is_space c = (c == b' ') || (leb 9 c && leb c 13)

unfoldable pub value : ℕ → Bytes → ℕ
unfolding is_digit
value n [] = n
value n (c ∷ s) = if is_digit c then value (n * 10 + (c - b'0')) s else n

-- after the blanks
unfoldable pub signed : Bytes → ℤ
unfolding value ◌-ℤ◌
signed [] = pos 0
signed (c ∷ s) =
    if c == b'-'
    then pos 0 -ℤ pos (value 0 s)
    else if c == b'+'
    then pos (value 0 s)
    else pos (value 0 (c ∷ s))

-- `atol` and `atoi`
unfoldable pub atol : Bytes → ℤ
unfolding is_space signed
atol [] = pos 0
atol (c ∷ s) = if is_space c then atol s else signed (c ∷ s)

-- the bytes before the first zero
unfoldable pub c_string : Bytes → Bytes
c_string [] = []
c_string (c ∷ s) = if c == 0 then [] else c ∷ c_string s

-- the text before the first `x`, and the one behind it
unfoldable pub split_at : (x : ℕ) → Bytes → Option (Bytes × Bytes)
split_at x [] = none
split_at x (c ∷ s) =
    if c == x
    then some ([], s)
    else elim (split_at x s) [ none ↦ none | some (a, b) ↦ some (c ∷ a, b) ]

unfoldable pub same_text : Bytes → Bytes → Bool
same_text [] [] = true
same_text [] (d ∷ t) = false
same_text (c ∷ s) [] = false
same_text (c ∷ s) (d ∷ t) = if c == d then same_text s t else false
