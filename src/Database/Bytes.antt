-- ===== src/Database/Bytes.antt =====
-- What stands where in a file's bytes.
use code_learning.Base.{
  ℕ, zero, suc, ◌+◌, ◌-◌, ◌≤◌, ◌<◌, ◌≡◌, refl, ap, ◌∙◌, ◌⊎◌, inl, inr, arith, List, [], ◌∷◌, ◌++◌,
  length, Option, none, some,
}
use code_learning.Database.{Bytes}
use code_learning.Database.Files.{take, drop, overwrite}

abbrev get_elem? {ℓ} : {A : Type ℓ} → List A → ℕ → Option A
get_elem? [] i = none
get_elem? (x ∷ xs) zero = some x
get_elem? (x ∷ xs) (suc i) = get_elem? xs i

-- the text `s` stands at an offset
abbrev pub Holds : Bytes → ℕ → Bytes → Type 0
Holds bs off [] = Unit
Holds bs off (c ∷ s) = (get_elem? bs off ≡ some c) × Holds bs (suc off) s

get_elem?-lt : (bs : Bytes) (i : ℕ) {c : ℕ} → get_elem? bs i ≡ some c → i < length bs
get_elem?-lt [] i e = cc
get_elem?-lt (b ∷ bs) zero e = omega arith
get_elem?-lt (b ∷ bs) (suc i) e = omega (arith, get_elem?-lt bs i e)

same_index : (bs : Bytes) (i j : ℕ) → i ≡ j → get_elem? bs i ≡ get_elem? bs j
same_index bs i j e = ap (get_elem? bs) e

get_elem?-append_right :
    (s bs : Bytes) (i : ℕ) → get_elem? (s ++ bs) (length s + i) ≡ get_elem? bs i
get_elem?-append_right [] bs i = same_index bs (0 + i) i (omega arith)
get_elem?-append_right (c ∷ s) bs i =
    same_index (c ∷ (s ++ bs)) (suc (length s) + i) (suc (length s + i)) (omega arith)
    ∙ get_elem?-append_right s bs i

get_elem?-drop : (bs : Bytes) (n i : ℕ) → get_elem? (drop n bs) i ≡ get_elem? bs (n + i)
get_elem?-drop bs zero i = same_index bs i (0 + i) (omega arith)
get_elem?-drop [] (suc n) i = refl
get_elem?-drop (b ∷ bs) (suc n) i =
    get_elem?-drop bs n i ∙ same_index (b ∷ bs) (suc (n + i)) (suc n + i) (omega arith)

-- a byte that a write does not touch
get_elem?-overwrite :
    (bs : Bytes) (off : ℕ) (s : Bytes) (i : ℕ) {c : ℕ}
    → get_elem? bs i ≡ some c
    → (i < off) ⊎ (off + length s ≤ i)
    → get_elem? (overwrite bs off s) i ≡ some c
unfolding overwrite
get_elem?-overwrite bs zero s i e (inl h) = absurd (omega arith)
get_elem?-overwrite bs zero s i e (inr h) =
    same_index (s ++ drop (length s) bs) i (length s + (i - length s)) (omega arith)
    ∙ get_elem?-append_right s (drop (length s) bs) (i - length s)
    ∙ get_elem?-drop bs (length s) (i - length s)
    ∙ same_index bs (length s + (i - length s)) i (omega arith)
    ∙ e
get_elem?-overwrite [] (suc n) s i e h = cc
get_elem?-overwrite (b ∷ bs) (suc n) s zero e h = e
get_elem?-overwrite (b ∷ bs) (suc n) s (suc i) e (inl h) =
    get_elem?-overwrite bs n s i e (inl (omega arith))
get_elem?-overwrite (b ∷ bs) (suc n) s (suc i) e (inr h) =
    get_elem?-overwrite bs n s i e (inr (omega arith))

pub Holds-cons :
    (b : ℕ) (bs : Bytes) (off : ℕ) (s : Bytes) → Holds bs off s → Holds (b ∷ bs) (suc off) s
Holds-cons b bs off [] h = tt
Holds-cons b bs off (c ∷ s) (e, h) = (e, Holds-cons b bs (suc off) s h)

pub Holds-front : (s bs : Bytes) → Holds (s ++ bs) 0 s
Holds-front [] bs = tt
Holds-front (c ∷ s) bs = (refl, Holds-cons c (s ++ bs) 0 s (Holds-front s bs))

-- what is written stands there
pub Holds-overwrite : (bs : Bytes) (off : ℕ) (s : Bytes) → Holds (overwrite bs off s) off s
unfolding overwrite
Holds-overwrite bs zero s = Holds-front s (drop (length s) bs)
Holds-overwrite [] (suc n) s = Holds-cons 0 (overwrite [] n s) n s (Holds-overwrite [] n s)
Holds-overwrite (b ∷ bs) (suc n) s = Holds-cons b (overwrite bs n s) n s (Holds-overwrite bs n s)

-- and what stands elsewhere stays
pub Holds-kept :
    (bs : Bytes) (off : ℕ) (s : Bytes) (p : ℕ) (t : Bytes)
    → (p + length t ≤ off) ⊎ (off + length s ≤ p)
    → Holds bs p t
    → Holds (overwrite bs off s) p t
Holds-kept bs off s p [] h held = tt
Holds-kept bs off s p (c ∷ t) (inl h) (e, held) = (
  get_elem?-overwrite bs off s p e (inl (omega arith)),
  Holds-kept bs off s (suc p) t (inl (omega arith)) held,
)
Holds-kept bs off s p (c ∷ t) (inr h) (e, held) = (
  get_elem?-overwrite bs off s p e (inr h),
  Holds-kept bs off s (suc p) t (inr (omega arith)) held,
)

Holds-append :
    (bs : Bytes) (p : ℕ) (s t : Bytes)
    → Holds bs p s
    → Holds bs (p + length s) t
    → Holds bs p (s ++ t)
Holds-append bs p [] t h k = rw (shift p) k
  where
    shift : (p : ℕ) → p ≡ p + 0
    shift p = omega arith
Holds-append bs p (c ∷ s) t (e, h) k =
    (e, Holds-append bs (suc p) s t h (rw (shift p (length s)) k))
  where
    shift : (p n : ℕ) → suc p + n ≡ p + suc n
    shift p n = omega arith

pub Holds-left : (bs : Bytes) (p : ℕ) (s t : Bytes) → Holds bs p (s ++ t) → Holds bs p s
Holds-left bs p [] t h = tt
Holds-left bs p (c ∷ s) t (e, h) = (e, Holds-left bs (suc p) s t h)

pub Holds-right :
    (bs : Bytes) (p : ℕ) (s t : Bytes) → Holds bs p (s ++ t) → Holds bs (p + length s) t
Holds-right bs p [] t h = rw (shift p) h
  where
    shift : (p : ℕ) → p + 0 ≡ p
    shift p = omega arith
Holds-right bs p (c ∷ s) t (e, h) = rw (shift p (length s)) (Holds-right bs (suc p) s t h)
  where
    shift : (p n : ℕ) → p + suc n ≡ suc p + n
    shift p n = omega arith

drop-at : (bs : Bytes) (p : ℕ) {c : ℕ} → get_elem? bs p ≡ some c → drop p bs ≡ c ∷ drop (suc p) bs
drop-at [] p e = cc
drop-at (b ∷ bs) zero e = ground arith
drop-at (b ∷ bs) (suc p) e = drop-at bs p e

-- a read of a text that stands there
pub take-Holds : (bs : Bytes) (p : ℕ) (s : Bytes) → Holds bs p s → take (length s) (drop p bs) ≡ s
take-Holds bs p [] h = refl
take-Holds bs p (c ∷ s) (e, h) = rw (drop-at bs p e) (ap (λ r. c ∷ r) (take-Holds bs (suc p) s h))

pub length-Holds :
    (bs : Bytes) (p c : ℕ) (s : Bytes) → Holds bs p (c ∷ s) → p + length (c ∷ s) ≤ length bs
length-Holds bs p c [] (e, h) = omega (arith, get_elem?-lt bs p e)
length-Holds bs p c (d ∷ s) (e, h) = omega (arith, length-Holds bs (suc p) d s h)
