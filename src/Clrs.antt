-- ===== src/Clrs.antt =====
-- clrs/: the sorts of sorting.c and the exercises on arrays. `swap` of sorting.c is here, since
-- most sorts call it.
pub mod Bubble
pub mod FindSum
pub mod HeapSort
pub mod Inversions
pub mod MaxSubarray
pub mod MergeSort
pub mod Placing
pub mod QuickSort
pub mod Select
pub mod Shell
use Prim.Native.Nat.{bit_xor}
use code_learning.Base.{
  ℕ, ◌<◌, ◌≡◌, refl, List, arith, ◌==◌, if◌then◌else◌, Bool-cases, inl, inr, Run, ok, ◌>>=◌, read,
  write, length, length-set, set, read-ok, write-ok, ◌!◌, !-set, !-set_self, exchange, !-exchange,
  false, length-exchange, list_ext, ap, sym, ◌∙◌,
}
use code_learning.Base.Bits.{xor_cancel, xor_comm}

eq_index : (m : List ℕ) (i j : ℕ) → i ≡ j → m ! i ≡ m ! j
eq_index m i j e = rw e

-- The two pointers are places of one array. The exclusive or is taken of the entries' codes, where
-- the code of an `int` is its bit pattern with the top bit turned over.
unfoldable pub swap : List ℕ → (a b : ℕ) → Run (List ℕ)
unfolding read write
swap m a b = if a == b then ok m else do
  x ← read m a
  y ← read m b
  m₁ ← write m a (bit_xor x y)
  y₁ ← read m₁ b
  x₁ ← read m₁ a
  m₂ ← write m₁ b (bit_xor y₁ x₁)
  x₂ ← read m₂ a
  y₂ ← read m₂ b
  write m₂ a (bit_xor x₂ y₂)

take_first : (x y : ℕ) → bit_xor y (bit_xor x y) ≡ x
take_first x y = xor_comm y (bit_xor x y) ∙ xor_cancel x y

take_second : (x y : ℕ) → bit_xor (bit_xor x y) x ≡ y
take_second x y = rw (xor_comm x y) (xor_cancel y x)

-- three exclusive ors between two different places exchange their contents
module _ (m : List ℕ) (a b : ℕ) (ne : (a == b) ≡ false) (ha : a < length m)
    (hb : b < length m) where
  abbrev once : List ℕ
  once = set m a (bit_xor (m ! a) (m ! b))

  abbrev twice : List ℕ
  twice = set once b (bit_xor (once ! b) (once ! a))

  once_b : once ! b ≡ m ! b
  once_b = ground (arith, !-set m a b (bit_xor (m ! a) (m ! b)) ha)

  twice_value : bit_xor (once ! b) (once ! a) ≡ m ! a
  twice_value =
      rw (once_b, !-set_self m a (bit_xor (m ! a) (m ! b)) ha) (take_first (m ! a) (m ! b))

  thrice_value : bit_xor (twice ! a) (twice ! b) ≡ m ! b
  thrice_value =
      rw
        (twice_a, !-set_self once b (bit_xor (once ! b) (once ! a)) (rw length-set hb), twice_value)
        (take_second (m ! a) (m ! b))
    where
      twice_a : twice ! a ≡ bit_xor (m ! a) (m ! b)
      twice_a = ground (
        arith,
        !-set once b a (bit_xor (once ! b) (once ! a)),
        length-set m a (bit_xor (m ! a) (m ! b)),
        !-set_self m a (bit_xor (m ! a) (m ! b)) ha,
      )

  swap_distinct : swap m a b ≡ ok (exchange m a b)
  unfolding swap
  swap_distinct =
      let s₁ = length-set m a (bit_xor (m ! a) (m ! b)) in
      let s₂ = length-set once b (bit_xor (once ! b) (once ! a)) in
      rw
        (
          ne,
          read-ok m a ha,
          read-ok m b hb,
          write-ok m a (bit_xor (m ! a) (m ! b)) ha,
          read-ok once b (omega arith),
          read-ok once a (omega arith),
          write-ok once b (bit_xor (once ! b) (once ! a)) (omega arith),
          read-ok twice a (omega arith),
          read-ok twice b (omega arith),
          write-ok twice a (bit_xor (twice ! a) (twice ! b)) (omega arith),
        )
        (ap ok (
          list_ext _ _ (length-set twice a _ ∙ s₂ ∙ s₁ ∙ sym (length-exchange m a b)) (λ i lt.
            ground (
              arith,
              !-set twice a i (bit_xor (twice ! a) (twice ! b)),
              thrice_value,
              !-set once b i (bit_xor (once ! b) (once ! a)),
              twice_value,
              !-set m a i (bit_xor (m ! a) (m ! b)),
              !-exchange m a b ha hb i,
            ))))

-- `swap` exchanges two entries of an array, also where both pointers name one entry, which its
-- test excepts from the exclusive ors.
pub swap-exchange :
    (m : List ℕ) (a b : ℕ) → a < length m → b < length m → swap m a b ≡ ok (exchange m a b)
unfolding swap
swap-exchange m a b ha hb = elim (Bool-cases (a == b)) [
  | inl e ↦ rw e (
      ap ok (
        list_ext m (exchange m a b) (sym (length-exchange m a b))
          (λ i lt. ground (arith, eq_index m a b, eq_index m i a, !-exchange m a b ha hb i))))
  | inr ne ↦ swap_distinct m a b ne ha hb
]
