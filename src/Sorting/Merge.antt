-- ===== src/Sorting/Merge.antt =====
-- data_structure_and_algorithm/sort/mergesort.c. The merge sort of clrs/sorting.c has the same loops
-- with another test that takes the left entry, and starts to write elsewhere in the temporary array:
-- both are arguments here.
pub mod Lists
pub mod Arrays
pub mod Laws
pub mod Pieces
pub mod Results
use code_learning.Base.{
  ℕ, zero, suc, ◌+◌, ◌-◌, ◌/◌, List, [], ◌∷◌, Bool, true, false, ◌&&◌, ltb, leb, if◌then◌else◌,
  Option, none, some, Run, ok, out_of_fuel, ◌>>=◌, read, write,
}

-- while (…) to[j++] = from[i++]; with the rounds left
unfoldable pub copy : ℕ → (from to : List ℕ) → (i j : ℕ) → Run (List ℕ)
copy zero from to i j = ok to
copy (suc rounds) from to i j = do
  x ← read from i
  t ← write to j x
  copy rounds from t (i + 1) (j + 1)

module _ (takes_left : ℕ → ℕ → Bool) (base : ℕ → ℕ) where
  -- the first three loops: the temporary array
  unfoldable pub merge_loop : ℕ → (a tmp : List ℕ) → (i j ti mid e : ℕ) → Run (List ℕ)
  merge_loop zero a tmp i j ti mid e = out_of_fuel
  merge_loop (suc k) a tmp i j ti mid e =
      let both : Run (List ℕ) = (do
        x ← read a i
        y ← read a j
        let left = write tmp ti x >>= λ t. merge_loop k a t (i + 1) j (ti + 1) mid e
        let right = write tmp ti y >>= λ t. merge_loop k a t i (j + 1) (ti + 1) mid e
        if takes_left x y then left else right) in
      let rests = copy (mid - i) a tmp i ti >>= λ t. copy (e - j) a t j (ti + (mid - i)) in
      if ltb i mid && ltb j e then both else rests

  -- the array and the temporary array
  unfoldable pub merge : (a tmp : List ℕ) → (b mid e : ℕ) → Run (List ℕ × List ℕ)
  merge a tmp b mid e = do
    t ← merge_loop (e - b + 1) a tmp b mid (base b) mid e
    sorted ← copy (e - b) t a (base b) b
    ok (sorted, t)

  unfoldable pub msort : ℕ → (a tmp : List ℕ) → (b e : ℕ) → Run (List ℕ × List ℕ)
  msort zero a tmp b e = out_of_fuel
  msort (suc k) a tmp b e =
      let mid = (b + e) / 2 in
      let halves : Run (List ℕ × List ℕ) = (do
        (a₁, t₁) ← msort k a tmp b mid
        (a₂, t₂) ← msort k a₁ t₁ mid e
        merge a₂ t₂ b mid e) in
      if ltb (b + 1) e then halves else ok (a, tmp)

  -- `memory` is what `malloc` gives; the array is as before where it gives nothing
  unfoldable pub mergesort_by : (memory : Option (List ℕ)) → List ℕ → (n : ℕ) → Run (List ℕ)
  mergesort_by none a n = ok a
  mergesort_by (some tmp) a n = msort (n + 1) a tmp 0 n >>= λ (sorted, t). ok sorted

-- the left entry if it is no larger, in the same places
unfoldable pub mergesort : (memory : Option (List ℕ)) → List ℕ → (n : ℕ) → Run (List ℕ)
mergesort = mergesort_by leb (λ b. b)
