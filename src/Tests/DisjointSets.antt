-- ===== src/Tests/DisjointSets.antt =====
-- The disjoint sets on a concrete array.
use code_learning.Base.{ℕ, ◌≤◌, ◌<◌, ◌≡◌, refl, List, [], ◌∷◌, arith, ok, Yields, read, write, none}
use code_learning.Base.Int.{ℤ, pos, negsuc}
use code_learning.DisjointSet.{setunion_high, find_route_compress, parent}
use code_learning.DisjointSet.Roots.{Root, top, up, IsRoot}
use code_learning.DisjointSet.Union.{Joined, setunion_high-Joined, setunion_high-too_low}
use code_learning.DisjointSet.Find.{find_route_compress-Root}

-- 3 hangs under 2 and 2 under 1; 4 is alone
abbrev sample : List ℤ
sample = pos 0 ∷ negsuc 1 ∷ pos 1 ∷ pos 2 ∷ pos 0 ∷ []

three_deep : Root sample 3 1 2
unfolding parent read
three_deep = up refl refl (up refl refl (top refl refl))

one-IsRoot : IsRoot sample 1
unfolding parent read
one-IsRoot = (negsuc 1, refl, refl)

four-IsRoot : IsRoot sample 4
unfolding parent read
four-IsRoot = (pos 0, refl, refl)

setunion_high_run : setunion_high sample 1 4 ≡ ok (pos 0 ∷ pos 4 ∷ pos 1 ∷ pos 2 ∷ pos 0 ∷ [])
unfolding setunion_high read write
setunion_high_run = refl

setunion_high-Joined_example : Yields (Joined sample 1 4) (setunion_high sample 1 4)
setunion_high-Joined_example =
    setunion_high-Joined sample 1 4 (omega arith) (omega arith) one-IsRoot four-IsRoot (omega arith)

entries : (read sample 1 ≡ ok (negsuc 1)) × (read sample 4 ≡ ok (pos 0)) × (parent (pos 0) ≡ none)
unfolding read parent
entries = (refl, refl, refl)

setunion_high-too_low_example :
    Yields
      (λ t. (read t 4 ≡ ok (pos 0)) × (m : ℕ) × Root t 3 4 m × (0 < m))
      (setunion_high sample 1 4)
setunion_high-too_low_example =
    setunion_high-too_low sample 1 4 1 3 (pos 0) (omega arith) entries.0 entries.1 entries.2
      (omega arith) (omega arith) three_deep

find_route_compress-Root_example :
    Yields
      (λ (found, t).
        (found ≡ 1) × ((y q m : ℕ) → Root sample y q m → (m' : ℕ) × (m' ≤ m) × Root t y q m'))
      (find_route_compress 3 sample 3)
find_route_compress-Root_example = find_route_compress-Root sample 3 3 1 2 three_deep (omega arith)
