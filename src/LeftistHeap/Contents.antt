-- ===== src/LeftistHeap/Contents.antt =====
-- What a leftist heap holds, its order and its shape.
use code_learning.Base.{ℕ, zero, suc, ◌+◌, ◌^◌, ◌≤◌, ◌<◌, ◌≡◌, arith, same}
use native.Mathlib.Nat.{two-pow-succ}
use code_learning.LeftistHeap.{Heap, empty, node, size}

unfoldable pub occurs : ℕ → Heap → ℕ
occurs v empty = 0
occurs v (node e l r n) = occurs v l + same v e + occurs v r

-- no element is smaller than the one above it
abbrev pub IsHeap : Heap → Type 0
IsHeap empty = Unit {0}
IsHeap (node e l r n) =
    ((v : ℕ) → 0 < occurs v l → e ≤ v) × ((v : ℕ) → 0 < occurs v r → e ≤ v) × IsHeap l × IsHeap r

-- the null path length and one more; `NULL` has the length -1
unfoldable pub rank : Heap → ℕ
rank empty = 0
rank (node e l r n) = n + 1

-- the left child has the longer null path, and the lengths are those of the heap
abbrev pub IsLeftist : Heap → Type 0
IsLeftist empty = Unit {0}
IsLeftist (node e l r n) = (n ≡ rank r) × (rank r ≤ rank l) × IsLeftist l × IsLeftist r

pub rank-le-size : (h : Heap) → IsLeftist h → rank h ≤ size h
unfolding rank size
rank-le-size empty s = omega arith
rank-le-size (node e l r n) s = omega (arith, rank-le-size r s.3)

bound_step : (k : ℕ) (h : Heap) → IsLeftist h → k ≤ rank h → 2 ^ k ≤ size h + 1
unfolding rank size
bound_step zero h s le = omega arith
bound_step (suc k) empty s le = absurd (omega arith)
bound_step (suc k) (node e l r n) s le =
    omega
      (arith, two-pow-succ k, bound_step k l s.2 (omega arith), bound_step k r s.3 (omega arith))

-- A leftist heap whose null path has length `n` holds at least 2^(n+1) - 1 elements, so the right
-- spine that `merge` walks is logarithmic in the size.
rank-bound : (h : Heap) → IsLeftist h → 2 ^ rank h ≤ size h + 1
rank-bound h s = bound_step (rank h) h s (omega arith)
