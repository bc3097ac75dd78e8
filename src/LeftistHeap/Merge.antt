-- ===== src/LeftistHeap/Merge.antt =====
-- `merge` of two leftist heaps.
use code_learning.Base.{
  ℕ, zero, suc, ◌+◌, ◌≤◌, ◌<◌, ◌≡◌, arith, same, ltb, ltb→lt, ltb→ge, Run, if◌then◌else◌, ◌>>=◌,
  Yields, yields, Yields-bind, Yields-weaken, Yields-split, Bool-cases, inl, inr,
}
use code_learning.LeftistHeap.{
  Heap, empty, node, Externals, size, merge1, merge_within, merge, npl_of, set_npl,
}
use code_learning.LeftistHeap.Contents.{occurs, IsHeap, IsLeftist, rank, rank-le-size}

-- a leftist heap
pub record IsValid (h : Heap) : Type 0 where
  pub heap : IsHeap h
  pub leftist : IsLeftist h

-- the leftist heap of all that `h₁` and `h₂` hold
pub record Merged (h₁ h₂ h : Heap) : Type 0 where
  pub counts : (v : ℕ) → occurs v h ≡ occurs v h₁ + occurs v h₂
  pub size_is : size h ≡ size h₁ + size h₂
  pub valid : IsValid h

module _ (external : Externals) where
  -- the end of `merge1`: the longer null path goes to the left
  relink :
      (e e' m k n : ℕ) (a b l' r' : Heap)
      → IsHeap (node e (node e' a b m) (node k l' r' n) 0)
      → IsLeftist (node e' a b m)
      → IsLeftist (node k l' r' n)
      → (n' : ℕ)
      → Yields
          (λ h.
            ((v : ℕ) → occurs v h ≡ occurs v (node e (node e' a b m) (node k l' r' n) 0))
            × (size h ≡ size (node e (node e' a b m) (node k l' r' n) 0))
            × IsValid h)
          (set_npl (
            if ltb m n
            then external.swapchildren (node e (node e' a b m) (node k l' r' n) n')
            else node e (node e' a b m) (node k l' r' n) n'))
  unfolding set_npl npl_of occurs size rank
  relink e e' m k n a b l' r' s p q n' =
      rw (external.swapchildren_swaps e (node e' a b m) (node k l' r' n) n')
        (elim (Bool-cases (ltb m n)) [
          | inl lt ↦ rw lt (
              yields (
                λ v. omega arith,
                omega arith,
                record {
                  heap = (s.1, s.0, s.3, s.2);
                  leftist = (omega arith, omega (arith, ltb→lt m n lt), q, p);
                },
              ))
          | inr ge ↦ rw ge (
              yields (
                λ v. omega arith,
                omega arith,
                record { heap = s; leftist = (omega arith, omega (arith, ltb→ge m n ge), p, q) },
              ))
        ])

  -- `merge1`, where `join` merges the right child with the other heap
  merge1-Merged :
      (join : Heap → Heap → Run Heap) (e n : ℕ) (l r h₂ : Heap)
      → IsValid (node e l r n)
      → IsValid h₂
      → 0 < size h₂
      → ((v : ℕ) → 0 < occurs v h₂ → e ≤ v)
      → Yields (Merged r h₂) (join r h₂)
      → Yields (Merged (node e l r n) h₂) (merge1 external join (node e l r n) h₂)
  unfolding merge1 occurs size rank
  merge1-Merged join e n empty empty h₂ p q pos least joined =
      let s = p.leftist in
      yields (record {
        counts = λ v. omega arith;
        size_is = omega arith;
        valid = record {
          heap = (least, λ v h. absurd (omega arith), q.heap, tt);
          leftist = (omega arith, omega arith, q.leftist, tt);
        };
      })
  merge1-Merged join e n empty (node e' l' r' n') h₂ p q pos least joined =
      let s = p.leftist in absurd (omega arith)
  merge1-Merged join e n (node e' a b m) r h₂ p q pos least joined =
      Yields-bind joined λ c j. finish c j
    where
      finish :
          (c : Heap)
          → Merged r h₂ c
          → Yields (Merged (node e (node e' a b m) r n) h₂) (
              npl_of c >>= λ k. set_npl (
                if ltb m k
                then external.swapchildren (node e (node e' a b m) c n)
                else node e (node e' a b m) c n))
      finish empty j = let i = j.size_is in absurd (omega arith)
      finish (node k c d i) j =
          let s = p.heap in
          let v = j.valid in
          unfold npl_of in
          Yields-weaken
            (relink e e' m k i a b c d
              (s.0, λ w h. above w (omega (arith, j.counts w, h)), s.2, v.heap) (p.leftist).2
              v.leftist n)
            λ h (counts, sizes, valid). record {
              counts = λ w. omega (arith, counts w, j.counts w);
              size_is = omega (arith, j.size_is);
              valid = valid;
            }
        where
          above : (w : ℕ) → 0 < occurs w r + occurs w h₂ → e ≤ w
          above w h = let s = p.heap in ground (arith, s.1 w, least w)

  -- walking the two right spines takes a round for each of their nodes
  merge_within-Merged :
      (k : ℕ) (h₁ h₂ : Heap)
      → rank h₁ + rank h₂ < k
      → IsValid h₁
      → IsValid h₂
      → Yields (Merged h₁ h₂) (merge_within external k h₁ h₂)
  unfolding merge_within occurs size rank
  merge_within-Merged zero h₁ h₂ f p q = absurd (omega arith)
  merge_within-Merged (suc k) empty h₂ f p q =
      yields (record { counts = λ v. omega arith; size_is = omega arith; valid = q })
  merge_within-Merged (suc k) (node e₁ l₁ r₁ n₁) empty f p q =
      yields (record { counts = λ v. omega arith; size_is = omega arith; valid = p })
  merge_within-Merged (suc k) (node e₁ l₁ r₁ n₁) (node e₂ l₂ r₂ n₂) f p q =
      let s = p.leftist in
      let s' = q.leftist in
      let t = p.heap in
      let t' = q.heap in
      Yields-split (ltb e₁ e₂)
        (λ lt.
          merge1-Merged (merge_within external k) e₁ n₁ l₁ r₁ (node e₂ l₂ r₂ n₂) p q (omega arith)
            (λ v h. least v e₁ e₂ l₂ r₂ n₂ t' h (omega (arith, ltb→lt e₁ e₂ lt)))
            (merge_within-Merged k r₁ (node e₂ l₂ r₂ n₂) (omega arith)
              (record { heap = t.3; leftist = s.3 }) q))
        (λ ge.
          Yields-weaken
            (merge1-Merged (merge_within external k) e₂ n₂ l₂ r₂ (node e₁ l₁ r₁ n₁) q p
              (omega arith) (λ v h. least v e₂ e₁ l₁ r₁ n₁ t h (ltb→ge e₁ e₂ ge))
              (merge_within-Merged k r₂ (node e₁ l₁ r₁ n₁) (omega arith)
                (record { heap = t'.3; leftist = s'.3 }) p))
            λ h j. record {
              counts = λ v. omega (arith, j.counts v);
              size_is = omega (arith, j.size_is);
              valid = j.valid;
            })
    where
      least :
          (v b e : ℕ) (l r : Heap) (n : ℕ)
          → IsHeap (node e l r n)
          → 0 < occurs v (node e l r n)
          → b ≤ e
          → b ≤ v
      least v b e l r n t h le = unfold same in ground (arith, t.0 v, t.1 v)

  -- `merge` of two leftist heaps returns, without a fault, a leftist heap of what the two hold.
  pub merge-Merged :
      (h₁ h₂ : Heap) → IsValid h₁ → IsValid h₂ → Yields (Merged h₁ h₂) (merge external h₁ h₂)
  unfolding merge
  merge-Merged h₁ h₂ p q =
      merge_within-Merged (size h₁ + size h₂ + 1) h₁ h₂
        (omega (arith, rank-le-size h₁ p.leftist, rank-le-size h₂ q.leftist)) p q
