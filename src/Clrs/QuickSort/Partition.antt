-- ===== src/Clrs/QuickSort/Partition.antt =====
-- The outer loop of `quicksort`: the entries around the pivot.
use code_learning.Base.{
  ℕ, zero, suc, ◌+◌, ◌-◌, ◌≤◌, ◌<◌, ◌≡◌, refl, sym, ◌∙◌, false, ◌==◌, ltb, List, arith, length,
  length-set, set, ◌!◌, !-set, set-exchange, read-ok, write-ok, ok, ◌>>=◌, Yields, yields,
  Yields-bind, ltb→lt, Bool-cases, inl, inr,
}
use mathlib.Core.Path.{subst}
use code_learning.Sorting.Range.{Within, Within-trans, Within-exchange}
use code_learning.Clrs.QuickSort.{take_right, take_left, partition}
use code_learning.Clrs.QuickSort.Scans.{Lowered, move_down-Lowered, Raised, move_up-Raised}

-- The pivot belongs at `h`, the entries before `i` are no larger and those behind `j` no smaller.
pub record Parted (b e : ℕ) (a₀ : List ℕ) (tmp : ℕ) (a : List ℕ) (i j h : ℕ) : Type 0 where
  pub within : Within b e a₀ (set a h tmp)
  pub size : length a ≡ length a₀
  pub first : b ≤ i
  pub order : i ≤ j
  pub last : j < e
  pub low : (p : ℕ) → b ≤ p → p < i → a ! p ≤ tmp
  pub high : (q : ℕ) → j < q → q < e → tmp ≤ a ! q

met : (i j : ℕ) → i ≤ j → ltb i j ≡ false → i ≡ j
met i j le e = ground arith

shorter :
    (i j i₂ i₁ j₂ j₁ k : ℕ)
    → i < j
    → j < suc k + i
    → j₁ ≤ j
    → i₁ ≤ i₂
    → j₂ ≤ j₁
    → (i < j₁ → i₁ ≡ i + 1)
    → i ≤ i₁
    → j₂ < k + i₂
shorter i j i₂ i₁ j₂ j₁ k lt fuel le le' le'' up lo = elim (Bool-cases (ltb i j₁)) [
  | inl yes_case ↦ ground (arith, up)
  | inr no_case ↦ ground arith
]

module _ (b e : ℕ) (a₀ : List ℕ) (tmp : ℕ) (fits : e ≤ length a₀) where
  -- the entry at `x` moves to the free place `h`
  move-Within :
      (a : List ℕ) (h x : ℕ)
      → length a ≡ length a₀
      → b ≤ h
      → h < e
      → b ≤ x
      → x < e
      → (h == x) ≡ false
      → Within b e a₀ (set a h tmp)
      → Within b e a₀ (set (set a h (a ! x)) x tmp)
  move-Within a h x size bh he bx xe lt w =
      subst (Within b e a₀) (sym (set-exchange a tmp h x (omega arith) (omega arith) lt)) (
        Within-trans w
          (Within-exchange b e (set a h tmp) h x (omega (arith, length-set a h tmp)) bh he bx xe))

  take_right-Parted :
      (a : List ℕ) (i j j₁ : ℕ)
      → Parted b e a₀ tmp a i j i
      → Lowered a tmp i j j₁
      → Yields
          (λ r. Parted b e a₀ tmp (r.0) (r.1) j₁ j₁ × (i < j₁ → r.1 ≡ i + 1) × (i ≤ r.1))
          (take_right a i j₁)
  unfolding take_right
  take_right-Parted a i j j₁ v l = elim (Bool-cases (ltb i j₁)) [
    | inr e' ↦ rw e' (
        yields (
          (record {
            within = subst (λ h. Within b e a₀ (set a h tmp)) (met i j₁ l.above e') v.within;
            size = v.size;
            first = v.first;
            order = l.above;
            last = omega (arith, v.last, l.below);
            low = v.low;
            high = λ q lo hi. ground (arith, l.passed q, v.high q);
          }),
          λ lt. absurd (ground arith),
          omega arith,
        ))
    | inl e' ↦
        rw
          (
            e',
            read-ok a j₁ (omega (arith, v.size, v.last, l.below)),
            write-ok a i (a ! j₁) (omega (arith, v.size, v.last, l.below, l.above)),
            ◌>>=◌,
          )
          (yields (
            (record {
              within =
                  move-Within a i j₁ v.size v.first (ground (arith, v.last, l.below))
                    (ground (arith, v.first)) (omega (arith, v.last, l.below)) (ground arith)
                    v.within;
              size = length-set a i (a ! j₁) ∙ v.size;
              first = omega (arith, v.first);
              order = ground arith;
              last = omega (arith, v.last, l.below);
              low = λ p lo hi. ground (
                arith,
                !-set a i p (a ! j₁) (omega (arith, v.size, v.last, v.order)),
                v.low p,
                l.small,
              );
              high = λ q lo hi. ground (
                arith,
                !-set a i q (a ! j₁) (omega (arith, v.size, v.last, v.order)),
                l.passed q,
                v.high q,
              );
            }),
            λ lt. refl,
            omega arith,
          ))
  ]

  take_left-Parted :
      (a : List ℕ) (i i₂ j : ℕ)
      → Parted b e a₀ tmp a i j j
      → Raised a tmp i j i₂
      → Yields (λ r. Parted b e a₀ tmp (r.0) i₂ (r.1) i₂ × (r.1 ≤ j)) (take_left a i₂ j)
  unfolding take_left
  take_left-Parted a i i₂ j v l = elim (Bool-cases (ltb i₂ j)) [
    | inr e' ↦ rw e' (
        yields (
          (record {
            within = subst (λ h. Within b e a₀ (set a h tmp)) (sym (met i₂ j l.below e')) v.within;
            size = v.size;
            first = omega (arith, v.first, l.above);
            order = l.below;
            last = v.last;
            low = λ p lo hi. ground (arith, l.passed p, v.low p);
            high = v.high;
          }),
          omega arith,
        ))
    | inl e' ↦
        rw
          (
            e',
            read-ok a i₂ (omega (arith, v.size, v.last, l.below)),
            write-ok a j (a ! i₂) (omega (arith, v.size, v.last)),
            ◌>>=◌,
          )
          (yields (
            (record {
              within =
                  move-Within a j i₂ v.size (omega (arith, v.first, v.order)) v.last
                    (omega (arith, v.first, l.above)) (omega (arith, v.last, l.below))
                    (ground arith) v.within;
              size = length-set a j (a ! i₂) ∙ v.size;
              first = omega (arith, v.first, l.above);
              order = ground arith;
              last = omega (arith, v.last);
              low = λ p lo hi. ground (
                arith,
                !-set a j p (a ! i₂) (omega (arith, v.size, v.last)),
                l.passed p,
                v.low p,
                l.below,
              );
              high = λ q lo hi.
                  ground
                    (arith, !-set a j q (a ! i₂) (omega (arith, v.size, v.last)), l.big, v.high q);
            }),
            omega arith,
          ))
  ]

  pub partition-Parted :
      (k : ℕ) (a : List ℕ) (i j : ℕ)
      → Parted b e a₀ tmp a i j i
      → j < k + i
      → Yields (λ r. Parted b e a₀ tmp (r.0) (r.1) (r.1) (r.1)) (partition k a tmp i j)
  unfolding partition
  partition-Parted zero a i j v lt = absurd (omega (arith, v.order))
  partition-Parted (suc k) a i j v lt = elim (Bool-cases (ltb i j)) [
    | inr e' ↦ rw e' (yields (subst (λ x. Parted b e a₀ tmp a i x i) (sym (met i j v.order e')) v))
    | inl e' ↦ rw e' (
        Yields-bind (move_down-Lowered a tmp i j v.order (omega (arith, v.last, v.size))) (λ j₁ l.
          Yields-bind (take_right-Parted a i j j₁ v l) (λ r (w, up, lo).
            Yields-bind
              (move_up-Raised (j₁ - r.1) (r.0) tmp (r.1) j₁ (omega (arith, w.order))
                (omega (arith, w.size, w.last)))
              (λ i₂ u. Yields-bind (take_left-Parted (r.0) (r.1) i₂ j₁ w u) (λ t (x, down).
                partition-Parted k (t.0) i₂ (t.1) x (
                  shorter i j i₂ (r.1) (t.1) j₁ k (ltb→lt i j e') lt l.below u.above down up
                    lo))))))
  ]

pub partition-done :
    (k : ℕ) (a : List ℕ) (tmp i j : ℕ) → 0 < k → ltb i j ≡ false → partition k a tmp i j ≡ ok (a, i)
unfolding partition
partition-done zero a tmp i j h e = absurd (omega arith)
partition-done (suc k) a tmp i j h e = rw e refl
