-- ===== src/JobQueue/Links.antt =====
-- The links of the queue of jobs.
use code_learning.Base.{
  ℕ, zero, suc, ◌≡◌, refl, sym, ap, ◌∙◌, arith, true, false, ◌==◌, List, [], ◌∷◌, ◌++◌, ok, ◌>>=◌,
  Yields, yields,
}
use code_learning.JobQueue.{Job, Memory, JobQueue, load, update, set_next, set_prev}

abbrev pub NotIn : ℕ → List ℕ → Type 0
NotIn x [] = Unit
NotIn x (y ∷ l) = ((x == y) ≡ false) × NotIn x l

abbrev pub IsDistinct : List ℕ → Type 0
IsDistinct [] = Unit
IsDistinct (x ∷ l) = NotIn x l × IsDistinct l

-- The jobs at the addresses `l` stand in a row: `first` points to the first of them, the links back
-- end in `before` and the links forward in `after`, and `last` points to the last of them.
abbrev pub Segment : Memory → (before first : ℕ) → List ℕ → (last after : ℕ) → Type 0
Segment m before first [] last after = (first ≡ after) × (last ≡ before)
Segment m before first (x ∷ l) last after =
    (first ≡ x)
    × ((j : Job) × (load m x ≡ ok j) × (j.prev ≡ before) × Segment m x j.next l last after)

-- the queue holds the jobs at the addresses `l`, in this order, each once
pub record Holds (l : List ℕ) (q : JobQueue) : Type 0 where
  pub links : Segment q.jobs 0 q.head l q.tail 0
  pub distinct : IsDistinct l

-- the memories agree but at one address
abbrev pub Elsewhere : ℕ → (m m' : Memory) → Type 0
Elsewhere x m m' = (y : ℕ) → (x == y) ≡ false → load m' y ≡ load m y

pub load-nonzero : (m : Memory) (x : ℕ) {j : Job} → load m x ≡ ok j → (x == 0) ≡ false
unfolding load
load-nonzero m zero h = absurd (ground arith)
load-nonzero m (suc x) h = ground arith

pub update-Elsewhere : (m : Memory) (x : ℕ) (j : Job) → Elsewhere x m (update m x j)
unfolding load update
update-Elsewhere m x j zero ne = refl
update-Elsewhere m x j (suc y) ne = rw (load, update, ne) refl

pub load-update :
    (m : Memory) (x : ℕ) (j : Job) {old : Job} → load m x ≡ ok old → load (update m x j) x ≡ ok j
unfolding load update
load-update m zero j h = absurd (ground arith)
load-update m (suc x) j h = rw (load, update, same x) refl
  where
    same : (x : ℕ) → (suc x == suc x) ≡ true
    same x = ground arith

pub Segment-elsewhere :
    (m m' : Memory) (x b f : ℕ) (l : List ℕ) (e a : ℕ)
    → Elsewhere x m m'
    → NotIn x l
    → Segment m b f l e a
    → Segment m' b f l e a
Segment-elsewhere m m' x b f [] e a same fresh s = s
Segment-elsewhere m m' x b f (y ∷ l) e a same (ne, fresh) (at, (j, h, p, s)) =
    (at, (j, same y ne ∙ h, p, Segment-elsewhere m m' x y j.next l e a same fresh s))

pub Segment-append :
    (m : Memory) (b f : ℕ) (l : List ℕ) (mid c : ℕ) (l' : List ℕ) (e a : ℕ)
    → Segment m b f l mid c
    → Segment m mid c l' e a
    → Segment m b f (l ++ l') e a
Segment-append m b f [] mid c l' e a (at, back) s = rw (at, sym back) s
Segment-append m b f (x ∷ l) mid c l' e a (at, (j, h, p, s)) s' =
    (at, (j, h, p, Segment-append m x j.next l mid c l' e a s s'))

-- a segment falls apart where its list does
pub record Cut (m : Memory) (b f : ℕ) (l l' : List ℕ) (e a : ℕ) : Type 0 where
  pub back : ℕ
  pub forth : ℕ
  pub left : Segment m b f l back forth
  pub right : Segment m back forth l' e a

pub Segment-Cut :
    (m : Memory) (b f : ℕ) (l l' : List ℕ) (e a : ℕ)
    → Segment m b f (l ++ l') e a
    → Cut m b f l l' e a
Segment-Cut m b f [] l' e a s = record { back = b; forth = f; left = (refl, refl); right = s }
Segment-Cut m b f (x ∷ l) l' e a (at, (j, h, p, s)) =
    let r = Segment-Cut m x j.next l l' e a s in
    record { back = r.back; forth = r.forth; left = (at, (j, h, p, r.left)); right = r.right }

-- the links back, from the first job
pub set_prev-Segment :
    (m : Memory) (b f x : ℕ) (l : List ℕ) (e a b' : ℕ)
    → NotIn x l
    → Segment m b f (x ∷ l) e a
    → Yields (λ m'. Segment m' b' f (x ∷ l) e a × Elsewhere x m m') (set_prev m f b')
unfolding set_prev
set_prev-Segment m b f x l e a b' fresh (at, (j, h, p, s)) =
    let m' = update m x (record j { prev = b' }) in
    rw (at, set_prev, h, ◌>>=◌)
      (yields (
        (
          refl,
          (
            record j { prev = b' },
            load-update m x _ h,
            refl,
            Segment-elsewhere m m' x x j.next l e a (update-Elsewhere m x _) fresh s,
          ),
        ),
        update-Elsewhere m x _,
      ))

-- `last` points to the last job
pub last_job :
    (m : Memory) (b f : ℕ) (l : List ℕ) (x e a : ℕ)
    → Segment m b f (l ++ x ∷ []) e a
    → (j : Job) × (e ≡ x) × (load m x ≡ ok j)
last_job m b f l x e a s =
    let c = Segment-Cut m b f l (x ∷ []) e a s in
    let (at, (j, h, p, (forward, last))) = c.right in (j, last, h)

-- the links forward, from the last job
pub set_next-Segment :
    (m : Memory) (b f x : ℕ) (l : List ℕ) (e a a' : ℕ)
    → NotIn x l
    → Segment m b f (l ++ x ∷ []) e a
    → Yields (λ m'. Segment m' b f (l ++ x ∷ []) e a' × Elsewhere x m m') (set_next m e a')
unfolding set_next
set_next-Segment m b f x l e a a' fresh s =
    let c = Segment-Cut m b f l (x ∷ []) e a s in
    let (at, (j, h, p, (forward, last))) = c.right in
    let m' = update m x (record j { next = a' }) in
    let same = update-Elsewhere m x (record j { next = a' }) in
    let right : Segment m' c.back c.forth (x ∷ []) e a' =
      (at, (record j { next = a' }, load-update m x _ h, p, (refl, last))) in
    let run : set_next m e a' ≡ ok m' = ap (λ y. set_next m y a') last ∙ (rw (h, ◌>>=◌) refl) in
    rw run (
      yields (
        Segment-append m' b f l c.back c.forth (x ∷ []) e a'
            (Segment-elsewhere m m' x b f l c.back c.forth same fresh c.left) right,
        same,
      ))

pub eq-sym : (x y : ℕ) → (x == y) ≡ false → (y == x) ≡ false
eq-sym x y h = ground arith

NotIn-append : (x : ℕ) (l l' : List ℕ) → NotIn x l → NotIn x l' → NotIn x (l ++ l')
NotIn-append x [] l' h k = k
NotIn-append x (y ∷ l) l' (ne, h) k = (ne, NotIn-append x l l' h k)

pub NotIn-split : (x : ℕ) (l l' : List ℕ) → NotIn x (l ++ l') → NotIn x l × NotIn x l'
NotIn-split x [] l' h = (tt, h)
NotIn-split x (y ∷ l) l' (ne, h) = ((ne, (NotIn-split x l l' h).0), (NotIn-split x l l' h).1)

pub IsDistinct-snoc : (l : List ℕ) (x : ℕ) → IsDistinct l → NotIn x l → IsDistinct (l ++ x ∷ [])
IsDistinct-snoc [] x d h = (tt, tt)
IsDistinct-snoc (y ∷ l) x (k, d) (ne, h) =
    (NotIn-append y l (x ∷ []) k (eq-sym x y ne, tt), IsDistinct-snoc l x d h)

-- an element in the middle is no other one
pub IsDistinct-middle :
    (l : List ℕ) (x : ℕ) (l' : List ℕ)
    → IsDistinct (l ++ x ∷ l')
    → NotIn x l × NotIn x l' × IsDistinct (l ++ l')
IsDistinct-middle [] x l' (h, d) = (tt, h, d)
IsDistinct-middle (y ∷ l) x l' (h, d) =
    let (a, b, c) = IsDistinct-middle l x l' d in
    let (h₁, (ne, h₂)) = NotIn-split y l (x ∷ l') h in
    ((eq-sym y x ne, a), b, (NotIn-append y l l' h₁ h₂, c))

pub data Snoc : List ℕ → Type 0 where
  nothing : Snoc []
  last : (l : List ℕ) (x : ℕ) → Snoc (l ++ x ∷ [])

pub snoc : (l : List ℕ) → Snoc l
snoc [] = nothing
snoc (x ∷ l) = cons x (snoc l)
  where
    cons : (x : ℕ) {l : List ℕ} → Snoc l → Snoc (x ∷ l)
    cons x nothing = last [] x
    cons x (last l y) = last (x ∷ l) y

-- a pointer to the first or the last job points to none outside the list
pub first-NotIn :
    (m : Memory) (b f y : ℕ) (l : List ℕ) (x e a : ℕ)
    → NotIn x (l ++ y ∷ [])
    → Segment m b f (l ++ y ∷ []) e a
    → (x == f) ≡ false
first-NotIn m b f y [] x e a (ne, h) (at, s) = ap (λ z. x == z) at ∙ ne
first-NotIn m b f y (z ∷ l) x e a (ne, h) (at, s) = ap (λ z. x == z) at ∙ ne

pub last-NotIn :
    (m : Memory) (b f z : ℕ) (l : List ℕ) (x e a : ℕ)
    → NotIn x (z ∷ l)
    → Segment m b f (z ∷ l) e a
    → (x == e) ≡ false
last-NotIn m b f z [] x e a (ne, h) (at, (j, g, p, (forward, back))) = ap (λ y. x == y) back ∙ ne
last-NotIn m b f z (y ∷ l) x e a (ne, h) (at, (j, g, p, s)) = last-NotIn m z j.next y l x e a h s
