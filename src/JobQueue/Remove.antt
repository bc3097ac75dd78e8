-- ===== src/JobQueue/Remove.antt =====
-- The queue after `job_remove`.
use code_learning.Base.{
  ℕ, ◌≡◌, refl, ◌∙◌, arith, true, ◌==◌, if◌then◌else◌, List, [], ◌∷◌, ◌++◌, ok, ◌>>=◌, Yields,
  yields, Yields-bind,
}
use mathlib.Core.List.{append_assoc}
use mathlib.Core.Path.{subst}
use code_learning.JobQueue.{
  Job, JobQueue, load, job_append, append_placed, job_remove, remove_head, remove_tail,
  remove_inner,
}
use code_learning.JobQueue.Insert.{Segment-one, place}
use code_learning.JobQueue.Links.{
  NotIn-split, NotIn, IsDistinct, Segment-Cut, Cut, first-NotIn, last-NotIn, Holds, load-nonzero,
  Segment-elsewhere, Segment-append, set_prev-Segment, set_next-Segment, eq-sym, IsDistinct-middle,
}

-- the first job is removed: the others are not linked back, and the tail is `NULL`
job_remove-head :
    (l : List ℕ) (q : JobQueue) (x : ℕ)
    → Holds (x ∷ l) q
    → (j : Job) × (load q.jobs x ≡ ok j)
      × (job_remove q x ≡ ok (record { head = j.next; tail = 0; jobs = q.jobs }))
unfolding job_remove remove_head
job_remove-head l q x held =
    let (f, (j, h, p, s)) = held.links in
    (j, h, rw (equal x q.head f, h, ◌>>=◌, load-nonzero q.jobs x h) refl)
  where
    equal : (x y : ℕ) → y ≡ x → (x == y) ≡ true
    equal x y e = ground arith

-- the only job is removed
pub job_remove_only-Holds :
    (q : JobQueue) (x : ℕ) → Holds (x ∷ []) q → Yields (Holds []) (job_remove q x)
unfolding job_remove remove_head
job_remove_only-Holds q x held =
    let (f, (j, h, p, (at_end, back))) = held.links in
    rw (equal x q.head f, h, ◌>>=◌, load-nonzero q.jobs x h)
      (yields (record { links = (at_end, refl); distinct = tt }))
  where
    equal : (x y : ℕ) → y ≡ x → (x == y) ≡ true
    equal x y e = ground arith

-- Where the queue holds a first job, job_remove takes it out in such a way that the next
-- job_append loses all the others: the queue then holds the appended job alone.
pub job_remove-job_append-lost :
    (l : List ℕ) (q : JobQueue) (x jp : ℕ) {k : Job}
    → Holds (x ∷ l) q
    → load q.jobs jp ≡ ok k
    → Yields (Holds (jp ∷ [])) (job_remove q x >>= λ r. job_append r jp)
unfolding job_append append_placed
job_remove-job_append-lost l q x jp held h =
    let (j, g, run) = job_remove-head l q x held in
    let r : JobQueue = record { head = j.next; tail = 0; jobs = q.jobs } in
    let (m, placed, p) = place q.jobs jp 0 0 (append_placed r jp) h in
    rw (run, ◌>>=◌, placed)
      (yields (record { links = Segment-one m 0 jp 0 p.loaded p.prev p.next; distinct = (tt, tt) }))

remove_tail-Holds :
    (l : List ℕ) (q : JobQueue) (y x : ℕ)
    → Holds ((l ++ y ∷ []) ++ x ∷ []) q
    → Yields (Holds ((l ++ y ∷ []) ++ [])) (remove_tail q x)
unfolding remove_tail
remove_tail-Holds l q y x held =
    let c = Segment-Cut q.jobs 0 q.head (l ++ y ∷ []) (x ∷ []) q.tail 0 held.links in
    let (at, (j, h, p, (forward, back))) = c.right in
    let (nl, nl', d) = IsDistinct-middle (l ++ y ∷ []) x [] held.distinct in
    let (ny, ny', d') =
      IsDistinct-middle l y [] (subst IsDistinct (append_assoc l (y ∷ []) []) d) in
    rw (h, ◌>>=◌, p)
      (Yields-bind (set_next-Segment q.jobs 0 q.head y l c.back c.forth j.next ny c.left)
        (λ m (r, same). yields (record {
          links =
              Segment-append m 0 q.head (l ++ y ∷ []) c.back j.next [] c.back 0 r (forward, refl);
          distinct = d;
        })))

remove_inner-Holds :
    (l l' : List ℕ) (q : JobQueue) (y x z : ℕ)
    → Holds ((l ++ y ∷ []) ++ x ∷ z ∷ l') q
    → Yields (Holds ((l ++ y ∷ []) ++ z ∷ l')) (remove_inner q x)
unfolding remove_inner
remove_inner-Holds l l' q y x z held =
    let c = Segment-Cut q.jobs 0 q.head (l ++ y ∷ []) (x ∷ z ∷ l') q.tail 0 held.links in
    let (at, (j, h, p, s)) = c.right in
    let (nl, nl', d) = IsDistinct-middle (l ++ y ∷ []) x (z ∷ l') held.distinct in
    let (ny, ny', d') =
      IsDistinct-middle l y (z ∷ l') (subst IsDistinct (append_assoc l (y ∷ []) (z ∷ l')) d) in
    let (nz, nz', d'') = IsDistinct-middle (l ++ y ∷ []) z l' d in
    let (nx, nx') = NotIn-split x l (y ∷ []) nl in
    rw (h, ◌>>=◌, p)
      (Yields-bind (set_next-Segment q.jobs 0 q.head y l c.back c.forth j.next ny c.left)
        (λ m (r, same).
          rw (same x (eq-sym x y (nx'.0)) ∙ h, ◌>>=◌, p)
            (Yields-bind
              (set_prev-Segment m x j.next z l' q.tail 0 c.back nz'
                (Segment-elsewhere q.jobs m y x j.next (z ∷ l') q.tail 0 same ny' s))
              (λ m₁ (r₁, same₁). yields (record {
                links =
                    Segment-append m₁ 0 q.head (l ++ y ∷ []) c.back j.next (z ∷ l') q.tail 0
                      (Segment-elsewhere m m₁ z 0 q.head (l ++ y ∷ []) c.back j.next same₁ nz r) r₁;
                distinct = d;
              })))))

-- Where the queue holds a job that is not the first, job_remove takes it out, and the queue holds
-- the others in the same order.
pub job_remove-Holds :
    (l l' : List ℕ) (q : JobQueue) (y x : ℕ)
    → Holds ((l ++ y ∷ []) ++ x ∷ l') q
    → Yields (Holds ((l ++ y ∷ []) ++ l')) (job_remove q x)
unfolding job_remove
job_remove-Holds l l' q y x held =
    let c = Segment-Cut q.jobs 0 q.head (l ++ y ∷ []) (x ∷ l') q.tail 0 held.links in
    let (nl, nl', d) = IsDistinct-middle (l ++ y ∷ []) x l' held.distinct in
    rw (first-NotIn q.jobs 0 q.head y l x c.back c.forth nl c.left) (go l' held c nl')
  where
    is_tail : (x t : ℕ) → t ≡ x → (x == t) ≡ true
    is_tail x t e = ground arith

    go :
        (l' : List ℕ)
        → Holds ((l ++ y ∷ []) ++ x ∷ l') q
        → Cut q.jobs 0 q.head (l ++ y ∷ []) (x ∷ l') q.tail 0
        → NotIn x l'
        → Yields
            (Holds ((l ++ y ∷ []) ++ l'))
            (if x == q.tail then remove_tail q x else remove_inner q x)
    go [] held c nl' =
        let (at, (j, h, p, (forward, back))) = c.right in
        rw (is_tail x q.tail back) (remove_tail-Holds l q y x held)
    go (z ∷ l') held c nl' =
        let (at, (j, h, p, s)) = c.right in
        rw (last-NotIn q.jobs x j.next z l' x q.tail 0 nl' s) (remove_inner-Holds l l' q y x z held)
