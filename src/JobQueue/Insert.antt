-- ===== src/JobQueue/Insert.antt =====
-- The queue after `job_insert` and `job_append`.
use code_learning.Base.{
  ℕ, ◌≡◌, refl, ap, ◌∙◌, arith, true, ◌==◌, List, [], ◌∷◌, ◌++◌, Run, ok, ◌>>=◌, Yields, yields,
  Yields-bind,
}
use code_learning.JobQueue.{
  Job, Memory, JobQueue, load, update, set_next, set_prev, job_insert, insert_placed, job_append,
  append_placed,
}
use code_learning.JobQueue.Links.{
  NotIn-split, last_job, NotIn, Segment, Holds, Elsewhere, load-nonzero, update-Elsewhere,
  load-update, Segment-elsewhere, Segment-append, set_prev-Segment, set_next-Segment, eq-sym,
  IsDistinct-snoc, IsDistinct-middle, Snoc, snoc, nothing, last,
}

pub is_zero : (x : ℕ) → x ≡ 0 → (x == 0) ≡ true
is_zero x e = ground arith

-- both links of one job, set
pub record Placed (m : Memory) (jp a b : ℕ) (m₁ : Memory) : Type 0 where
  pub job : Job
  pub loaded : load m₁ jp ≡ ok job
  pub next : job.next ≡ a
  pub prev : job.prev ≡ b
  pub same : Elsewhere jp m m₁

pub place :
    (m : Memory) (jp a b : ℕ) (f : Memory → Run JobQueue) {j : Job}
    → load m jp ≡ ok j
    → (m₁ : Memory) × ((set_next m jp a >>= λ n. set_prev n jp b >>= f) ≡ f m₁) × Placed m jp a b m₁
unfolding set_next set_prev
place m jp a b f {j = j} h =
    let j₁ = record j { next = a } in
    let m₁ = update m jp j₁ in
    let h₁ = load-update m jp j₁ h in
    let j₂ = record j₁ { prev = b } in
    (
      update m₁ jp j₂,
      rw (h, ◌>>=◌, h₁) refl,
      record {
        job = j₂;
        loaded = load-update m₁ jp j₂ h₁;
        next = refl;
        prev = refl;
        same = λ y ne. update-Elsewhere m₁ jp j₂ y ne ∙ update-Elsewhere m jp j₁ y ne;
      },
    )

-- one job alone
pub Segment-one :
    (m : Memory) (b jp a : ℕ) {j : Job}
    → load m jp ≡ ok j
    → j.prev ≡ b
    → j.next ≡ a
    → Segment m b jp (jp ∷ []) jp a
Segment-one m b jp a {j = j} h p n = (refl, (j, h, p, (n, refl)))

pub job_insert-Holds :
    (l : List ℕ) (q : JobQueue) (jp : ℕ) {j : Job}
    → Holds l q
    → NotIn jp l
    → load q.jobs jp ≡ ok j
    → Yields (Holds (jp ∷ l)) (job_insert q jp)
unfolding job_insert insert_placed
job_insert-Holds [] q jp held fresh h =
    let (f, t) = held.links in
    let (m₁, run, p) = place q.jobs jp q.head 0 (insert_placed q jp) h in
    rw (run, is_zero q.head f)
      (yields (record {
        links = Segment-one m₁ 0 jp 0 p.loaded p.prev (p.next ∙ f);
        distinct = (tt, tt);
      }))
job_insert-Holds (x ∷ l) q jp held (ne, fresh) h =
    let (f, (k, g, b, s)) = held.links in
    let (m₁, run, p) = place q.jobs jp q.head 0 (insert_placed q jp) h in
    let moved =
      Segment-elsewhere q.jobs m₁ jp 0 q.head (x ∷ l) q.tail 0 p.same (ne, fresh) held.links in
    rw (run, ap (λ y. y == 0) f ∙ load-nonzero q.jobs x g)
      (Yields-bind (set_prev-Segment m₁ 0 q.head x l q.tail 0 jp (held.distinct.0) moved)
        (λ m₂ (r, same). yields (record {
          links = (refl, (p.job, same jp (eq-sym jp x ne) ∙ p.loaded, p.prev, rw p.next r));
          distinct = ((ne, fresh), held.distinct);
        })))

pub job_append-Holds :
    (l : List ℕ) (q : JobQueue) (jp : ℕ) {j : Job}
    → Holds l q
    → NotIn jp l
    → load q.jobs jp ≡ ok j
    → Yields (Holds (l ++ jp ∷ [])) (job_append q jp)
unfolding job_append append_placed
job_append-Holds l q jp held fresh h = go (snoc l) held fresh
  where
    go :
        {l : List ℕ}
        → Snoc l
        → Holds l q
        → NotIn jp l
        → Yields (Holds (l ++ jp ∷ [])) (job_append q jp)
    go nothing held fresh =
        let (f, t) = held.links in
        let (m₁, run, p) = place q.jobs jp 0 q.tail (append_placed q jp) h in
        rw (run, is_zero q.tail t)
          (yields (record {
            links = Segment-one m₁ 0 jp 0 p.loaded (p.prev ∙ t) p.next;
            distinct = (tt, tt);
          }))
    go (last l x) held fresh =
        let (m₁, run, p) = place q.jobs jp 0 q.tail (append_placed q jp) h in
        let moved =
          Segment-elsewhere q.jobs m₁ jp 0 q.head (l ++ x ∷ []) q.tail 0 p.same fresh held.links in
        let (nx, rest, d) = IsDistinct-middle l x [] held.distinct in
        let (j, e, g) = last_job q.jobs 0 q.head l x q.tail 0 held.links in
        rw (run, ap (λ y. y == 0) e ∙ load-nonzero q.jobs x g)
          (Yields-bind (set_next-Segment m₁ 0 q.head x l q.tail 0 jp nx moved) (λ m₂ (r, same).
            yields (record {
              links = Segment-append m₂ 0 q.head (l ++ x ∷ []) q.tail jp (jp ∷ []) jp 0 r (
                  Segment-one m₂ q.tail jp 0
                    (same jp (eq-sym jp x ((NotIn-split jp l (x ∷ []) fresh).1.0)) ∙ p.loaded)
                    p.prev p.next);
              distinct = IsDistinct-snoc (l ++ x ∷ []) jp held.distinct fresh;
            })))
