-- ===== src/FooTable/Release.antt =====
-- The table after the second part of `foo_rele`.
use mathlib.Core.Path.{subst}
use code_learning.Base.{
  ℕ, zero, suc, ◌<◌, ◌≤◌, ◌≡◌, refl, sym, ap, ◌∙◌, arith, Bool, true, false, ◌==◌, List, [], ◌∷◌,
  ◌++◌, length, length-set, set, ◌!◌, !-set, !-set_self, read-ok, write-ok, ok, ◌>>=◌, Yields,
  yields, Yields-bind, Yields-weaken,
}
use code_learning.Base.Int.{ℤ, pos, ◌≤ℤ◌, eqb_ℤ}
use code_learning.JobQueue.Links.{NotIn, IsDistinct, NotIn-split, IsDistinct-middle}
use code_learning.FooTable.{
  Foo, Memory, Table, nhash, hash, load, update, unlink, remove, rele_second,
}
use code_learning.FooTable.Chains.{
  Chain, Holds, put, hash-bound, load-nonzero, load-other, load-update, Chain-other, Chain-NotIn,
  loaded_same,
}
use code_learning.FooTable.Alloc.{put-Chain, put-IsDistinct}

-- One object of `seen`, in bucket `i`, has another link, and from `p` on the chain has `l`.
data Unlinked (m : Memory) (i p : ℕ) (seen l : List ℕ) : Memory → Type 0 where
  unlinked :
      (z : ℕ) (g : Foo) (next : ℕ)
      → load m z ≡ ok g
      → hash g.id ≡ i
      → ((y : ℕ) → NotIn y seen → (z == y) ≡ false)
      → Chain (update m z (record g { next = next })) i p l
      → Unlinked m i p seen l (update m z (record g { next = next }))

eqb-sym : (a b : ℕ) → (a == b) ≡ false → (b == a) ≡ false
eqb-sym a b h = ground arith

rewrite_left : (a b c : ℕ) (answer : Bool) → a ≡ b → (b == c) ≡ answer → (a == c) ≡ answer
rewrite_left a b c answer e h = ap (λ x. x == c) e ∙ h

itself : (a b : ℕ) → a ≡ b → (a == b) ≡ true
itself a b e = ground arith

-- one more object in front
linked :
    (m : Memory) (i p x : ℕ) (g : Foo) (seen l : List ℕ) (m' : Memory)
    → p ≡ x
    → load m x ≡ ok g
    → hash g.id ≡ i
    → pos 1 ≤ℤ g.count
    → NotIn x seen
    → Unlinked m i g.next seen l m'
    → Unlinked m i p (x ∷ seen) (x ∷ l) m'
linked m i p x g seen l m' at h home n fresh (unlinked z f next here inside among c) =
    unlinked z f next here inside (λ y out. among y (out.1))
      (at, (g, load-other m z (record f { next = next }) x (among x fresh) ∙ h, home, n, c))

unlink-Unlinked :
    (k : ℕ) (m : Memory) (i p x : ℕ) (before : List ℕ) (fp : ℕ) (after : List ℕ) (f : Foo)
    → load m fp ≡ ok f
    → Chain m i p (x ∷ before ++ fp ∷ after)
    → IsDistinct (x ∷ before ++ fp ∷ after)
    → length before < k
    → Yields (Unlinked m i p (x ∷ before) (x ∷ before ++ after)) (unlink k m p fp f.next)
unfolding unlink
unlink-Unlinked zero m i p x before fp after f h c d lt = absurd (omega arith)
unlink-Unlinked (suc k) m i p x [] fp after f h
      (at, (g, h', home, n, (at', (f', h'', home', n', c)))) ((ne, fresh), d) lt =
    let g' : Foo = record g { next = f.next } in
    rw (at, h', ◌>>=◌, itself g.next fp at')
      (yields (
        unlinked x g f.next h' home (λ y out. eqb-sym y x (out.0))
          (
            refl,
            (
              g',
              load-update m x g' (load-nonzero m x h'),
              home,
              n,
              Chain-other m x g' i f.next after fresh (
                  subst (λ q. Chain m i q after)
                    (ap (λ k. k.next) (loaded_same m fp fp f' f h'' h refl)) c),
            ),
          )))
unlink-Unlinked (suc k) m i p x (y ∷ before) fp after f h (at, (g, h', home, n, c)) (fresh, d) lt =
    rw
      (
        at,
        h',
        ◌>>=◌,
        rewrite_left g.next y fp false (c.0) ((NotIn-split y before (fp ∷ after) (d.0)).1.0),
      )
      (Yields-weaken (unlink-Unlinked k m i g.next y before fp after f h c d (omega arith)) (λ m' u.
        linked m i x x g (y ∷ before) (y ∷ before ++ after) m' refl h' home n
          ((NotIn-split x (y ∷ before) (fp ∷ after) fresh).0) u))

same_bucket : (a i j : ℕ) → a ≡ i → (i == j) ≡ false → (a == j) ≡ false
same_bucket a i j e ne = ap (λ x. x == j) e ∙ ne

-- the table without the first object of a bucket
first-Holds :
    (lists : ℕ → List ℕ) (t : Table) (i fp : ℕ) (after : List ℕ) (f : Foo)
    → Holds lists t
    → i < nhash
    → lists i ≡ fp ∷ after
    → load t.foos fp ≡ ok f
    → Holds (put lists i after) (record t { heads = set t.heads i f.next })
first-Holds lists t i fp after f held lt e h =
    let t' : Table = record t { heads = set t.heads i f.next } in
    let (at, (f', h', home, n, c)) = subst (Chain t.foos i (t.heads ! i)) e (held.chains i lt) in
    record {
      size = length-set t.heads i f.next ∙ held.size;
      chains =
          put-Chain lists t t' i after
            (λ j lj ne.
              subst (λ q. Chain t.foos j q (lists j))
                (ground (arith, !-set t.heads i j f.next, held.size)) (held.chains j lj))
            (subst (λ q. Chain t.foos i q after)
              (ap (λ k. k.next) (loaded_same t.foos fp fp f' f h' h refl)
                ∙ sym (!-set_self t.heads i f.next (omega (arith, held.size))))
              c);
      distinct =
          put-IsDistinct lists i after held.distinct ((subst IsDistinct e (held.distinct i lt)).1);
    }

-- the table without a later object of a bucket
later-Holds :
    (lists : ℕ → List ℕ) (t : Table) (i fp x : ℕ) (before after : List ℕ) (m' : Memory)
    → Holds lists t
    → i < nhash
    → lists i ≡ x ∷ before ++ fp ∷ after
    → Unlinked t.foos i (t.heads ! i) (x ∷ before) (x ∷ before ++ after) m'
    → Holds (put lists i (x ∷ before ++ after)) (record t { foos = m' })
later-Holds lists t i fp x before after m' held lt e (unlinked z g next h home among c) =
    let g' : Foo = record g { next = next } in
    record {
      size = held.size;
      chains =
          put-Chain lists t (record t { foos = update t.foos z g' }) i (x ∷ before ++ after)
            (λ j lj ne.
              Chain-other t.foos z g' j (t.heads ! j) (lists j)
                (Chain-NotIn t.foos z g j (t.heads ! j) (lists j) h
                  (same_bucket (hash g.id) i j home ne) (held.chains j lj))
                (held.chains j lj))
            c;
      distinct =
          put-IsDistinct lists i (x ∷ before ++ after) held.distinct
            ((IsDistinct-middle (x ∷ before) fp after (subst IsDistinct e (held.distinct i lt))).2);
    }

remove-Holds :
    (lists : ℕ → List ℕ) (k : ℕ) (t : Table) (before : List ℕ) (fp : ℕ) (after : List ℕ) (f : Foo)
    → Holds lists t
    → lists (hash f.id) ≡ before ++ fp ∷ after
    → load t.foos fp ≡ ok f
    → length before ≤ k
    → Yields (Holds (put lists (hash f.id) (before ++ after))) (remove k t fp f)
unfolding remove
remove-Holds lists k t [] fp after f held e h le =
    let i = hash f.id in
    let lt = hash-bound f.id in
    let c = subst (Chain t.foos i (t.heads ! i)) e (held.chains i lt) in
    rw
      (
        read-ok t.heads i (omega (arith, held.size, lt)),
        ◌>>=◌,
        itself (t.heads ! i) fp (c.0),
        write-ok t.heads i f.next (omega (arith, held.size, lt)),
        ◌>>=◌,
      )
      (yields (first-Holds lists t i fp after f held lt e h))
remove-Holds lists k t (x ∷ before) fp after f held e h le =
    let i = hash f.id in
    let lt = hash-bound f.id in
    let c = subst (Chain t.foos i (t.heads ! i)) e (held.chains i lt) in
    let d = subst IsDistinct e (held.distinct i lt) in
    rw
      (
        read-ok t.heads i (omega (arith, held.size, lt)),
        ◌>>=◌,
        rewrite_left (t.heads ! i) x fp false (c.0) ((NotIn-split x before (fp ∷ after) (d.0)).1.0),
      )
      (Yields-bind
        (unlink-Unlinked k t.foos i (t.heads ! i) x before fp after f h c d (omega arith))
        (λ m' u. yields (later-Holds lists t i fp x before after m' held lt e u)))

-- In a table that holds its chains, where the object is on the chain of its bucket and is counted
-- once, and the fuel is at least the number of objects before it, the rest of foo_rele ends and
-- takes it out of the chain: the objects before it and behind it stay in their order, and so do the
-- other chains.
pub rele_second-Holds :
    (lists : ℕ → List ℕ) (k : ℕ) (t : Table) (before : List ℕ) (fp : ℕ) (after : List ℕ) (f : Foo)
    → Holds lists t
    → lists (hash f.id) ≡ before ++ fp ∷ after
    → load t.foos fp ≡ ok f
    → f.count ≡ pos 1
    → length before ≤ k
    → Yields (λ r. Holds (put lists (hash f.id) (before ++ after)) (r.0)) (rele_second k t fp)
unfolding rele_second
rele_second-Holds lists k t before fp after f held e h once le =
    rw (h, ◌>>=◌, is_one f.count once)
      (Yields-bind (remove-Holds lists k t before fp after f held e h le) (λ t₁ p. yields p))
  where
    is_one : (c : ℤ) → c ≡ pos 1 → eqb_ℤ c (pos 1) ≡ true
    is_one c e = ground arith
