-- ===== src/LinkedList/Delete.antt =====
-- `FindPrevious` and `Delete` on a list in the memory.
use mathlib.Core.Path.{subst}
use code_learning.Base.{
  ℕ, zero, suc, ◌<◌, ◌≡◌, ◌≢◌, refl, sym, ap, ◌∙◌, arith, true, false, ◌==◌, if◌then◌else◌, List,
  [], ◌∷◌, ◌++◌, Option, none, some, ok, ◌>>=◌, Yields, Yields-split, Yields-weaken, Yields-value,
  yields, length,
}
use code_learning.LinkedList.{Node, Memory, update, find_previous, delete, is_last}
use code_learning.LinkedList.Chain.{
  Item, Chain, Apart, Distinct, load-ok, Chain-update, relink, locate, Distinct-back,
  Distinct-front,
}

-- the items without the first that has the element `x`
unfoldable pub remove : ℕ → List Item → List Item
remove x [] = []
remove x (i ∷ items) = if i.1 == x then items else i ∷ remove x items

-- what `FindPrevious` returns: the last node, if no node behind the first has `x`, and else the
-- node in front of the first that has
data Previous (x : ℕ) (items removed : List Item) (r : ℕ) : Type 0 where
  last :
      (front : List Item) (e : ℕ)
      → items ≡ front ++ (r, e) ∷ []
      → removed ≡ items
      → Previous x items removed r
  before :
      (front : List Item) (e q : ℕ) (back : List Item)
      → items ≡ front ++ (r, e) ∷ (q, x) ∷ back
      → removed ≡ front ++ (r, e) ∷ back
      → Previous x items removed r

Previous-later :
    {x : ℕ} {items removed : List Item} {r : ℕ} (i : Item)
    → Previous x items removed r
    → Previous x (i ∷ items) (i ∷ removed) r
Previous-later i (last front e a b) = last (i ∷ front) e (ap (λ z. i ∷ z) a) (ap (λ z. i ∷ z) b)
Previous-later i (before front e q back a b) =
    before (i ∷ front) e q back (ap (λ z. i ∷ z) a) (ap (λ z. i ∷ z) b)

pub null : (p : ℕ) → p ≢ 0 → (p == 0) ≡ false
null p ne = ground arith

same : {m n : ℕ} → (m == n) ≡ true → m ≡ n
same e = ground arith

find_previous-Previous :
    (k : ℕ) (m : Memory) (x p e : ℕ) (items : List Item)
    → length items < k
    → Chain m p ((p, e) ∷ items)
    → Yields (Previous x ((p, e) ∷ items) ((p, e) ∷ remove x items)) (find_previous k m x p)
unfolding find_previous remove
find_previous-Previous zero m x p e items lt c = absurd (omega arith)
find_previous-Previous (suc k) m x p e [] lt (at, pos, (next, content, end)) =
    rw (load-ok m p (record { element = e; next = next }) pos content, ◌>>=◌, end)
      (yields (last [] e refl refl))
find_previous-Previous (suc k) m x p e ((q, y) ∷ items) lt
      (at, pos, (next, content, (at', pos', (next', content', rest)))) =
    rw
      (
        load-ok m p (record { element = e; next = next }) pos content,
        ◌>>=◌,
        null next pos',
        load-ok m next (record { element = y; next = next' }) pos' content',
      )
      (Yields-split (y == x)
        (λ e'. rw e' (yields (before [] e q items (rw (sym (same e')) refl) refl)))
        (λ e'.
          rw (e', at')
            (Yields-weaken
              (find_previous-Previous k m x q y items (omega arith)
                (refl, rw (sym at') pos', (next', rw (sym at') content', rest)))
              λ r o. Previous-later (p, e) o)))

Apart-second :
    (p : ℕ) (front : List Item) (i j : Item) (back : List Item)
    → Apart p (front ++ i ∷ j ∷ back)
    → p ≢ j.0
Apart-second p [] i j back (n, (n', a)) = n'
Apart-second p (f ∷ front) i j back (n, a) = Apart-second p front i j back a

-- a removed node is apart from the others
Apart-removed :
    (front : List Item) (i j : Item) (back : List Item)
    → Distinct (front ++ i ∷ j ∷ back)
    → Apart j.0 (front ++ i ∷ back)
Apart-removed [] i j back ((ne, a), (a', d)) = ((λ h. ne (sym h)), a')
Apart-removed (f ∷ front) i j back (a, d) =
    ((λ h. Apart-second f.0 front i j back a (sym h)), Apart-removed front i j back d)

-- a list with `items` whose nodes have distinct addresses
abbrev pub Listed : Memory → ℕ → List Item → Type 0
Listed m l items = Distinct items × Chain m l items

deleted :
    (m : Memory) (x l r : ℕ) (front : List Item) (e q : ℕ) (back : List Item)
    → Listed m l (front ++ (r, e) ∷ (q, x) ∷ back)
    → (k : ℕ) → find_previous k m x l ≡ ok r
    → Yields (λ m'. Chain m' l (front ++ (r, e) ∷ back)) (delete k m x l)
unfolding delete is_last
deleted m x l r front e q back (d, c) k found =
    let at = locate m front l r e ((q, x) ∷ back) c in
    let (is_q, pos, (next', content', rest)) = at.behind in
    let relinked : Option Node = some (record { element = e; next = next' }) in
    rw
      (
        found,
        ◌>>=◌,
        load-ok m r (record { element = e; next = at.next }) at.not_null at.content,
        null at.next pos,
        load-ok m at.next (record { element = x; next = next' }) pos content',
      )
      (yields (
        Chain-update (update m r relinked) at.next none (front ++ (r, e) ∷ back) l
          (rw is_q (Apart-removed front (r, e) (q, x) back d))
          (relink m front l r e next' ((q, x) ∷ back) back
            (Distinct-front front (r, e) ((q, x) ∷ back) d) c
            (Chain-update m r relinked back next' (Distinct-back front (r, e) ((q, x) ∷ back) d).1
              rest))))

kept :
    (m : Memory) (x l r : ℕ) (front : List Item) (e : ℕ)
    → Chain m l (front ++ (r, e) ∷ [])
    → (k : ℕ) → find_previous k m x l ≡ ok r
    → Yields (λ m'. Chain m' l (front ++ (r, e) ∷ [])) (delete k m x l)
unfolding delete is_last
kept m x l r front e c k found =
    let at = locate m front l r e [] c in
    rw
      (
        found,
        ◌>>=◌,
        load-ok m r (record { element = e; next = at.next }) at.not_null at.content,
        at.behind,
      )
      (yields c)

-- `Delete` on a list with a header whose nodes have distinct addresses ends without a fault, in at
-- most as many rounds as there are nodes; the list has lost the first node behind the header with
-- `x`, if there is one, and keeps the others in their order.
pub delete-Chain :
    (k : ℕ) (m : Memory) (x l e : ℕ) (items : List Item)
    → length items < k
    → Listed m l ((l, e) ∷ items)
    → Yields (λ m'. Chain m' l ((l, e) ∷ remove x items)) (delete k m x l)
delete-Chain k m x l e items lt (d, c) =
    let (r, found, o) = Yields-value (find_previous-Previous k m x l e items lt c) in
    elim o [
      | last front e' a b ↦
          Yields-weaken (kept m x l r front e' (subst (Chain m l) a c) k found)
            λ m' new. subst (Chain m' l) (sym (b ∙ a)) new
      | before front e' q back a b ↦
          Yields-weaken (deleted m x l r front e' q back (subst (Listed m l) a (d, c)) k found)
            λ m' new. subst (Chain m' l) (sym b) new
    ]
