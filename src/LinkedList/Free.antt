-- ===== src/LinkedList/Free.antt =====
-- `DeleteList` on a list in the memory.
use code_learning.Base.{
  ℕ, zero, suc, ◌<◌, ◌≡◌, ◌≢◌, refl, sym, ap, ◌∙◌, arith, List, [], ◌∷◌, Option, none, some, ◌>>=◌,
  Yields, Yields-weaken, yields, length,
}
use code_learning.LinkedList.{Node, Memory, update, free_from, delete_list}
use code_learning.LinkedList.Chain.{
  Item, Chain, Apart, Distinct, update-other, update-here, load-ok, Chain-update,
}
use code_learning.LinkedList.Delete.{Listed, null}

-- no node is allocated any more
abbrev Freed : Memory → List Item → Type 0
Freed m [] = Unit
Freed m (i ∷ items) = (m i.0 ≡ none) × Freed m items

-- the nodes are freed and nothing else has changed
abbrev OnlyFreed : Memory → List Item → Memory → Type 0
OnlyFreed m items m' = Freed m' items × ((q : ℕ) → Apart q items → m' q ≡ m q)

free_from-OnlyFreed :
    (k : ℕ) (m : Memory) (p : ℕ) (items : List Item)
    → length items < k
    → Distinct items
    → Chain m p items
    → Yields (OnlyFreed m items) (free_from k m p)
unfolding free_from
free_from-OnlyFreed zero m p items lt d c = absurd (omega arith)
free_from-OnlyFreed (suc k) m p [] lt d at = rw at (yields (tt, λ q a. refl))
free_from-OnlyFreed (suc k) m p (i ∷ items) lt (a, d) (at, pos, (next, content, rest)) =
    rw (null p pos, load-ok m p (record { element = i.1; next = next }) pos content, ◌>>=◌)
      (Yields-weaken
        (free_from-OnlyFreed k (update m p none) next items (omega arith) d
          (Chain-update m p none items next (rw at a) rest))
        λ m' (freed, kept). (
          ((kept i.0 a ∙ ap (update m p none) (sym at) ∙ update-here m p none), freed),
          λ q (ne, away). kept q away ∙ update-other m p q none (λ h. ne (sym h ∙ at)),
        ))

-- `DeleteList` on a list with a header, whose nodes have distinct addresses, ends without a fault
-- in at most as many rounds as there are nodes. The list is empty, the nodes behind the header are
-- freed, and every other address keeps its content.
delete_list-OnlyFreed :
    (k : ℕ) (m : Memory) (l e : ℕ) (items : List Item)
    → length items < k
    → Listed m l ((l, e) ∷ items)
    → Yields
        (λ m'.
          Chain m' l ((l, e) ∷ [])
          × Freed m' items
          × ((q : ℕ) → q ≢ l → Apart q items → m' q ≡ m q))
        (delete_list k m l)
unfolding delete_list
delete_list-OnlyFreed k m l e items lt ((a, d), (at, pos, (next, content, rest))) =
    let header : Option Node = some (record { element = e; next = 0 }) in
    rw (load-ok m l (record { element = e; next = next }) pos content, ◌>>=◌)
      (Yields-weaken
        (free_from-OnlyFreed k (update m l header) next items lt d
          (Chain-update m l header items next a rest))
        λ m' (freed, kept). (
          (refl, pos, (0, kept l a ∙ update-here m l header, refl)),
          freed,
          λ q ne away. kept q away ∙ update-other m l q header (λ h. ne (sym h)),
        ))
