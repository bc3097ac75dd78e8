-- ===== src/LinkedList/Chain.antt =====
-- The nodes of a list in the memory.
use code_learning.Base.{
  ℕ, zero, suc, ◌≡◌, ◌≢◌, refl, sym, ap, ◌∙◌, arith, List, [], ◌∷◌, ◌++◌, Option, some, ok, ◌>>=◌,
  Yields, yields,
}
use code_learning.LinkedList.{Node, Memory, update, load, insert}

-- a node's address and element
abbrev pub Item : Type 0
Item = ℕ × ℕ

-- from `p` on the nodes `items`, up to `NULL`
abbrev pub Chain : Memory → ℕ → List Item → Type 0
Chain m p [] = p ≡ 0
Chain m p (i ∷ items) =
    (p ≡ i.0)
    × (p ≢ 0)
    × ((next : ℕ) × (m p ≡ some (record { element = i.1; next = next })) × Chain m next items)

-- `p` is not the address of one of the nodes
abbrev pub Apart : ℕ → List Item → Type 0
Apart p [] = Unit
Apart p (i ∷ items) = (p ≢ i.0) × Apart p items

-- no address stands twice
abbrev pub Distinct : List Item → Type 0
Distinct [] = Unit
Distinct (i ∷ items) = Apart i.0 items × Distinct items

pub update-other :
    (m : Memory) (p q : ℕ) (content : Option Node) → p ≢ q → update m p content q ≡ m q
unfolding update
update-other m p q content ne = ground arith

pub update-here : (m : Memory) (p : ℕ) (content : Option Node) → update m p content p ≡ content
unfolding update
update-here m p content = ground arith

pub load-ok : (m : Memory) (p : ℕ) (n : Node) → p ≢ 0 → m p ≡ some n → load m p ≡ ok n
unfolding load
load-ok m zero n ne e = absurd (ne refl)
load-ok m (suc p) n ne e = rw (load, e) refl

pub Chain-update :
    (m : Memory) (q : ℕ) (content : Option Node) (items : List Item) (p : ℕ)
    → Apart q items
    → Chain m p items
    → Chain (update m q content) p items
Chain-update m q content [] p a c = c
Chain-update m q content (i ∷ items) p (ne, a) (at, pos, (next, e, c)) = (
  at,
  pos,
  (next, update-other m q p content (rw at ne) ∙ e, Chain-update m q content items next a c),
)

-- the node `p` on the way
pub record Located (m : Memory) (p e : ℕ) (back : List Item) : Type 0 where
  pub not_null : p ≢ 0
  pub next : ℕ
  pub content : m p ≡ some (record { element = e; next = next })
  pub behind : Chain m next back

pub locate :
    (m : Memory) (front : List Item) (l p e : ℕ) (back : List Item)
    → Chain m l (front ++ (p, e) ∷ back)
    → Located m p e back
locate m [] l p e back (at, pos, (next, c, rest)) = record {
  not_null = rw at at pos;
  next = next;
  content = rw at at c;
  behind = rest;
}
locate m (i ∷ front) l p e back (at, pos, (next, c, rest)) = locate m front next p e back rest

-- a new pointer in the node `p`
pub relink :
    (m : Memory) (front : List Item) (l p e q : ℕ) (back rest : List Item)
    → Apart p front
    → Chain m l (front ++ (p, e) ∷ back)
    → Chain (update m p (some (record { element = e; next = q }))) q rest
    → Chain (update m p (some (record { element = e; next = q }))) l (front ++ (p, e) ∷ rest)
relink m [] l p e q back rest a (at, pos, (next, c, old)) new = (
  at,
  pos,
  (
    q,
    ap (update m p (some (record { element = e; next = q }))) at
        ∙ update-here m p (some (record { element = e; next = q })),
    new,
  ),
)
relink m (i ∷ front) l p e q back rest (ne, a) (at, pos, (next, c, old)) new = (
  at,
  pos,
  (
    next,
    update-other m p l (some (record { element = e; next = q })) (rw at ne) ∙ c,
    relink m front next p e q back rest a old new,
  ),
)

Apart-front :
    (q : ℕ) (front : List Item) (i : Item) (back : List Item)
    → Apart q (front ++ i ∷ back)
    → q ≢ i.0
Apart-front q [] i back (ne, a) = ne
Apart-front q (j ∷ front) i back (ne, a) = Apart-front q front i back a

Apart-back :
    (q : ℕ) (front : List Item) (i : Item) (back : List Item)
    → Apart q (front ++ i ∷ back)
    → Apart q back
Apart-back q [] i back (ne, a) = a
Apart-back q (j ∷ front) i back (ne, a) = Apart-back q front i back a

pub Distinct-front :
    (front : List Item) (i : Item) (back : List Item)
    → Distinct (front ++ i ∷ back)
    → Apart i.0 front
Distinct-front [] i back d = tt
Distinct-front (j ∷ front) i back (a, d) =
    ((λ h. Apart-front j.0 front i back a (sym h)), Distinct-front front i back d)

pub Distinct-back :
    (front : List Item) (i : Item) (back : List Item)
    → Distinct (front ++ i ∷ back)
    → Apart i.0 back
Distinct-back [] i back (a, d) = a
Distinct-back (j ∷ front) i back (a, d) = Distinct-back front i back d

-- `Insert` after the node `p` of a list (the header counts as its first node) whose nodes have
-- distinct addresses, with a new node from `malloc`, ends without a fault, and the new node stands
-- behind `p`; the rest of the list is unchanged.
insert-Chain :
    (m : Memory) (x l : ℕ) (front : List Item) (p e : ℕ) (back : List Item) (tmp junk : ℕ)
    → tmp ≢ 0
    → Apart tmp (front ++ (p, e) ∷ back)
    → Distinct (front ++ (p, e) ∷ back)
    → Chain m l (front ++ (p, e) ∷ back)
    → Yields
        (λ m'. Chain m' l (front ++ (p, e) ∷ (tmp, x) ∷ back))
        (insert (some (tmp, junk)) m x l p)
unfolding insert
insert-Chain m x l front p e back tmp junk new apart d c =
    let first = some (record { element = x; next = junk }) in
    let m₁ = update m tmp first in
    let c₁ = Chain-update m tmp first (front ++ (p, e) ∷ back) l apart c in
    let at = locate m₁ front l p e back c₁ in
    let filled : Option Node = some (record { element = x; next = at.next }) in
    let m₂ = update m₁ tmp filled in
    let c₂ = Chain-update m₁ tmp filled (front ++ (p, e) ∷ back) l apart c₁ in
    let relinked : Option Node = some (record { element = e; next = tmp }) in
    rw (load-ok m₁ p (record { element = e; next = at.next }) at.not_null at.content, ◌>>=◌)
      (yields (
        relink m₂ front l p e tmp back ((tmp, x) ∷ back) (Distinct-front front (p, e) back d) c₂ (
          refl,
          new,
          (
            at.next,
            update-other m₂ p tmp relinked (λ h. Apart-front tmp front (p, e) back apart (sym h))
                ∙ update-here m₁ tmp filled,
            Chain-update m₂ p relinked back at.next (Distinct-back front (p, e) back d) (
                Chain-update m₁ tmp filled back at.next (Apart-back tmp front (p, e) back apart)
                  at.behind),
          ),
        )))
