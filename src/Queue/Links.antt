-- ===== src/Queue/Links.antt =====
-- The links of src/api/xternal/xqueue.c: the items of a queue from its tail to its head, each with the
-- element that was copied into it.
use auks.Base.{
  ℕ, ◌≡◌, ◌≢◌, inl, inr, refl, true, Option, none, some, List, [], ◌∷◌, arith, length, Bool-cases,
}
use auks.Base.Memory.{read_at}
use auks.Freelist.{Item}
use auks.Queue.{Cell, same_item, put_cell}

-- An item, and the element that it holds.
pub record Entry : Type 0 where
  pub item : Item
  pub element : List ℕ

-- The item that was queued first, and the one that was queued last: behind all of these is `older`.
unfoldable pub first : List Entry → Option Item
first [] = none
first (e ∷ es) = some e.item

unfoldable pub last_from : Option Item → List Entry → Option Item
last_from older [] = older
last_from older (e ∷ es) = last_from (some e.item) es

-- The item is none of these.
unfoldable pub Fresh : Item → List Entry → Type 0
Fresh i [] = Unit
Fresh i (e ∷ es) = (i ≢ e.item) × Fresh i es

-- `next` leads to the older item and `previous` to the newer one, and the bytes begin with the
-- element.
pub record IsCell (older newer : Option Item) (element : List ℕ) (c : Cell) : Type 0 where
  pub next_eq : c.next ≡ older
  pub previous_eq : c.previous ≡ newer
  pub read_eq : read_at c.bytes 0 (length element) ≡ some element

unfoldable pub Linked : (Item → Cell) → Option Item → List Entry → Type 0
Linked cells older [] = Unit
Linked cells older (e ∷ es) =
    IsCell older (first es) e.element (cells e.item) × Linked cells (some e.item) es

-- No item is there twice.
unfoldable pub Distinct : List Entry → Type 0
Distinct [] = Unit
Distinct (e ∷ es) = Fresh e.item es × Distinct es

same_item_refl : (i : Item) → same_item i i ≡ true
unfolding same_item
same_item_refl i = ground arith

same_item-eq : (i j : Item) → same_item i j ≡ true → i ≡ j
unfolding same_item
same_item-eq i j h =
    let a : i.depth ≡ j.depth = ground arith in
    let b : i.index ≡ j.index = ground arith in λ k. record { depth = a k; index = b k }

pub put_cell-here : (i : Item) (c : Cell) (cells : Item → Cell) → put_cell i c cells i ≡ c
unfolding put_cell
put_cell-here i c cells = rw (same_item_refl i) refl

pub put_cell-other :
    (i j : Item) (c : Cell) (cells : Item → Cell) → i ≢ j → put_cell i c cells j ≡ cells j
unfolding put_cell
put_cell-other i j c cells h = elim (Bool-cases (same_item i j)) [
  | inl same ↦ absurd (h (same_item-eq i j same))
  | inr other ↦ rw other refl
]

-- Other items are linked as before.
pub Linked-unchanged :
    (cells new : Item → Cell) (older : Option Item) (es : List Entry)
    → Linked cells older es
    → ((i : Item) → (Fresh i es → ⊥) → new i ≡ cells i)
    → Linked new older es
unfolding Linked Fresh
Linked-unchanged cells new older [] l h = tt
Linked-unchanged cells new older (e ∷ es) (c, l) h = (
  rw (h e.item (λ (f, _). f refl)) c,
  Linked-unchanged cells new (some e.item) es l (λ i f. h i (λ (_, g). f g)),
)
