-- ===== src/Queue/Held.antt =====
-- What a queue of src/api/xternal/xqueue.c stands for: the items that it holds in its freelist, and the
-- elements in their order.
use auks.Base.{
  ℕ, ◌≤◌, ◌≡◌, ◌≢◌, inl, inr, refl, sym, ap, subst, Option, none, some, List, [], ◌∷◌, ◌++◌, length,
  Bool-cases,
}
use auks.Freelist.{Freelist, Item}
use auks.Freelist.Ownership.{IsWellFormed, IsTaken, KeepsOthers}
use auks.Queue.{Cell, Queue, same_item, put_cell}
use auks.Queue.Links.{Entry, first, last_from, Fresh, Linked, Distinct}

-- Somebody holds each item of the queue, and its element fits into an item.
unfoldable pub Held : ℕ → Freelist → List Entry → Type 0
Held size l [] = Unit
Held size l (e ∷ es) =
    IsTaken e.item.depth e.item.index l × (length e.element ≤ size) × Held size l es

unfoldable pub elements : List Entry → List (List ℕ)
elements [] = []
elements (e ∷ es) = e.element ∷ elements es

-- The queue links these entries.
pub record Holds (q : Queue) (es : List Entry) : Type 0 where
  pub well_formed : IsWellFormed q.freelist
  pub sized : (i : Item) → length (q.cells i).bytes ≡ q.item_size
  pub held : Held q.item_size q.freelist es
  pub distinct : Distinct es
  pub linked : Linked q.cells none es
  pub head_eq : q.head ≡ last_from none es
  pub tail_eq : q.tail ≡ first es

-- The queue stands for these elements, the one that was queued first before the others.
pub record Represents (q : Queue) (ds : List (List ℕ)) : Type 0 where
  pub entries : List Entry
  pub holds : Holds q entries
  pub elements_eq : elements entries ≡ ds

pub elements-append : (es fs : List Entry) → elements (es ++ fs) ≡ elements es ++ elements fs
unfolding elements
elements-append [] fs = refl
elements-append (e ∷ es) fs = ap {B = List (List ℕ)} (λ r. e.element ∷ r) (elements-append es fs)

-- An item that nobody held is none of them.
pub Held-Fresh :
    (size : ℕ) (l : Freelist) (i : Item) (es : List Entry)
    → Held size l es
    → (IsTaken i.depth i.index l → ⊥)
    → Fresh i es
unfolding Held Fresh
Held-Fresh size l i [] h f = tt
Held-Fresh size l i (e ∷ es) (t, _, h) f =
    (λ same. f (subst (λ j. IsTaken j.depth j.index l) (sym same) t), Held-Fresh size l i es h f)

-- They are held as before when another item changes hands.
pub Held-others :
    (size : ℕ) (l new : Freelist) (i : Item) (es : List Entry)
    → Fresh i es
    → KeepsOthers i.depth i.index l new
    → Held size l es
    → Held size new es
unfolding Held Fresh
Held-others size l new i [] f k h = tt
Held-others size l new i (e ∷ es) (f, fs) k (t, s, h) =
    let apart : (e.item.depth ≡ i.depth) × (e.item.index ≡ i.index) → ⊥ =
      λ (a, b). f (λ j. record { depth = sym a j; index = sym b j }) in
    let (there, _) = k e.item.depth e.item.index apart in
    (there t, s, Held-others size l new i es fs k h)

pub Held-append :
    (size : ℕ) (l : Freelist) (i : Item) (d : List ℕ) (es : List Entry)
    → IsTaken i.depth i.index l
    → length d ≤ size
    → Held size l es
    → Held size l (es ++ (record { item = i; element = d } ∷ []))
unfolding Held
Held-append size l i d [] t s h = (t, s, tt)
Held-append size l i d (e ∷ es) t s (u, v, h) = (u, v, Held-append size l i d es t s h)

Fresh-append :
    (j i : Item) (d : List ℕ) (es : List Entry)
    → j ≢ i
    → Fresh j es
    → Fresh j (es ++ (record { item = i; element = d } ∷ []))
unfolding Fresh
Fresh-append j i d [] h f = (h, tt)
Fresh-append j i d (e ∷ es) h (f, g) = (f, Fresh-append j i d es h g)

pub Distinct-append :
    (i : Item) (d : List ℕ) (es : List Entry)
    → Fresh i es
    → Distinct es
    → Distinct (es ++ (record { item = i; element = d } ∷ []))
unfolding Distinct Fresh
Distinct-append i d [] f h = (tt, tt)
Distinct-append i d (e ∷ es) (f, fs) (g, h) =
    (Fresh-append e.item i d es (λ same. f (sym same)) g, Distinct-append i d es fs h)

pub last_from-append :
    (older : Option Item) (i : Item) (d : List ℕ) (es : List Entry)
    → last_from older (es ++ (record { item = i; element = d } ∷ [])) ≡ some i
unfolding last_from
last_from-append older i d [] = refl
last_from-append older i d (e ∷ es) = last_from-append (some e.item) i d es

pub put_cell-sized :
    (size : ℕ) (i : Item) (c : Cell) (cells : Item → Cell)
    → length c.bytes ≡ size
    → ((j : Item) → length (cells j).bytes ≡ size)
    → (j : Item) → length (put_cell i c cells j).bytes ≡ size
unfolding put_cell
put_cell-sized size i c cells h s j = elim (Bool-cases (same_item i j)) [
  | inl same ↦ rw same h
  | inr other ↦ rw other (s j)
]
