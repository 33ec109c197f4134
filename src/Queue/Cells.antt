-- ===== src/Queue/Cells.antt =====
-- The writes to the links of src/api/xternal/xqueue.c: an item that is linked before the head, and the
-- tail that is taken off.
use auks.Base.{
  ℕ, suc, ◌+◌, ◌≡◌, ◌≢◌, refl, sym, ap, ◌∙◌, subst, Option, none, some, List, [], ◌∷◌, ◌++◌, arith,
  length, some_injective,
}
use auks.Base.Memory.{read_at}
use auks.Freelist.{Item}
use auks.Queue.{Cell, put_cell, length_from}
use auks.Queue.Links.{
  Entry, first, last_from, Fresh, Linked, Distinct, put_cell-here, put_cell-other, Linked-unchanged,
}

-- Behind an item, the last one is that item or one of the others.
pub last_from-some : (i : Item) (es : List Entry) → (j : Item) × (last_from (some i) es ≡ some j)
unfolding last_from
last_from-some i [] = (i, refl)
last_from-some i (e ∷ es) = last_from-some e.item es

last_from-Fresh :
    (i j : Item) (e : Entry) (es : List Entry)
    → Fresh i (e ∷ es)
    → last_from (some e.item) es ≡ some j
    → i ≢ j
unfolding last_from Fresh
last_from-Fresh i j e [] (f, _) h = λ same. f (same ∙ sym (some_injective h))
last_from-Fresh i j e (d ∷ es) (_, f) h = last_from-Fresh i j d es f h

-- The writes of an enqueue to a queue that is not empty.
record Prepends (i head : Item) (bytes : List ℕ) (cells new : Item → Cell) : Type 0 where
  pub item_eq : new i ≡ record { next = some head; previous = none; bytes = bytes }
  pub head_eq : new head ≡ record (cells head) { previous = some i }
  pub others : (j : Item) → i ≢ j → head ≢ j → new j ≡ cells j

put_cell-Prepends :
    (i head : Item) (bytes : List ℕ) (cells : Item → Cell)
    → i ≢ head
    → Prepends i head bytes cells (
        put_cell i
          (record { next = some head; previous = none; bytes = bytes })
          (put_cell head (record (cells head) { previous = some i }) cells))
put_cell-Prepends i head bytes cells h = record {
  item_eq = put_cell-here i _ _;
  head_eq = put_cell-other i head _ _ h ∙ put_cell-here head _ cells;
  others = λ j a b. put_cell-other i j _ _ a ∙ put_cell-other head j _ cells b;
}

append-Linked :
    (i head : Item) (bytes element : List ℕ) (cells new : Item → Cell) (older : Option Item)
    (es : List Entry)
    → Prepends i head bytes cells new
    → read_at bytes 0 (length element) ≡ some element
    → Linked cells older es
    → Distinct es
    → Fresh i es
    → last_from older es ≡ some head
    → Linked new older (es ++ (record { item = i; element = element } ∷ []))
unfolding Linked Distinct Fresh last_from first
append-Linked i head bytes element cells new older [] p r l d f h =
    (rw p.item_eq (record { next_eq = sym h; previous_eq = refl; read_eq = r }), tt)
append-Linked i head bytes element cells new older (e ∷ []) p r (c, l) d (f, _) h =
    let same : e.item ≡ head = some_injective h in
    let cell_eq : new e.item ≡ record (cells e.item) { previous = some i } =
      subst (λ j. new j ≡ record (cells j) { previous = some i }) (sym same) p.head_eq in
    (
      rw cell_eq (record { next_eq = c.next_eq; previous_eq = refl; read_eq = c.read_eq }),
      append-Linked i head bytes element cells new (some e.item) [] p r tt tt tt h,
    )
append-Linked i head bytes element cells new older (e ∷ a ∷ es) p r (c, l) (g, d) (f, fs) h = (
  rw (p.others e.item f (λ same. last_from-Fresh e.item head a es g h (sym same))) c,
  append-Linked i head bytes element cells new (some e.item) (a ∷ es) p r l d fs h,
)

-- The first item of a queue, and one that comes before the head.
pub alone-Linked :
    (i : Item) (bytes element : List ℕ) (cells : Item → Cell)
    → read_at bytes 0 (length element) ≡ some element
    → Linked
        (put_cell i (record { next = none; previous = none; bytes = bytes }) cells)
        none
        (record { item = i; element = element } ∷ [])
unfolding Linked first
alone-Linked i bytes element cells r =
    (rw (put_cell-here i _ cells) (record { next_eq = refl; previous_eq = refl; read_eq = r }), tt)

pub prepended-Linked :
    (i head : Item) (bytes element : List ℕ) (cells : Item → Cell) (e : Entry) (es : List Entry)
    → read_at bytes 0 (length element) ≡ some element
    → Linked cells none (e ∷ es)
    → Distinct (e ∷ es)
    → Fresh i (e ∷ es)
    → last_from none (e ∷ es) ≡ some head
    → Linked
        (put_cell i
          (record { next = some head; previous = none; bytes = bytes })
          (put_cell head (record (cells head) { previous = some i }) cells))
        none
        (e ∷ es ++ (record { item = i; element = element } ∷ []))
unfolding last_from
prepended-Linked i head bytes element cells e es r l d f h =
    append-Linked i head bytes element cells _ none (e ∷ es)
      (put_cell-Prepends i head bytes cells (last_from-Fresh i head e es f h)) r l d f h

-- The writes of a dequeue: `older` becomes the tail.
pub shifted-Linked :
    (i : Item) (c : Cell) (cells : Item → Cell) (e : Entry) (es : List Entry)
    → Linked cells (some i) (e ∷ es)
    → Distinct (e ∷ es)
    → Fresh i (e ∷ es)
    → Linked
        (put_cell i c (put_cell e.item (record (cells e.item) { next = none }) cells))
        none
        (e ∷ es)
unfolding Linked Distinct Fresh
shifted-Linked i c cells e es (k, l) (d, _) (f, g) = (
  rw (put_cell-other i e.item c _ f, put_cell-here e.item _ cells)
      (record { next_eq = refl; previous_eq = k.previous_eq; read_eq = k.read_eq }),
  Linked-unchanged cells _ (some e.item) es l (λ j h.
      put_cell-other i j c _ (λ same. h (subst (λ x. Fresh x es) same g))
      ∙ put_cell-other e.item j _ cells (λ same. h (subst (λ x. Fresh x es) same d))),
)

-- The walk from the head to the tail.
pub length_from-last_from :
    (fuel : ℕ) (cells : Item → Cell) (older : Option Item) (es : List Entry) (n : ℕ)
    → Linked cells older es
    → length_from (length es + fuel) cells (last_from older es) n
      ≡ length_from fuel cells older (n + length es)
unfolding Linked last_from length_from
length_from-last_from fuel cells older [] n l =
    let none_more : length {A = Entry} [] + fuel ≡ fuel = omega arith in
    ap (λ k. length_from k cells older n) none_more
    ∙ ap (length_from fuel cells older) (omega arith)
length_from-last_from fuel cells older (e ∷ es) n (c, l) =
    let more : length (e ∷ es) + fuel ≡ length es + suc fuel = omega arith in
    ap (λ k. length_from k cells (last_from (some e.item) es) n) more
    ∙ length_from-last_from (suc fuel) cells (some e.item) es n l
    ∙ ap (λ o. length_from fuel cells o (n + length es + 1)) c.next_eq
    ∙ ap (length_from fuel cells older) (omega arith)
