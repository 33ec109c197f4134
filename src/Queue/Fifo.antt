-- ===== src/Queue/Fifo.antt =====
-- `xqueue_dequeue_base` of src/api/xternal/xqueue.c: the elements come out in the order in which they
-- went in.
use auks.Base.{
  ℕ, zero, suc, ◌+◌, ◌-◌, ◌≤◌, ◌≡◌, ◌⊎◌, inl, inr, refl, sym, ap, ◌∙◌, subst, Bool, true, false,
  none, some, List, [], ◌∷◌, arith, length, if◌then◌else◌, le→ltb_false,
}
use auks.Base.Results.{Res, ok, err, fault, xerror_mutex_lock, xerror_queue_is_empty}
use auks.Freelist
use auks.Freelist.{Freelist, Item, init}
use auks.Freelist.Release.{Releases, release-Releases}
use auks.Queue.{
  Cell, Queue, Turn, waits, done, put_cell, shifted, released, removed, dequeued, dequeue_base,
  length_from, get_length,
}
use auks.Queue.Links.{Entry, first, last_from, Fresh, Linked, Distinct, put_cell-here}
use auks.Queue.Cells.{shifted-Linked, length_from-last_from}
use auks.Queue.Held.{Held, elements, Holds, Represents, Held-others, put_cell-sized}

-- What a dequeue comes to: the oldest element, and the others in their order are left; or, with no
-- element, a call that waits or an error, and no change.
abbrev pub Dequeues : Bool → Bool → Queue → List (List ℕ) → Res Queue (Turn (List ℕ)) → Type 0
Dequeues can_lock blocking q ds (ok (done d) new) =
    (es : List (List ℕ)) × (ds ≡ d ∷ es) × Represents new es
Dequeues can_lock blocking q ds (ok waits new) = (blocking ≡ true) × (ds ≡ []) × (new ≡ q)
Dequeues can_lock blocking q ds (err e new) =
    (new ≡ q)
    × (((can_lock ≡ false) × (e ≡ xerror_mutex_lock))
        ⊎ ((blocking ≡ false) × (ds ≡ []) × (e ≡ xerror_queue_is_empty)))
Dequeues can_lock blocking q ds fault = ⊥

-- The length that a caller asks for is that of the element at the tail.
unfoldable pub Asks : ℕ → List (List ℕ) → Type 0
Asks n [] = Unit
Asks n (d ∷ ds) = n ≡ length d

-- The queue without its tail, whose item is still held.
record Shifts (e : Entry) (es : List Entry) (q new : Queue) : Type 0 where
  pub linked : Linked new.cells none es
  pub head_eq : new.head ≡ last_from none es
  pub tail_eq : new.tail ≡ first es
  pub freelist_eq : new.freelist ≡ q.freelist
  pub item_size_eq : new.item_size ≡ q.item_size
  pub bytes_eq : (new.cells e.item).bytes ≡ (q.cells e.item).bytes
  pub sized : (i : Item) → length (new.cells i).bytes ≡ q.item_size

shifted-Shifts :
    (q : Queue) (e : Entry) (es : List Entry)
    → Holds q (e ∷ es)
    → Shifts e es q (shifted e.item (first es) q)
unfolding shifted first last_from Linked Distinct Fresh
shifted-Shifts q e [] h = record {
  linked = tt;
  head_eq = refl;
  tail_eq = refl;
  freelist_eq = refl;
  item_size_eq = refl;
  bytes_eq = ap (λ c. c.bytes) (put_cell-here e.item _ q.cells);
  sized = put_cell-sized q.item_size e.item _ q.cells (h.sized e.item) h.sized;
}
shifted-Shifts q e (f ∷ es) h =
    let (_, linked) = h.linked in
    let (fresh, distinct) = h.distinct in
    let cells = put_cell f.item (record (q.cells f.item) { next = none }) q.cells in
    record {
      linked = shifted-Linked e.item _ q.cells f es linked distinct fresh;
      head_eq = h.head_eq;
      tail_eq = refl;
      freelist_eq = refl;
      item_size_eq = refl;
      bytes_eq = ap (λ c. c.bytes) (put_cell-here e.item _ cells);
      sized =
          put_cell-sized q.item_size e.item _ cells (h.sized e.item)
            (put_cell-sized q.item_size f.item _ q.cells (h.sized f.item) h.sized);
    }

-- The item goes back to the freelist.
released-Dequeues :
    (can_lock blocking : Bool) (q new : Queue) (e : Entry) (es : List Entry)
    (r : Res Freelist (Unit {0}))
    → Holds q (e ∷ es)
    → Shifts e es q new
    → Releases e.item.depth e.item.index q.freelist r
    → Dequeues can_lock blocking q (elements (e ∷ es)) (released e.element new r)
unfolding released elements Held Distinct
released-Dequeues can_lock blocking q new e es (ok _ l) h s f =
    let (_, _, held) = h.held in
    let (fresh, distinct) = h.distinct in
    let others = Held-others q.item_size q.freelist l e.item es fresh f.others held in
    let holds : Holds (record new { freelist = l }) es = record {
      well_formed = f.well_formed;
      sized = λ i. s.sized i ∙ sym s.item_size_eq;
      held = subst (λ n. Held n l es) (sym s.item_size_eq) others;
      distinct = distinct;
      linked = s.linked;
      head_eq = s.head_eq;
      tail_eq = s.tail_eq;
    } in
    (elements es, refl, record { entries = es; holds = holds; elements_eq = refl })
released-Dequeues can_lock blocking q new e es (err x l) h s (_, free) =
    let (taken, _, _) = h.held in absurd (free taken)
released-Dequeues can_lock blocking q new e es fault h s d = d

held_fits :
    (q : Queue) (e : Entry) (es : List Entry) → Holds q (e ∷ es) → length e.element ≤ q.item_size
unfolding Held
held_fits q e es h = let (_, fits, _) = h.held in fits

removed-Dequeues :
    (blocking : Bool) (q : Queue) (e : Entry) (es : List Entry)
    → Holds q (e ∷ es)
    → Dequeues true blocking q
        (elements (e ∷ es))
        (removed e.item (length e.element) (shifted e.item (q.cells e.item).previous q))
unfolding removed Linked Held
removed-Dequeues blocking q e es h =
    let (cell, _) = h.linked in
    let s = shifted-Shifts q e es h in
    rw (cell.previous_eq, s.bytes_eq, cell.read_eq)
      (released-Dequeues true blocking q (shifted e.item (first es) q) e es _ h s (
        subst (λ l. Releases e.item.depth e.item.index q.freelist (Freelist.release e.item l))
          (sym s.freelist_eq) (release-Releases e.item q.freelist h.well_formed)))

length-elements : (es : List Entry) → length es ≡ length (elements es)
unfolding elements
length-elements [] = refl
length-elements (e ∷ es) = omega (arith, length-elements es)

length_from-none : (fuel : ℕ) (cells : Item → Cell) (n : ℕ) → length_from fuel cells none n ≡ some n
unfolding length_from
length_from-none zero cells n = refl
length_from-none (suc fuel) cells n = refl

first-Dequeues :
    (blocking : Bool) (n : ℕ) (q : Queue) (es : List Entry)
    → Holds q es
    → Asks n (elements es)
    → Dequeues true blocking q (elements es) (dequeued blocking n (first es) q)
unfolding dequeued first elements Asks
first-Dequeues true n q [] h a = (refl, refl, refl)
first-Dequeues false n q [] h a = (refl, inr (refl, refl, refl))
first-Dequeues blocking n q (e ∷ es) h a =
    rw (a, le→ltb_false q.item_size (length e.element) (held_fits q e es h))
      (removed-Dequeues blocking q e es h)

dequeued-Dequeues :
    (blocking : Bool) (n : ℕ) (q : Queue) (es : List Entry)
    → Holds q es
    → Asks n (elements es)
    → Dequeues true blocking q (elements es) (dequeued blocking n q.tail q)
dequeued-Dequeues blocking n q es h a =
    subst (λ t. Dequeues true blocking q (elements es) (dequeued blocking n t q)) (sym h.tail_eq)
      (first-Dequeues blocking n q es h a)

-- A dequeue of as many bytes as the oldest element has takes that element, and leaves the others
-- in their order. With no element it waits, if it may, and else reports an error; that, and a
-- mutex that cannot be locked, leave the queue as it was. It is never undefined.
pub dequeue_base-Dequeues :
    (can_lock blocking : Bool) (n : ℕ) (q : Queue) (ds : List (List ℕ))
    → Represents q ds
    → Asks n ds
    → Dequeues can_lock blocking q ds (dequeue_base can_lock n blocking q)
unfolding dequeue_base
dequeue_base-Dequeues false blocking n q ds h a = (refl, inl (refl, refl))
dequeue_base-Dequeues true blocking n q ds h a =
    subst (λ x. Dequeues true blocking q x (dequeued blocking n q.tail q)) h.elements_eq
      (dequeued-Dequeues blocking n q h.entries h.holds
        (subst (λ x. Asks n x) (sym h.elements_eq) a))

-- With fuel for all the items of a queue, its length is the number of its elements.
pub get_length-length :
    (fuel : ℕ) (can_lock : Bool) (q : Queue) (ds : List (List ℕ))
    → Represents q ds
    → length ds ≤ fuel
    → get_length fuel can_lock q
      ≡ (if can_lock then ok (some (length ds)) q else err xerror_mutex_lock q)
unfolding get_length
get_length-length fuel false q ds h f = refl
get_length-length fuel true q ds h f =
    let es = h.entries in
    let same : length es ≡ length ds =
      length-elements es ∙ ap (length {A = List ℕ}) h.elements_eq in
    let walk : length_from fuel q.cells q.head 0 ≡ some (length ds) = rw (h.holds.head_eq) (
      subst (λ k. length_from k q.cells (last_from none es) 0 ≡ some (length ds)) (omega arith)
        (length_from-last_from (fuel - length es) q.cells none es 0 h.holds.linked
          ∙ length_from-none (fuel - length es) q.cells (0 + length es)
          ∙ ap some (omega (arith, same)))) in
    ap (λ o. ok o q) walk
