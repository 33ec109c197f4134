-- ===== src/Queue/Arrivals.antt =====
-- `xqueue_enqueue_base` of src/api/xternal/xqueue.c: an element goes behind the others.
use auks.Base.{
  ℕ, ◌≤◌, ◌<◌, ◌≡◌, ◌≢◌, inl, inr, refl, sym, ap, ◌∙◌, subst, Bool, true, false, Option, none, some,
  List, [], ◌∷◌, ◌++◌, arith, length, ltb, Bool-cases,
}
use auks.Base.Results.{
  Res, ok, err, fault, Error, xerror_mutex_lock, xerror_freelist_is_empty,
  xerror_queue_freelist_extract_item,
}
use auks.Base.Memory.{Allocator, has_memory, write_at, read_at, write_at-append, read_at-append}
use auks.Base.Lists.{drop, length-append, length-drop}
use auks.Freelist
use auks.Freelist.{Freelist, Item, init}
use auks.Freelist.Ownership.{Takes, Extracts, items_nb, extract-Extracts}
use auks.Queue.{Queue, Turn, waits, done, enqueued, inserted, enqueue_base}
use auks.Queue.Links.{Entry, first, last_from, Fresh, Distinct}
use auks.Queue.Cells.{last_from-some, alone-Linked, prepended-Linked}
use auks.Queue.Held.{
  Held, elements, Holds, Represents, elements-append, Held-Fresh, Held-others, Held-append,
  Distinct-append, last_from-append, put_cell-sized,
}

-- The copy of an element into an item that has room for it.
front :
    (block d : List ℕ)
    → length d ≤ length block
    → (new : List ℕ) × (write_at block 0 d ≡ some new)
      × (read_at new 0 (length d) ≡ some d)
      × (length new ≡ length block)
front block d h = (
  d ++ drop (length d) block,
  write_at-append [] block d h,
  read_at-append [] d (drop (length d) block),
  omega (arith, length-append d (drop (length d) block), length-drop (length d) block),
)

abbrev entry : Item → List ℕ → Entry
entry i d = record { item = i; element = d }

-- The item that was extracted is linked before the head.
enqueued-Holds :
    (i : Item) (d bytes : List ℕ) (q : Queue) (l : Freelist) (es : List Entry)
    → Holds q es
    → Takes i.depth i.index q.freelist l
    → length d ≤ q.item_size
    → read_at bytes 0 (length d) ≡ some d
    → length bytes ≡ q.item_size
    → Holds (enqueued i bytes q.head (record q { freelist = l })) (es ++ (entry i d ∷ []))
unfolding enqueued last_from first Distinct Fresh elements
enqueued-Holds i d bytes q l es h t fits r s =
    let new = Held-Fresh q.item_size q.freelist i es h.held t.was_free in
    let held =
      Held-append q.item_size l i d es t.is_taken fits
        (Held-others q.item_size q.freelist l i es new t.others h.held) in
    go es q.head h refl new held
  where
    go :
        (fs : List Entry) (head : Option Item)
        → Holds q fs
        → q.head ≡ head
        → Fresh i fs
        → Held q.item_size l (fs ++ (entry i d ∷ []))
        → Holds (enqueued i bytes head (record q { freelist = l })) (fs ++ (entry i d ∷ []))
    go [] none h e new held = record {
      well_formed = t.well_formed;
      sized = put_cell-sized q.item_size i _ q.cells s h.sized;
      held = held;
      distinct = (tt, tt);
      linked = alone-Linked i bytes d q.cells r;
      head_eq = refl;
      tail_eq = refl;
    }
    go [] (some head) h e new held = absurd (cc (e, h.head_eq))
    go (f ∷ fs) none h e new held =
        let (j, last) = last_from-some f.item fs in absurd (cc (e, h.head_eq, last))
    go (f ∷ fs) (some head) h e new held = record {
      well_formed = t.well_formed;
      sized =
          put_cell-sized q.item_size i _ _ s
            (put_cell-sized q.item_size head _ q.cells (h.sized head) h.sized);
      held = held;
      distinct = Distinct-append i d (f ∷ fs) new h.distinct;
      linked =
          prepended-Linked i head bytes d q.cells f fs r h.linked h.distinct new
            (sym h.head_eq ∙ e);
      head_eq = sym (last_from-append none i d (f ∷ fs));
      tail_eq = h.tail_eq;
    }

module _ ⦃mem : Allocator⦄ where
  -- What an enqueue comes to: the element is behind the others. Or it waits, or is refused, with the
  -- queue as it was: if the mutex cannot be locked, for an element that is too long, or with no memory
  -- for a further list of items. It is undefined only where such a list is there, but not its items.
  pub data Refused (can_lock blocking : Bool) (d : List ℕ) (q : Queue) : Error → Type 0 where
    not_locked : can_lock ≡ false → Refused can_lock blocking d q xerror_mutex_lock
    too_long : q.item_size < length d → Refused can_lock blocking d q xerror_freelist_is_empty
    no_item :
        blocking ≡ false
        → has_memory 56 ≡ false
        → Refused can_lock blocking d q xerror_queue_freelist_extract_item

  abbrev pub Enqueues :
      Bool → Bool → List ℕ → Queue → List (List ℕ) → Res Queue (Turn (Unit {0})) → Type 0
  Enqueues can_lock blocking d q ds (ok (done _) new) = Represents new (ds ++ (d ∷ []))
  Enqueues can_lock blocking d q ds (ok waits new) =
      (blocking ≡ true) × (new ≡ q) × (has_memory 56 ≡ false)
  Enqueues can_lock blocking d q ds (err e new) = Refused can_lock blocking d q e × (new ≡ q)
  Enqueues can_lock blocking d q ds fault =
      (p : Freelist.Pool) → init (items_nb q.freelist) q.item_size ≢ ok tt p

  inserted-Enqueues :
      (can_lock blocking : Bool) (d : List ℕ) (q : Queue) (ds : List (List ℕ))
      (r : Res Freelist Item)
      → Represents q ds
      → length d ≤ q.item_size
      → Extracts q.item_size q.freelist r
      → Enqueues can_lock blocking d q ds (inserted blocking d q r)
  unfolding inserted elements
  inserted-Enqueues can_lock blocking d q ds (ok item l) h fits t =
      let size = h.holds.sized item in
      let (new, w, r, s) =
        front (q.cells item).bytes d (subst (λ n. length d ≤ n) (sym size) fits) in
      rw w (record {
        entries = h.entries ++ (entry item d ∷ []);
        holds = enqueued-Holds item d new q l h.entries h.holds t fits r (s ∙ size);
        elements_eq =
            elements-append h.entries (entry item d ∷ []) ∙ ap (λ x. x ++ (d ∷ [])) h.elements_eq;
      })
  inserted-Enqueues can_lock true d q ds (err e l) h fits (a, b, c) = rw (a, b) (refl, refl, c)
  inserted-Enqueues can_lock false d q ds (err e l) h fits (a, b, c) = rw b (no_item refl c, refl)
  inserted-Enqueues can_lock blocking d q ds fault h fits t = t

  -- An enqueue puts the element behind those of the queue. Only with no memory for a further list
  -- of items does it wait, if it may, with the queue as it was; else it reports an error and
  -- changes nothing, if the mutex cannot be locked, if the element is longer than an item, or if
  -- it may not wait. It is undefined only where the initialisation of the further list fails.
  pub enqueue_base-Enqueues :
      (can_lock blocking : Bool) (d : List ℕ) (q : Queue) (ds : List (List ℕ))
      → Represents q ds
      → Enqueues can_lock blocking d q ds (enqueue_base can_lock d blocking q)
  unfolding enqueue_base
  enqueue_base-Enqueues false blocking d q ds h = (not_locked refl, refl)
  enqueue_base-Enqueues true blocking d q ds h = elim (Bool-cases (ltb q.item_size (length d))) [
    | inl long ↦ rw long (too_long (ground arith), refl)
    | inr fits ↦ rw fits (
        inserted-Enqueues true blocking d q ds _ h (ground arith)
          (extract-Extracts q.item_size q.freelist h.holds.well_formed))
  ]
