-- ===== src/Queue.antt =====
-- src/api/xternal/xqueue.c: a queue of elements that are copied into the items of a freelist, which are
-- linked both ways.
pub mod Links
pub mod Cells
pub mod Held
pub mod Arrivals
pub mod Fifo
use auks.Base.{
  ℕ, zero, suc, ◌+◌, Bool, true, false, ◌&&◌, Option, none, some, List, length, ltb, ◌==◌,
  if◌then◌else◌,
}
use auks.Base.Results.{
  Res, ok, err, fault, Act, Error, and_then, or_fault, error, xerror_mutex_init,
  xerror_condition_init, xerror_mutex_lock, xerror_freelist_is_empty,
  xerror_queue_freelist_extract_item, xerror_queue_is_empty,
}
use auks.Base.Memory.{Allocator, read_at, write_at}
use auks.Freelist
use auks.Freelist.{Freelist, last, Item}

-- What an item holds: its links, and the bytes of its `data`.
pub record Cell : Type 0 where
  pub next : Option Item
  pub previous : Option Item
  pub bytes : List ℕ

-- `xqueue_t`, with what the items of its freelist hold. The links of an item that is free are not
-- kept: they belong to the freelist, which clears them when it hands the item out.
pub record Queue : Type 0 where
  pub freelist : Freelist
  pub item_size : ℕ
  pub cells : Item → Cell
  pub head : Option Item
  pub tail : Option Item

-- A call is over, or it waits for the condition.
pub data Turn (A : Type 0) : Type 0 where
  waits : Turn A
  done : A → Turn A

pub same_item : Item → Item → Bool
same_item a b = a.depth == b.depth && a.index == b.index

-- The memory after a write to the fields of an item.
pub put_cell : Item → Cell → (Item → Cell) → Item → Cell
unfolding same_item
put_cell item cell cells other = if same_item item other then cell else cells other

initialised : Queue → Res Freelist.Pool (Unit {0}) → Res Queue (Unit {0})
initialised q (ok _ p) = ok tt (record q { freelist = last p })
initialised q (err e p) = err error (record q { freelist = last p })
initialised q fault = fault

-- `xqueue_init`; `cells` is what the memory of the items holds.
pub init : ⦃mem : Allocator⦄ → Bool → Bool → ℕ → ℕ → (Item → Cell) → Act Queue (Unit {0})
unfolding initialised
init can_init can_wait default_length size cells q =
    let empty = record q { head = none; tail = none } in
    if can_init
    then (if can_wait
        then initialised (record empty { item_size = size; cells = cells })
            (Freelist.init default_length size)
        else err xerror_condition_init empty)
    else err xerror_mutex_init empty

-- A queue without an element becomes one of this item; and else the item comes before the head.
enqueued : Item → List ℕ → Option Item → Queue → Queue
enqueued item bytes none q = record q {
  cells = put_cell item (record { next = none; previous = none; bytes = bytes }) q.cells;
  head = some item;
  tail = some item;
}
enqueued item bytes (some head) q = record q {
  cells =
      put_cell item (record { next = some head; previous = none; bytes = bytes })
        (put_cell head (record (q.cells head) { previous = some item }) q.cells);
  head = some item;
}

-- The extraction of an item, and the copy into it. Only an empty freelist makes a blocking call wait.
inserted : Bool → List ℕ → Queue → Res Freelist Item → Res Queue (Turn (Unit {0}))
unfolding enqueued put_cell
inserted blocking bytes q (ok item l) =
    and_then (or_fault (write_at (q.cells item).bytes 0 bytes) (record q { freelist = l }))
      λ new q. ok (done tt) (enqueued item new q.head q)
inserted true bytes q (err xerror_freelist_is_empty l) = ok waits (record q { freelist = l })
inserted blocking bytes q (err e l) =
    err xerror_queue_freelist_extract_item (record q { freelist = l })
inserted blocking bytes q fault = fault

module _ ⦃mem : Allocator⦄ (can_lock : Bool) where
  -- `xqueue_enqueue_base`
  pub enqueue_base : List ℕ → Bool → Act Queue (Turn (Unit {0}))
  unfolding inserted
  enqueue_base bytes blocking q =
      if can_lock
      then (if ltb q.item_size (length bytes)
          then err xerror_freelist_is_empty q
          else inserted blocking bytes q (Freelist.extract q.item_size q.freelist))
      else err xerror_mutex_lock q

  -- `xqueue_enqueue` and `xqueue_enqueue_non_blocking`
  pub enqueue : List ℕ → Act Queue (Turn (Unit {0}))
  enqueue bytes = enqueue_base bytes true

  pub enqueue_non_blocking : List ℕ → Act Queue (Turn (Unit {0}))
  enqueue_non_blocking bytes = enqueue_base bytes false

-- The queue without its tail, whose item is isolated; `previous` is the next tail.
shifted : Item → Option Item → Queue → Queue
unfolding put_cell
shifted item none q = record q {
  cells = put_cell item (record (q.cells item) { next = none; previous = none }) q.cells;
  head = none;
  tail = none;
}
shifted item (some previous) q = record q {
  cells =
      put_cell item (record (q.cells item) { next = none; previous = none })
        (put_cell previous (record (q.cells previous) { next = none }) q.cells);
  tail = some previous;
}

released : List ℕ → Queue → Res Freelist (Unit {0}) → Res Queue (Turn (List ℕ))
released bytes q (ok _ l) = ok (done bytes) (record q { freelist = l })
released bytes q (err e l) = err e (record q { freelist = l })
released bytes q fault = fault

-- The copy out of an item, and its release.
removed : Item → ℕ → Act Queue (Turn (List ℕ))
unfolding released
removed item length q =
    and_then (or_fault (read_at (q.cells item).bytes 0 length) q)
      λ bytes q. released bytes q (Freelist.release item q.freelist)

dequeued : Bool → ℕ → Option Item → Act Queue (Turn (List ℕ))
unfolding shifted removed
dequeued true length none q = ok waits q
dequeued false length none q = err xerror_queue_is_empty q
dequeued blocking length (some item) q =
    if ltb q.item_size length
    then err xerror_freelist_is_empty q
    else removed item length (shifted item (q.cells item).previous q)

module _ (can_lock : Bool) where
  -- `xqueue_dequeue_base`
  pub dequeue_base : ℕ → Bool → Act Queue (Turn (List ℕ))
  unfolding dequeued
  dequeue_base length blocking q =
      if can_lock then dequeued blocking length q.tail q else err xerror_mutex_lock q

  -- `xqueue_dequeue` and `xqueue_dequeue_non_blocking`
  pub dequeue : ℕ → Act Queue (Turn (List ℕ))
  dequeue length = dequeue_base length true

  pub dequeue_non_blocking : ℕ → Act Queue (Turn (List ℕ))
  dequeue_non_blocking length = dequeue_base length false

-- The loop of `xqueue_get_length`, from an item on; `none` means that the fuel ran out.
pub length_from : ℕ → (Item → Cell) → Option Item → ℕ → Option ℕ
length_from fuel cells none queue_length = some queue_length
length_from zero cells (some item) queue_length = none
length_from (suc fuel) cells (some item) queue_length =
    length_from fuel cells (cells item).next (queue_length + 1)

-- `xqueue_get_length`, with so much fuel.
pub get_length : ℕ → Bool → Act Queue (Option ℕ)
unfolding length_from
get_length fuel can_lock q =
    if can_lock then ok (length_from fuel q.cells q.head 0) q else err xerror_mutex_lock q
