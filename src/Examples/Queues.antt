-- ===== src/Examples/Queues.antt =====
-- A queue of one element, with items of four bytes.
use auks.Base.{refl, true, false, none, some, [], ◌∷◌, arith}
use auks.Base.Lists.{replicate}
use auks.Base.Memory.{read_at-append}
use auks.Freelist.{Item, last, count_from, get_flag, set_flag, Pool, unlinked}
use auks.Freelist.Ownership.{IsWellFormed, flag_at}
use auks.Freelist.Pools.{fresh-IsPool, unlinked-IsPool}
use auks.Queue.{Queue, enqueue_base, dequeue_base}
use auks.Queue.Links.{first, last_from, Fresh, Linked, Distinct}
use auks.Queue.Held.{Held, elements, Represents}
use auks.Queue.Arrivals.{Enqueues, enqueue_base-Enqueues}
use auks.Queue.Fifo.{Asks, Dequeues, dequeue_base-Dequeues}
use auks.Examples.Values.{heap}

abbrev new_pool : Pool
new_pool = record { head = count_from 0 4; flags = replicate 4 true }

abbrev item : Item
item = record { depth = 0; index = 0 }

abbrev queue : Queue
queue = record {
  freelist = last (unlinked 0 (count_from 1 3) new_pool);
  item_size = 4;
  cells = λ _. record { next = none; previous = none; bytes = 7 ∷ 8 ∷ 0 ∷ 0 ∷ [] };
  head = some item;
  tail = some item;
}

queue-Represents : Represents queue ((7 ∷ 8 ∷ []) ∷ [])
unfolding IsWellFormed flag_at first last_from Fresh Linked Distinct Held elements count_from
    replicate get_flag set_flag
queue-Represents = record {
  entries = record { item = item; element = 7 ∷ 8 ∷ [] } ∷ [];
  holds = record {
    well_formed = unlinked-IsPool 0 (count_from 1 3) new_pool refl (fresh-IsPool 4);
    sized = λ i. refl;
    held = (refl, omega arith, tt);
    distinct = (tt, tt);
    linked = (
      record {
        next_eq = refl;
        previous_eq = refl;
        read_eq = read_at-append [] (7 ∷ 8 ∷ []) (0 ∷ 0 ∷ []);
      },
      tt,
    );
    head_eq = refl;
    tail_eq = refl;
  };
  elements_eq = refl;
}

enqueue_base-Enqueues_example :
    Enqueues true true (9 ∷ []) queue ((7 ∷ 8 ∷ []) ∷ []) (enqueue_base true (9 ∷ []) true queue)
enqueue_base-Enqueues_example =
    enqueue_base-Enqueues true true (9 ∷ []) queue ((7 ∷ 8 ∷ []) ∷ []) queue-Represents

dequeue_base-Dequeues_example :
    Dequeues true false queue ((7 ∷ 8 ∷ []) ∷ []) (dequeue_base true 2 false queue)
unfolding Asks
dequeue_base-Dequeues_example =
    dequeue_base-Dequeues true false 2 queue ((7 ∷ 8 ∷ []) ∷ []) queue-Represents refl
