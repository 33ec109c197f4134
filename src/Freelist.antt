-- ===== src/Freelist.antt =====
-- src/api/xternal/xfreelist.c: a pool of items of one size, an array with a list of the items that
-- are free, which grows by a further pool of the same kind when none is.
pub mod Pools
pub mod Ownership
pub mod Release
pub mod Size
pub mod Owned
use auks.Base.{
  ℕ, zero, suc, ◌+◌, ◌*◌, Bool, true, false, Option, none, some, List, [], ◌∷◌, length, replicate,
  ◌==◌, if◌then◌else◌,
}
use auks.Base.Results.{
  Res, ok, err, fault, Act, xerror_memory, xerror_freelist_is_empty, xerror_freelist_item_not_found,
  xerror_freelist_item_already_free,
}
use auks.Base.Memory.{Allocator, has_memory}

-- One array: the indices of the items that are linked from `head`, in order, and the field `free`
-- of each of the `item_nb` items. The links back and `tail`, which no function reads, are left out.
pub record Pool : Type 0 where
  pub head : List ℕ
  pub flags : List Bool

-- `xfreelist_t` with its list `next`, where it has one.
pub data Freelist : Type 0 where
  last : Pool → Freelist
  chain : Pool → Freelist → Freelist

-- A pointer to an item: how many lists `next` it is down, and its index there.
pub record Item : Type 0 where
  pub depth : ℕ
  pub index : ℕ

abbrev pub deeper : Item → Item
deeper item = record { depth = suc item.depth; index = item.index }

unfoldable pub count_from : ℕ → ℕ → List ℕ
count_from i zero = []
count_from i (suc n) = i ∷ count_from (i + 1) n

unfoldable pub set_flag : Bool → ℕ → List Bool → List Bool
set_flag b i [] = []
set_flag b zero (f ∷ fs) = b ∷ fs
set_flag b (suc i) (f ∷ fs) = f ∷ set_flag b i fs

unfoldable pub get_flag : ℕ → List Bool → Option Bool
get_flag i [] = none
get_flag zero (f ∷ fs) = some f
get_flag (suc i) (f ∷ fs) = get_flag i fs

-- The item at the head is unlinked.
abbrev pub unlinked : ℕ → List ℕ → Pool → Pool
unlinked i rest p = record { head = rest; flags = set_flag false i p.flags }

-- An item is linked before the head.
abbrev pub linked : ℕ → Pool → Pool
linked i p = record { head = i ∷ p.head; flags = set_flag true i p.flags }

empty_pool : Pool
empty_pool = record { head = []; flags = [] }

module _ ⦃mem : Allocator⦄ where
  -- `xfreelist_init`, with items of 48 bytes of their own. For no items at all it writes the links
  -- of the first and of the last of them all the same.
  pub init : ℕ → ℕ → Res Pool (Unit {0})
  init default_length item_size =
      if has_memory (48 * default_length)
      then (if has_memory (item_size * default_length)
          then (if default_length == 0
              then fault
              else ok tt (record {
                head = count_from 0 default_length;
                flags = replicate default_length true;
              }))
          else err xerror_memory empty_pool)
      else err xerror_memory empty_pool

  extracted_first : Pool → Pool → List ℕ → Res Freelist Item
  extracted_first p q [] = fault
  extracted_first p q (i ∷ rest) =
      ok (record { depth = 1; index = i }) (chain p (last (unlinked i rest q)))

  -- The extraction from the list that `xfreelist_extend` has linked. If its `xfreelist_init` failed,
  -- it has no items, and the extraction extends it by as many: by none, or for ever.
  extract_extended : Pool → Res Pool (Unit {0}) → Res Freelist Item
  unfolding extracted_first
  extract_extended p (ok _ q) = extracted_first p q q.head
  extract_extended p (err e q) = fault
  extract_extended p fault = fault

  extract_last : ℕ → Pool → List ℕ → Res Freelist Item
  unfolding extract_extended
  extract_last item_size p (i ∷ rest) =
      ok (record { depth = 0; index = i }) (last (unlinked i rest p))
  extract_last item_size p [] =
      if has_memory 56
      then extract_extended p (init (length p.flags) item_size)
      else err xerror_freelist_is_empty (last p)

  extract_chain : Pool → List ℕ → Freelist → Res Freelist Item → Res Freelist Item
  extract_chain p (i ∷ rest) next later =
      ok (record { depth = 0; index = i }) (chain (unlinked i rest p) next)
  extract_chain p [] next (ok item l) = ok (deeper item) (chain p l)
  extract_chain p [] next (err e l) = err e (chain p l)
  extract_chain p [] next fault = fault

  -- `xfreelist_extract_item` on a list of items of that size.
  pub extract : ℕ → Act Freelist Item
  unfolding extract_last extract_chain
  extract item_size (last p) = extract_last item_size p p.head
  extract item_size (chain p next) = extract_chain p p.head next (extract item_size next)

-- An item of this list: it is free already, or is linked; or its pointer is not in the array.
release_here : ℕ → Pool → Option Bool → Res Pool (Unit {0})
release_here i p none = err xerror_freelist_item_not_found p
release_here i p (some true) = err xerror_freelist_item_already_free p
release_here i p (some false) = ok tt (linked i p)

abbrev in_last : Res Pool (Unit {0}) → Res Freelist (Unit {0})
in_last (ok _ p) = ok tt (last p)
in_last (err e p) = err e (last p)
in_last fault = fault

abbrev in_chain : Freelist → Res Pool (Unit {0}) → Res Freelist (Unit {0})
in_chain next (ok _ p) = ok tt (chain p next)
in_chain next (err e p) = err e (chain p next)
in_chain next fault = fault

abbrev behind : Pool → Res Freelist (Unit {0}) → Res Freelist (Unit {0})
behind p (ok _ l) = ok tt (chain p l)
behind p (err e l) = err e (chain p l)
behind p fault = fault

-- `xfreelist_release_item`
release_at : ℕ → ℕ → Act Freelist (Unit {0})
unfolding release_here
release_at zero i (last p) = in_last (release_here i p (get_flag i p.flags))
release_at (suc k) i (last p) = err xerror_freelist_item_not_found (last p)
release_at zero i (chain p next) = in_chain next (release_here i p (get_flag i p.flags))
release_at (suc k) i (chain p next) = behind p (release_at k i next)

pub release : Item → Act Freelist (Unit {0})
release item = release_at item.depth item.index
