-- ===== src/Library.antt =====
-- src/api/xternal/xlibrary.c: items that are kept under a reference, in a tree of the C library's
-- `tsearch`, with their storage from two freelists.
pub mod Entries
pub mod Stock
pub mod View
pub mod Index
use auks.Base.{
  ℕ, zero, suc, ◌+◌, ◌*◌, Bool, true, false, Option, none, some, List, [], ◌∷◌, length, ltb, ◌==◌,
  if◌then◌else◌,
}
use auks.Base.Lists.{take}
use auks.Base.Text.{strncmp_eq}
use auks.Base.Results.{
  Res, ok, err, fault, Act, and_then, always, finally, on_failure, Error, error, xerror_mutex_lock,
  xerror_library_item_not_found, xerror_library_add,
}
use auks.Base.Memory.{Allocator, has_memory}
use auks.Freelist
use auks.Freelist.{Freelist, Item}

abbrev pub reference_maxlength : ℕ
reference_maxlength = 128

-- `sizeof (xlibrary_item_t)`
abbrev pub entry_size : ℕ
entry_size = 160

-- `xlibrary_item_t` with the object that its `object` points to, and the freelist items in which the
-- two stand. They are kept by value, which is what memory holds as long as each of these items is
-- held, and by one entry only: Library.Stock.IsHolding.
-- The time of its last change, which is never read, is left out.
pub record Entry (A : Type 0) : Type 0 where
  pub reference : List ℕ
  pub object : A
  pub ref_item : Item
  pub obj_item : Item

-- `xlibrary_t`; `root` is the tree in the order of `twalk`, `index` the references in the array of
-- that name, `none` for NULL.
pub record Library (A : Type 0) : Type 0 where
  pub ref_freelist : Freelist
  pub obj_freelist : Freelist
  pub root : List (Entry A)
  pub item_nb : ℕ
  pub index : Option (List (List ℕ))

-- `strncmp (a, b, n) < 0`
pub strncmp_lt : ℕ → List ℕ → List ℕ → Bool
strncmp_lt zero a b = false
strncmp_lt (suc n) a [] = false
strncmp_lt (suc n) [] (y ∷ ys) = ltb 0 y
strncmp_lt (suc n) (x ∷ xs) (y ∷ ys) =
    if ltb x y then true else if x == 0 then false else if x == y then strncmp_lt n xs ys else false

-- `tfind`, `tdelete`, and `tsearch` for an entry that is not there, by `_cmp_item_by_reference`.
unfoldable pub find : {A : Type 0} → List ℕ → List (Entry A) → Option (Entry A)
find reference [] = none
find reference (e ∷ es) =
    if strncmp_eq reference_maxlength reference e.reference then some e else find reference es

pub delete : {A : Type 0} → List ℕ → List (Entry A) → List (Entry A)
delete reference [] = []
delete reference (e ∷ es) =
    if strncmp_eq reference_maxlength reference e.reference then es else e ∷ delete reference es

unfoldable pub insert : {A : Type 0} → Entry A → List (Entry A) → List (Entry A)
unfolding strncmp_lt
insert entry [] = entry ∷ []
insert entry (e ∷ es) =
    if strncmp_lt reference_maxlength entry.reference e.reference
    then entry ∷ e ∷ es
    else e ∷ insert entry es

unfoldable pub references : {A : Type 0} → List (Entry A) → List (List ℕ)
references [] = []
references (e ∷ es) = e.reference ∷ references es

-- A call on one of the freelists.
abbrev pub with_ref : {A B : Type 0} → Library A → Res Freelist B → Res (Library A) B
with_ref lib (ok b l) = ok b (record lib { ref_freelist = l })
with_ref lib (err e l) = err e (record lib { ref_freelist = l })
with_ref lib fault = fault

abbrev pub with_obj : {A B : Type 0} → Library A → Res Freelist B → Res (Library A) B
with_obj lib (ok b l) = ok b (record lib { obj_freelist = l })
with_obj lib (err e l) = err e (record lib { obj_freelist = l })
with_obj lib fault = fault

pub release_ref : {A : Type 0} → Item → Act (Library A) (Unit {0})
release_ref item lib = with_ref lib (Freelist.release item lib.ref_freelist)

pub release_obj : {A : Type 0} → Item → Act (Library A) (Unit {0})
release_obj item lib = with_obj lib (Freelist.release item lib.obj_freelist)

-- `_release_item`: what is in the two items is cleared, and they are given back.
release_entry : {A : Type 0} → Entry A → Act (Library A) (Unit {0})
unfolding release_ref release_obj
release_entry e lib =
    always (release_obj e.obj_item lib) λ lib. always (release_ref e.ref_item lib) (ok tt)

found : {A : Type 0} → Option (Entry A) → Act (Library A) A
found none lib = err xerror_library_item_not_found lib
found (some e) lib = ok e.object lib

removed : {A : Type 0} → List ℕ → Option (Entry A) → Act (Library A) (Unit {0})
unfolding release_entry
removed reference none lib = err xerror_library_item_not_found lib
removed reference (some e) lib = release_entry e (record lib { root = delete reference lib.root })

-- The functions, for items of that size. `has_node` says whether `tsearch` has memory for a node,
-- and `can_lock` whether `pthread_mutex_lock` succeeds.
module _ {A : Type 0} ⦃mem : Allocator⦄ (item_size : ℕ) (has_node : Bool) where
  pub extract_ref : Act (Library A) Item
  extract_ref lib = with_ref lib (Freelist.extract entry_size lib.ref_freelist)

  pub extract_obj : Act (Library A) Item
  extract_obj lib = with_obj lib (Freelist.extract item_size lib.obj_freelist)

  -- `xlibrary_get_item_nolock`, which holds an item of the freelist while it searches. Each entry has
  -- an object.
  pub get_item_nolock : List ℕ → Act (Library A) A
  unfolding extract_ref found release_ref
  get_item_nolock reference lib =
      and_then (extract_ref lib)
        λ item lib. finally (found (find reference lib.root) lib) (release_ref item)

  -- `xlibrary_remove_item_nolock`
  pub remove_item_nolock : List ℕ → Act (Library A) (Unit {0})
  unfolding extract_ref removed release_ref
  remove_item_nolock reference lib =
      and_then (extract_ref lib)
        λ item lib. finally (removed reference (find reference lib.root) lib) (release_ref item)

  -- What `tsearch` does: an entry that is there stays.
  searched : Option (Entry A) → Entry A → Act (Library A) (Unit {0})
  unfolding release_ref
  searched (some e) entry lib = ok tt lib
  searched none entry lib =
      if has_node
      then ok tt (record lib { root = insert entry lib.root })
      else always (release_ref entry.ref_item lib) (err xerror_library_add)

  stored : List ℕ → A → Item → Act (Library A) (Unit {0})
  unfolding extract_ref searched
  stored reference object obj_item lib = and_then (extract_ref lib) λ ref_item lib.
      searched (find reference lib.root)
        (record {
          reference = reference;
          object = object;
          ref_item = ref_item;
          obj_item = obj_item;
        })
        lib

  -- `xlibrary_add_item_nolock`: what was there under the reference is removed before.
  pub add_item_nolock : List ℕ → A → Act (Library A) (Unit {0})
  unfolding extract_obj stored release_obj
  add_item_nolock reference object lib = and_then (extract_obj lib) λ obj_item lib.
      always (remove_item_nolock reference lib) λ lib.
        on_failure (stored (take reference_maxlength reference) object obj_item lib)
          (release_obj obj_item)

  -- `xlibrary_update_index`
  pub update_index : Act (Library A) (Unit {0})
  update_index lib =
      let item_nb = length lib.root in
      if ltb 0 item_nb
      then (if has_memory (8 * item_nb)
          then ok tt (record lib { item_nb = item_nb; index = some (references lib.root) })
          else err error (record lib { item_nb = item_nb; index = none }))
      else ok tt (record lib { item_nb = 0; index = none })

  module _ (can_lock : Bool) where
    -- `xlibrary_get_item`, `xlibrary_remove_item`, `xlibrary_add_item`
    unfoldable pub get_item : List ℕ → Act (Library A) A
    get_item reference lib =
        if can_lock then get_item_nolock reference lib else err xerror_mutex_lock lib

    unfoldable pub remove_item : List ℕ → Act (Library A) (Unit {0})
    remove_item reference lib =
        if can_lock then remove_item_nolock reference lib else err xerror_mutex_lock lib

    unfoldable pub add_item : List ℕ → A → Act (Library A) (Unit {0})
    add_item reference object lib =
        if can_lock then add_item_nolock reference object lib else err xerror_mutex_lock lib
