-- ===== src/Library/Stock.antt =====
-- xlibrary.c with memory: the items of its freelists that are held are those of the tree and those
-- that a call works with; there is always one to extract, and each is given back.
use auks.Base.{
  ℕ, ◌^◌, ◌≤◌, arith, ◌≡◌, refl, Bool, none, some, List, [], ◌∷◌, ◌++◌, Bool-cases, inl, inr,
  some_injective, subst,
}
use auks.Base.Results.{Res, ok, err, fault, Act, and_then, always}
use auks.Base.Text.{strncmp_eq}
use auks.Base.Memory.{Allocator}
use auks.Freelist.{Freelist, Item, extract, release}
use auks.Freelist.Ownership.{Extracts, extract-Extracts}
use auks.Freelist.Release.{Releases, release-Releases}
use auks.Freelist.Owned.{
  Owns, take-Owns, free-Owns, Reorder, same, below, swap, follow, Reorder-flip, reorder-Owns,
}
use auks.Freelist.Size.{
  HasMemory, IsStocked, Supplies, Restocks, extract-Supplies, release-Restocks,
}
use auks.Library.{
  Library, Entry, entry_size, extract_ref, extract_obj, release_ref, release_obj, with_ref,
  with_obj, find, delete, insert, strncmp_lt,
}
use auks.Library.Entries.{IsKey, IsKeyed, delete-IsKeyed, insert-IsKeyed}

behind :
    (rs : List Item) (x : Item) (xs ys : List Item)
    → Reorder xs (x ∷ ys)
    → Reorder (rs ++ xs) (x ∷ (rs ++ ys))
behind [] x xs ys r = r
behind (a ∷ rs) x xs ys r = follow (below (behind rs x xs ys r)) swap

module _ {A : Type 0} where
  -- The items of the entries.
  unfoldable pub items : (Entry A → Item) → List (Entry A) → List Item
  items f [] = []
  items f (e ∷ es) = f e ∷ items f es

  abbrev pub ref_items : Library A → List Item
  ref_items lib = items (λ e. e.ref_item) lib.root

  abbrev pub obj_items : Library A → List Item
  obj_items lib = items (λ e. e.obj_item) lib.root

  -- A library in order in the middle of a call, which holds the items `rs` and `os` besides those of
  -- the tree: its freelists grow, exactly these items are held, each by one entry, and the entries
  -- have different keys. So an item that is handed out is none of the tree's, and to write to it
  -- changes no entry.
  pub record IsHolding (rs os : List Item) (lib : Library A) : Type 0 where
    pub refs : IsStocked lib.ref_freelist
    pub objs : IsStocked lib.obj_freelist
    pub keyed : IsKeyed lib.root
    pub ref_owned : Owns lib.ref_freelist (rs ++ ref_items lib)
    pub obj_owned : Owns lib.obj_freelist (os ++ obj_items lib)

  -- Between two calls exactly the items of the tree are held.
  abbrev pub IsSound : Library A → Type 0
  IsSound lib = IsHolding [] [] lib

  delete-Reorder :
      (f : Entry A → Item) (r : List ℕ) (es : List (Entry A)) (x : Entry A)
      → find r es ≡ some x
      → Reorder (items f es) (f x ∷ items f (delete r es))
  unfolding find delete items
  delete-Reorder f r [] x h = cc
  delete-Reorder f r (e ∷ es) x h = elim (Bool-cases (strncmp_eq 128 r e.reference)) [
    | inl here ↦
        let e_x = some_injective (rw here at h) in
        rw here (subst (λ y. Reorder (f e ∷ items f es) (f y ∷ items f es)) e_x same)
    | inr there ↦
        let h' = rw there at h in rw there (follow (below (delete-Reorder f r es x h')) swap)
  ]

  insert-Reorder :
      (f : Entry A → Item) (x : Entry A) (es : List (Entry A))
      → Reorder (f x ∷ items f es) (items f (insert x es))
  unfolding insert items
  insert-Reorder f x [] = same
  insert-Reorder f x (e ∷ es) = elim (Bool-cases (strncmp_lt 128 x.reference e.reference)) [
    | inl less ↦ rw less same
    | inr more ↦ rw more (follow swap (below (insert-Reorder f x es)))
  ]

  -- An entry that is taken out of the tree leaves its items to the call.
  pub delete-IsHolding :
      (rs os : List Item) (r : List ℕ) (lib : Library A) (x : Entry A)
      → IsKey r
      → find r lib.root ≡ some x
      → IsHolding rs os lib
      → IsHolding (x.ref_item ∷ rs) (x.obj_item ∷ os) (record lib { root = delete r lib.root })
  delete-IsHolding rs os r lib x k h s = record {
    refs = s.refs;
    objs = s.objs;
    keyed = delete-IsKeyed r lib.root s.keyed k;
    ref_owned =
        reorder-Owns lib.ref_freelist (behind rs x.ref_item _ _ (delete-Reorder _ r lib.root x h))
          s.ref_owned;
    obj_owned =
        reorder-Owns lib.obj_freelist (behind os x.obj_item _ _ (delete-Reorder _ r lib.root x h))
          s.obj_owned;
  }

  -- An entry that is put into the tree takes its items over.
  pub insert-IsHolding :
      (rs os : List Item) (lib : Library A) (x : Entry A)
      → IsKey x.reference
      → find x.reference lib.root ≡ none
      → IsHolding (x.ref_item ∷ rs) (x.obj_item ∷ os) lib
      → IsHolding rs os (record lib { root = insert x lib.root })
  insert-IsHolding rs os lib x k absent s = record {
    refs = s.refs;
    objs = s.objs;
    keyed = insert-IsKeyed x lib.root s.keyed k absent;
    ref_owned =
        reorder-Owns lib.ref_freelist
          (Reorder-flip
            (behind rs x.ref_item _ _ (Reorder-flip (insert-Reorder (λ e. e.ref_item) x lib.root))))
          s.ref_owned;
    obj_owned =
        reorder-Owns lib.obj_freelist
          (Reorder-flip
            (behind os x.obj_item _ _ (Reorder-flip (insert-Reorder (λ e. e.obj_item) x lib.root))))
          s.obj_owned;
  }

  module _ {B : Type 0} (P : Res (Library A) B → Type 0) (rs os : List Item) where
    -- What holds of the next call in any library with that tree holds of it after the release of
    -- an item that the call holds.
    pub release_ref_then :
        (item : Item) (lib : Library A) (next : Act (Library A) B)
        → IsHolding (item ∷ rs) os lib
        → ((new : Library A) → IsHolding rs os new → new.root ≡ lib.root → P (next new))
        → P (always (release_ref item lib) next)
    unfolding release_ref
    release_ref_then item lib next s k =
        go (release item lib.ref_freelist) (release-Restocks item lib.ref_freelist s.refs)
          (release-Releases item lib.ref_freelist s.refs.well_formed)
      where
        go :
            (r : Res Freelist (Unit {0}))
            → Restocks r
            → Releases item.depth item.index lib.ref_freelist r
            → P (always (with_ref lib r) next)
        go (ok _ l) t f =
            k _
              (record {
                refs = t;
                objs = s.objs;
                keyed = s.keyed;
                ref_owned = free-Owns item lib.ref_freelist l _ f s.ref_owned;
                obj_owned = s.obj_owned;
              })
              refl
        go (err e l) t (_, free) = absurd (free (s.ref_owned.taken item (inl refl)))
        go fault t f = absurd t

    pub release_obj_then :
        (item : Item) (lib : Library A) (next : Act (Library A) B)
        → IsHolding rs (item ∷ os) lib
        → ((new : Library A) → IsHolding rs os new → new.root ≡ lib.root → P (next new))
        → P (always (release_obj item lib) next)
    unfolding release_obj
    release_obj_then item lib next s k =
        go (release item lib.obj_freelist) (release-Restocks item lib.obj_freelist s.objs)
          (release-Releases item lib.obj_freelist s.objs.well_formed)
      where
        go :
            (r : Res Freelist (Unit {0}))
            → Restocks r
            → Releases item.depth item.index lib.obj_freelist r
            → P (always (with_obj lib r) next)
        go (ok _ l) t f =
            k _
              (record {
                refs = s.refs;
                objs = t;
                keyed = s.keyed;
                ref_owned = s.ref_owned;
                obj_owned = free-Owns item lib.obj_freelist l _ f s.obj_owned;
              })
              refl
        go (err e l) t (_, free) = absurd (free (s.obj_owned.taken item (inl refl)))
        go fault t f = absurd t

    -- The same after an extraction, with an item that nobody held.
    module _ ⦃mem : Allocator⦄ (item_size : ℕ) (has_node : Bool) (sized : item_size ≤ 2 ^ 16)
        (memory : HasMemory) where
      pub extract_ref_then :
          (lib : Library A) (next : Item → Act (Library A) B)
          → IsHolding rs os lib
          → ((item : Item) (new : Library A)
              → IsHolding (item ∷ rs) os new
              → new.root ≡ lib.root
              → P (next item new))
          → P (and_then (extract_ref item_size has_node lib) next)
      unfolding extract_ref
      extract_ref_then lib next s k =
          go (extract entry_size lib.ref_freelist)
            (extract-Supplies entry_size lib.ref_freelist (omega arith) memory s.refs)
            (extract-Extracts entry_size lib.ref_freelist s.refs.well_formed)
        where
          go :
              (r : Res Freelist Item)
              → Supplies entry_size r
              → Extracts entry_size lib.ref_freelist r
              → P (and_then (with_ref lib r) next)
          go (ok item l) t x =
              k item _
                (record {
                  refs = t;
                  objs = s.objs;
                  keyed = s.keyed;
                  ref_owned = take-Owns item lib.ref_freelist l _ x s.ref_owned;
                  obj_owned = s.obj_owned;
                })
                refl
          go (err e l) t x = absurd t
          go fault t x = absurd t

      pub extract_obj_then :
          (lib : Library A) (next : Item → Act (Library A) B)
          → IsHolding rs os lib
          → ((item : Item) (new : Library A)
              → IsHolding rs (item ∷ os) new
              → new.root ≡ lib.root
              → P (next item new))
          → P (and_then (extract_obj item_size has_node lib) next)
      unfolding extract_obj
      extract_obj_then lib next s k =
          go (extract item_size lib.obj_freelist)
            (extract-Supplies item_size lib.obj_freelist sized memory s.objs)
            (extract-Extracts item_size lib.obj_freelist s.objs.well_formed)
        where
          go :
              (r : Res Freelist Item)
              → Supplies item_size r
              → Extracts item_size lib.obj_freelist r
              → P (and_then (with_obj lib r) next)
          go (ok item l) t x =
              k item _
                (record {
                  refs = s.refs;
                  objs = t;
                  keyed = s.keyed;
                  ref_owned = s.ref_owned;
                  obj_owned = take-Owns item lib.obj_freelist l _ x s.obj_owned;
                })
                refl
          go (err e l) t x = absurd t
          go fault t x = absurd t
