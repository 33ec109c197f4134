-- ===== src/Library/View.antt =====
-- xlibrary.c as what its callers see of it: a map from references to objects.
use auks.Base.{
  ℕ, ◌^◌, ◌≤◌, ◌≡◌, ◌≢◌, refl, sym, ap, ◌∙◌, Bool, false, Option, none, some, List, [], ◌∷◌, arith,
  Bool-cases, inl, inr,
}
use auks.Base.Lists.{take, take_all}
use auks.Base.Results.{
  Res, ok, err, fault, Act, always, finally, on_failure, xerror_library_item_not_found,
  xerror_library_add,
}
use auks.Base.Memory.{Allocator}
use auks.Freelist.{Item}
use auks.Freelist.Size.{HasMemory}
use auks.Library.{
  Library, Entry, find, delete, insert, found, removed, release_entry, release_ref, release_obj,
  searched, stored, get_item_nolock, remove_item_nolock, add_item_nolock,
}
use auks.Library.Entries.{
  IsKey, IsKeyed, find-delete, find-delete_other, find-insert, find-insert_other,
}
use auks.Library.Stock.{
  IsSound, IsHolding, delete-IsHolding, insert-IsHolding, release_ref_then, release_obj_then,
  extract_ref_then, extract_obj_then,
}

abbrev pub object_of : {A : Type 0} → Option (Entry A) → Option A
object_of none = none
object_of (some e) = some e.object

-- The object under a reference.
unfoldable pub view : {A : Type 0} → List ℕ → Library A → Option A
view r lib = object_of (find r lib.root)

module _ {A : Type 0} where
  -- Only what is under `r` may differ.
  abbrev pub KeepsOthers : List ℕ → Library A → Library A → Type 0
  KeepsOthers r lib new = (q : List ℕ) → IsKey q → r ≢ q → view q new ≡ view q lib

  -- A library in order, with the items that the call holds, with that object, or nothing, under
  -- `r`, and the rest as in `lib`.
  pub record HasWith (rs os : List Item) (r : List ℕ) (o : Option A) (lib new : Library A)
      : Type 0 where
    pub sound : IsHolding rs os new
    pub here : view r new ≡ o
    pub others : KeepsOthers r lib new

  abbrev pub Has : List ℕ → Option A → Library A → Library A → Type 0
  Has r o lib new = HasWith [] [] r o lib new

  -- A library in order that holds what `lib` does.
  pub record SameWith (rs os : List Item) (lib new : Library A) : Type 0 where
    pub sound : IsHolding rs os new
    pub same : new.root ≡ lib.root

  abbrev pub Same : Library A → Library A → Type 0
  Same lib new = SameWith [] [] lib new

  abbrev pub Gets : List ℕ → Library A → Res (Library A) A → Type 0
  Gets r lib (ok a new) = (view r lib ≡ some a) × Same lib new
  Gets r lib (err e new) = (e ≡ xerror_library_item_not_found) × (view r lib ≡ none) × Same lib new
  Gets r lib fault = ⊥

  abbrev pub RemovesWith :
      List Item → List Item → List ℕ → Library A → Res (Library A) (Unit {0}) → Type 0
  RemovesWith rs os r lib (ok _ new) = (view r lib ≢ none) × HasWith rs os r none lib new
  RemovesWith rs os r lib (err e new) =
      (e ≡ xerror_library_item_not_found) × (view r lib ≡ none) × SameWith rs os lib new
  RemovesWith rs os r lib fault = ⊥

  abbrev pub Removes : List ℕ → Library A → Res (Library A) (Unit {0}) → Type 0
  Removes r lib res = RemovesWith [] [] r lib res

  abbrev pub Adds : Bool → List ℕ → A → Library A → Res (Library A) (Unit {0}) → Type 0
  Adds has_node r a lib (ok _ new) = Has r (some a) lib new
  Adds has_node r a lib (err e new) =
      (e ≡ xerror_library_add) × (has_node ≡ false) × Has r none lib new
  Adds has_node r a lib fault = ⊥

  Has-root :
      (r : List ℕ) (o : Option A) (lib new last : Library A) (rs os : List Item)
      → IsSound last
      → last.root ≡ new.root
      → HasWith rs os r o lib new
      → Has r o lib last
  unfolding view
  Has-root r o lib new last rs os s e h = record {
    sound = s;
    here = ap (λ root. object_of (find r root)) e ∙ h.here;
    others = λ q k d. ap (λ root. object_of (find q root)) e ∙ h.others q k d;
  }

  delete-Has :
      (rs os : List Item) (r : List ℕ) (lib new : Library A)
      → IsKey r
      → IsKeyed lib.root
      → IsHolding rs os new
      → new.root ≡ delete r lib.root
      → HasWith rs os r none lib new
  unfolding view
  delete-Has rs os r lib new k v s e = record {
    sound = s;
    here = ap (λ root. object_of (find r root)) e ∙ ap object_of (find-delete r lib.root v k);
    others = λ q l d.
        ap (λ root. object_of (find q root)) e
        ∙ ap object_of (find-delete_other r q lib.root v k l d);
  }

  pub insert-Has :
      (x : Entry A) (lib new : Library A)
      → IsKey x.reference
      → HasWith (x.ref_item ∷ []) (x.obj_item ∷ []) x.reference none lib new
      → find x.reference new.root ≡ none
      → Has x.reference (some x.object) lib (record new { root = insert x new.root })
  unfolding view
  insert-Has x lib new k h absent = record {
    sound = insert-IsHolding [] [] new x k absent h.sound;
    here = ap object_of (find-insert x new.root h.sound.keyed k absent);
    others =
        λ q l d. ap object_of (find-insert_other x q new.root h.sound.keyed k l d) ∙ h.others q l d;
  }

  view-none : (r : List ℕ) (lib : Library A) → view r lib ≡ none → find r lib.root ≡ none
  unfolding view
  view-none r lib e = go (find r lib.root) refl e
    where
      go :
          (o : Option (Entry A)) → find r lib.root ≡ o → object_of o ≡ none → find r lib.root ≡ none
      go none same e = same
      go (some x) same e = cc

  some-none : {a : A} → some a ≡ none → ⊥
  some-none e = cc

  pub Same-view : (q : List ℕ) (lib new : Library A) → Same lib new → view q new ≡ view q lib
  unfolding view
  Same-view q lib new h = ap (λ root. object_of (find q root)) h.same

  pub Same-Has :
      (rs os : List Item) (r : List ℕ) (lib new : Library A)
      → view r lib ≡ none
      → SameWith rs os lib new
      → HasWith rs os r none lib new
  unfolding view
  Same-Has rs os r lib new absent h = record {
    sound = h.sound;
    here = ap (λ root. object_of (find r root)) h.same ∙ absent;
    others = λ q k d. ap (λ root. object_of (find q root)) h.same;
  }

  -- Between two steps that leave the tree alone.
  Has-from :
      (rs os ps qs : List Item) (r : List ℕ) (o : Option A) (lib first cut : Library A)
      → first.root ≡ lib.root
      → HasWith rs os r o first cut
      → (last : Library A) → IsHolding ps qs last
      → last.root ≡ cut.root
      → HasWith ps qs r o lib last
  unfolding view
  Has-from rs os ps qs r o lib first cut e h last s same = record {
    sound = s;
    here = ap (λ root. object_of (find r root)) same ∙ h.here;
    others = λ q k d.
        ap (λ root. object_of (find q root)) same
        ∙ h.others q k d
        ∙ ap (λ root. object_of (find q root)) e;
  }

  module _ ⦃mem : Allocator⦄ (item_size : ℕ) (has_node : Bool) (sized : item_size ≤ 2 ^ 16)
      (memory : HasMemory) where
    -- With memory, on a library in order, xlibrary_get_item_nolock is the look-up in a map from
    -- references to objects.
    pub get_item_nolock-Gets :
        (r : List ℕ) (lib : Library A)
        → IsSound lib
        → Gets r lib (get_item_nolock item_size has_node r lib)
    unfolding get_item_nolock view found
    get_item_nolock-Gets r lib s =
        extract_ref_then (Gets r lib) [] [] item_size has_node sized memory lib _ s
          λ item new s e. go item new s e (find r new.root) refl
      where
        go :
            (item : Item) (new : Library A)
            → IsHolding (item ∷ []) [] new
            → new.root ≡ lib.root
            → (o : Option (Entry A)) → find r new.root ≡ o
            → Gets r lib (finally (found o new) (release_ref item))
        go item new s e none f = release_ref_then (Gets r lib) [] [] item new _ s λ last s e'.
            (refl, ap object_of (ap (find r) (sym e) ∙ f), record { sound = s; same = e' ∙ e })
        go item new s e (some x) f = release_ref_then (Gets r lib) [] [] item new _ s λ last s e'.
            (ap object_of (ap (find r) (sym e) ∙ f), record { sound = s; same = e' ∙ e })

    -- The removal in a call that holds some items.
    remove_item_nolock-RemovesWith :
        (rs os : List Item) (r : List ℕ) (lib : Library A)
        → IsKey r
        → IsHolding rs os lib
        → RemovesWith rs os r lib (remove_item_nolock item_size has_node r lib)
    unfolding remove_item_nolock view removed release_entry
    remove_item_nolock-RemovesWith rs os r lib k v =
        extract_ref_then (RemovesWith rs os r lib) rs os item_size has_node sized memory lib _ v
          λ item new s e. go item new s e (find r new.root) refl
      where
        go :
            (item : Item) (new : Library A)
            → IsHolding (item ∷ rs) os new
            → new.root ≡ lib.root
            → (o : Option (Entry A)) → find r new.root ≡ o
            → RemovesWith rs os r lib (finally (removed r o new) (release_ref item))
        go item new s e none f =
            release_ref_then (RemovesWith rs os r lib) rs os item new _ s λ last s e'.
              (refl, ap object_of (ap (find r) (sym e) ∙ f), record { sound = s; same = e' ∙ e })
        go item new s e (some x) f =
            let P : Res (Library A) (Unit {0}) → Type 0 =
              λ res. RemovesWith rs os r lib (finally res (release_ref item)) in
            let cut : Library A = record new { root = delete r new.root } in
            let was : view r lib ≡ some x.object = ap object_of (ap (find r) (sym e) ∙ f) in
            release_obj_then P (x.ref_item ∷ item ∷ rs) os x.obj_item cut _
              (delete-IsHolding (item ∷ rs) os r new x k f s)
              λ a s a_root. release_ref_then P (item ∷ rs) os x.ref_item a _ s λ b s b_root.
                release_ref_then (RemovesWith rs os r lib) rs os item b _ s λ last s last_root. (
                  λ gone. some-none (sym was ∙ gone),
                  delete-Has rs os r lib last k v.keyed s
                      (last_root ∙ b_root ∙ a_root ∙ ap (delete r) e),
                )

    -- With memory, on a library in order and a reference that is a text of less than 128 bytes,
    -- xlibrary_remove_item_nolock is the removal from a map from references to objects, and
    -- reports exactly a reference that is not there.
    pub remove_item_nolock-Removes :
        (r : List ℕ) (lib : Library A)
        → IsKey r
        → IsSound lib
        → Removes r lib (remove_item_nolock item_size has_node r lib)
    remove_item_nolock-Removes r lib k v = remove_item_nolock-RemovesWith [] [] r lib k v

    removed_then :
        (P : Res (Library A) (Unit {0}) → Type 0) (rs os : List Item) (r : List ℕ) (lib : Library A)
        (next : Act (Library A) (Unit {0}))
        → IsKey r
        → IsHolding rs os lib
        → ((new : Library A) → HasWith rs os r none lib new → P (next new))
        → P (always (remove_item_nolock item_size has_node r lib) next)
    removed_then P rs os r lib next k s f =
        go (remove_item_nolock item_size has_node r lib)
          (remove_item_nolock-RemovesWith rs os r lib k s)
      where
        go : (res : Res (Library A) (Unit {0})) → RemovesWith rs os r lib res → P (always res next)
        go (ok _ new) (_, h) = f new h
        go (err e new) (_, absent, same) = f new (Same-Has rs os r lib new absent same)
        go fault d = absurd d

    -- With memory, on a library in order and a reference that is a text of less than 128 bytes,
    -- xlibrary_add_item_nolock is the update of a map from references to objects; only where
    -- tsearch has no node, it is the removal from that map, and reports it.
    pub add_item_nolock-Adds :
        (r : List ℕ) (a : A) (lib : Library A)
        → IsKey r
        → IsSound lib
        → Adds has_node r a lib (add_item_nolock item_size has_node r a lib)
    unfolding add_item_nolock stored searched
    add_item_nolock-Adds r a lib k v =
        extract_obj_then (Adds has_node r a lib) [] [] item_size has_node sized memory lib _ v
          λ obj first s e. removed_then (Adds has_node r a lib) [] (obj ∷ []) r first _ k s λ cut h.
            let whole : take 128 r ≡ r = take_all 128 r (omega (arith, k.1)) in
            rw whole (
              extract_ref_then (λ res. Adds has_node r a lib (on_failure res (release_obj obj))) []
                (obj ∷ []) item_size has_node sized memory cut _ h.sound
                λ ref new s same. last_step obj ref new (
                  Has-from [] (obj ∷ []) (ref ∷ []) (obj ∷ []) r none lib first cut e h new s same))
      where
        last_step :
            (obj ref : Item) (new : Library A)
            → HasWith (ref ∷ []) (obj ∷ []) r none lib new
            → Adds has_node r a lib (
                on_failure
                  (searched item_size has_node
                    (find r new.root)
                    (record { reference = r; object = a; ref_item = ref; obj_item = obj })
                    new)
                  (release_obj obj))
        last_step obj ref new h =
            let x : Entry A = record {
              reference = r;
              object = a;
              ref_item = ref;
              obj_item = obj;
            } in
            let absent = view-none r new h.here in
            let P : Res (Library A) (Unit {0}) → Type 0 =
              λ res. Adds false r a lib (on_failure res (release_obj obj)) in
            elim (Bool-cases has_node) [
              | inl node ↦ rw (absent, node) (insert-Has x lib new k h absent)
              | inr full ↦
                  rw (absent, full)
                    (release_ref_then P [] (obj ∷ []) ref new _ h.sound λ b s b_root.
                      release_obj_then (Adds false r a lib) [] [] obj b _ s λ last s last_root. (
                        refl,
                        refl,
                        Has-root r none lib new last (ref ∷ []) (obj ∷ []) s (last_root ∙ b_root) h,
                      ))
            ]
