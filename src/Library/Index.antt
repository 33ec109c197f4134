-- ===== src/Library/Index.antt =====
-- `xlibrary_update_index` of xlibrary.c: the references of all entries, in the order of the tree.
use auks.Base.{
  ℕ, ◌*◌, ◌≡◌, ◌⊎◌, refl, inl, inr, Bool, false, none, some, List, [], ◌∷◌, length, ltb, Bool-cases,
  arith,
}
use auks.Base.Results.{Res, ok, err, fault}
use auks.Base.Memory.{Allocator, has_memory}
use auks.Library.{Library, Entry, references, update_index}
use auks.Library.Stock.{IsSound}

module _ {A : Type 0} where
  -- The index is that of the tree, or there is no memory for it; the tree stays.
  abbrev pub Indexes : Library A → Res (Library A) (Unit {0}) → Type 0
  Indexes lib (ok _ new) =
      IsSound new
      × (new.root ≡ lib.root)
      × (new.item_nb ≡ length lib.root)
      × (((lib.root ≡ []) × (new.index ≡ none)) ⊎ (new.index ≡ some (references lib.root)))
  Indexes lib (err e new) = IsSound new × (new.root ≡ lib.root)
  Indexes lib fault = ⊥

  empty : (es : List (Entry A)) → ltb 0 (length es) ≡ false → (es ≡ []) × (length es ≡ 0)
  empty [] h = (refl, refl)
  empty (e ∷ es) h = absurd (ground arith)

  pub update_index-Indexes :
      ⦃mem : Allocator⦄ (item_size : ℕ) (has_node : Bool) (lib : Library A)
      → IsSound lib
      → Indexes lib (update_index item_size has_node lib)
  unfolding update_index
  update_index-Indexes item_size has_node lib s = elim (Bool-cases (ltb 0 (length lib.root))) [
    | inr none_left ↦
        let (e, l) = empty lib.root none_left in
        rw none_left (
          record {
            refs = s.refs;
            objs = s.objs;
            keyed = s.keyed;
            ref_owned = s.ref_owned;
            obj_owned = s.obj_owned;
          },
          refl,
          omega arith,
          inl (e, refl),
        )
    | inl there ↦ elim (Bool-cases (has_memory (8 * length lib.root))) [
      | inl m ↦
          rw (there, m)
            (
              record {
                refs = s.refs;
                objs = s.objs;
                keyed = s.keyed;
                ref_owned = s.ref_owned;
                obj_owned = s.obj_owned;
              },
              refl,
              refl,
              inr refl,
            )
      | inr m ↦
          rw (there, m)
            (
              record {
                refs = s.refs;
                objs = s.objs;
                keyed = s.keyed;
                ref_owned = s.ref_owned;
                obj_owned = s.obj_owned;
              },
              refl,
            )
    ]
  ]
