-- ===== src/Repo/Walk/Packed.antt =====
-- `auks_cred_repo_pack_nolock` of auks_cred_repo.c: what a dump of the repository holds.
use auks.Base.{
  ℕ, suc, ◌≤◌, ◌≡◌, ◌≢◌, ◌⊎◌, refl, some_injective, sym, ap, ◌∙◌, subst, inl, inr, none, some, List,
  [], ◌∷◌, ◌++◌, append_assoc, append-nil, arith, length, All,
}
use auks.Base.Words.{htonl, to_int}
use auks.Base.Results.{
  Res, ok, err, fault, Error, and_then, cred_repo_pack, cred_repo_update_index, cred_repo_get_cred,
}
use auks.Base.Memory.{Allocator}
use auks.Freelist.Size.{HasMemory}
use auks.Buffer.Room
use auks.Buffer.View.{Split}
use auks.Message
use auks.Message.{Message}
use auks.Message.Packing.{IsPacked, Packs, pack_int-Packs, pack_int-err}
use auks.Cred
use auks.Cred.{Cred}
use auks.Cred.Wire.{IsValid, wire, pack-Packs}
use auks.Library.{Library, Entry, find, references}
use auks.Library.Entries.{IsKey, IsKeyed, find-here, find-there}
use auks.Library.Stock
use auks.Library.Index.{Indexes, update_index-Indexes}
use auks.Library.View.{object_of, view, Gets, get_item_nolock-Gets}
use auks.Repo.{Repo, Host, cred_size, with_library}
use auks.Repo.Walk.{
  Dump, indexed, update_index_nolock, get_indexed, packed, pack_item, pack_items, pack_all,
  pack_index, pack_nolock,
}

-- The credentials of a repository, in the order of its library.
abbrev objects : List (Entry Cred) → List Cred
objects [] = []
objects (e ∷ es) = e.object ∷ objects es

abbrev pub creds_of : Repo → List Cred
creds_of cr = objects cr.library.root

abbrev pub wires : List Cred → List ℕ
wires [] = []
wires (cred ∷ creds) = wire cred ++ wires creds

-- A repository with the same tree.
pub record SameTree (cr new : Repo) : Type 0 where
  pub sound : Stock.IsSound new.library
  pub same : new.library.root ≡ cr.library.root

-- Each entry is found under its reference.
abbrev Found : List (Entry Cred) → List (Entry Cred) → Type 0
Found root es = All (λ e. IsKey e.reference × (find e.reference root ≡ some e)) es

later-Found :
    (x : Entry Cred) (root es : List (Entry Cred))
    → IsKey x.reference
    → find x.reference root ≡ none
    → Found root es
    → Found (x ∷ root) es
later-Found x root [] k absent h = tt
later-Found x root (e ∷ es) k absent ((l, here), rest) =
    let other : e.reference ≢ x.reference =
      λ same. none_some (sym absent ∙ ap (λ r. find r root) (sym same) ∙ here) in
    ((l, find-there e.reference x root l k other ∙ here), later-Found x root es k absent rest)
  where
    none_some : none ≡ some e → ⊥
    none_some h = cc

keyed-Found : (root : List (Entry Cred)) → IsKeyed root → Found root root
unfolding IsKeyed
keyed-Found [] v = tt
keyed-Found (x ∷ root) (k, absent, v) = (
  (k, find-here x.reference x root k refl),
  later-Found x root root k absent (keyed-Found root v),
)

-- A message that has been packed so far, with room for a number.
abbrev pub HasRoom : Message → ℕ → List ℕ → Type 0
HasRoom msg type xs =
    (msg.type ≡ type) × ((ys : List ℕ) × (Split msg.buffer xs ys × (4 ≤ length ys)))

room-IsPacked :
    (msg : Message) (type : ℕ) (xs : List ℕ) → HasRoom msg type xs → IsPacked msg type xs
room-IsPacked msg type xs (t, (ys, (s, _))) = (t, (ys, s))

pub length-creds_of : (cr : Repo) → length (creds_of cr) ≡ length cr.library.root
length-creds_of cr = go cr.library.root
  where
    go : (es : List (Entry Cred)) → length (objects es) ≡ length es
    go [] = refl
    go (e ∷ es) = ap suc (go es)

pub pack_int-ne-err :
    ⦃mem : Allocator⦄ (i : ℕ) (msg : Message) (type : ℕ) (xs : List ℕ)
    → HasRoom msg type xs
    → (e : Error) (new : Message) → Message.pack_int i msg ≡ err e new
    → ⊥
pack_int-ne-err i msg type xs (_, (ys, (s, h))) e new same =
    let (buf, there) = pack_int-err i msg e new same in
    Room.pack_int-ne-err i msg.buffer buf xs ys e s h there

module _ ⦃mem : Allocator⦄ (host : Host) (memory : HasMemory) where
  -- A dump that was packed into a message of that type.
  abbrev pub Dumps : Repo → ℕ → List ℕ → Res Dump (Unit {0}) → Type 0
  Dumps cr type zs (ok _ d) = IsPacked d.message type zs × SameTree cr d.repo
  Dumps cr type zs (err e d) =
      ((e ≡ cred_repo_pack) ⊎ (e ≡ cred_repo_update_index)) × SameTree cr d.repo
  Dumps cr type zs fault = ⊥

  -- What the look-up of an indexed entry gives.
  abbrev Looks : Repo → Entry Cred → Res Repo Cred → Type 0
  Looks cr e (ok cred new) = (cred ≡ e.object) × SameTree cr new
  Looks cr e (err x new) = ⊥
  Looks cr e fault = ⊥

  get_indexed-Looks :
      (cr mid : Repo) (e : Entry Cred)
      → SameTree cr mid
      → find e.reference cr.library.root ≡ some e
      → Looks cr e (get_indexed host e.reference mid)
  unfolding get_indexed view
  get_indexed-Looks cr mid e s here = go _ (
      get_item_nolock-Gets cred_size host.has_node (omega arith) memory e.reference mid.library
        s.sound)
    where
      there : view e.reference mid.library ≡ some e.object
      there = ap (λ root. object_of (find e.reference root)) s.same ∙ ap object_of here

      none_some : none ≡ some e.object → ⊥
      none_some h = cc

      go :
          (r : Res (Library Cred) Cred)
          → Gets e.reference mid.library r
          → Looks cr e (with_library cred_repo_get_cred mid r)
      go (ok cred lib) (v, h) =
          (some_injective (sym v ∙ there), record { sound = h.sound; same = h.same ∙ s.same })
      go (err x lib) (_, v, h) = absurd (none_some (sym v ∙ there))
      go fault d = d

  pack_item-Dumps :
      (cr : Repo) (e : Entry Cred) (msg : Message) (type : ℕ) (xs : List ℕ) (r : Res Repo Cred)
      → IsValid e.object
      → IsPacked msg type xs
      → Looks cr e r
      → Dumps cr type (xs ++ wire e.object) (pack_item host msg r)
  unfolding pack_item packed
  pack_item-Dumps cr e msg type xs (ok cred mid) v p (same, s) = go (Cred.pack cred msg) (
      subst (λ c. Packs type (xs ++ wire e.object) (Cred.pack c msg)) (sym same)
        (pack-Packs e.object msg type xs v p))
    where
      go :
          (r : Res Message (Unit {0}))
          → Packs type (xs ++ wire e.object) r
          → Dumps cr type (xs ++ wire e.object) (packed host mid r)
      go (ok _ m) q = (q, s)
      go (err x m) q = (inl refl, s)
      go fault q = q
  pack_item-Dumps cr e msg type xs (err x mid) v p d = absurd d
  pack_item-Dumps cr e msg type xs fault v p d = absurd d

  pack_items-Dumps :
      (cr : Repo) (es : List (Entry Cred)) (d : Dump) (type : ℕ) (xs : List ℕ)
      → Found cr.library.root es
      → All IsValid (objects es)
      → SameTree cr d.repo
      → IsPacked d.message type xs
      → Dumps cr type (xs ++ wires (objects es)) (pack_items host (references es) none d)
  unfolding pack_items references
  pack_items-Dumps cr [] d type xs f v s p = rw (append-nil xs) (p, s)
  pack_items-Dumps cr (e ∷ es) d type xs ((_, here), rest) (v, vs) s p =
      rw (← append_assoc xs (wire e.object) (wires (objects es))) (
        go (pack_item host d.message (get_indexed host e.reference d.repo))
          (pack_item-Dumps cr e d.message type xs _ v p (get_indexed-Looks cr d.repo e s here))
          λ next s p. pack_items-Dumps cr es next type (xs ++ wire e.object) rest vs s p)
    where
      go :
          (r : Res Dump (Unit {0}))
          → Dumps cr type (xs ++ wire e.object) r
          → ((next : Dump)
              → SameTree cr next.repo
              → IsPacked next.message type (xs ++ wire e.object)
              → Dumps cr type
                  (xs ++ wire e.object ++ wires (objects es))
                  (pack_items host (references es) none next))
          → Dumps cr type
              (xs ++ wire e.object ++ wires (objects es))
              (and_then r (λ _. pack_items host (references es) none))
      go (ok _ next) (p, s) k = k next s p
      go (err x next) h k = h
      go fault h k = h

  -- The number of credentials, and each of them.
  abbrev dump_of : Repo → List ℕ
  dump_of cr = htonl (to_int (length cr.library.root)) ++ wires (creds_of cr)

  module _ (cr : Repo) (msg : Message) (type : ℕ) (xs : List ℕ) (keyed : IsKeyed cr.library.root)
      (valid : All IsValid (creds_of cr)) where
    pack_all-Dumps :
        (lib : Library Cred) (r : Res Message (Unit {0}))
        → indexed lib.index ≡ references cr.library.root
        → SameTree cr (record cr { library = lib })
        → Packs type (xs ++ htonl (to_int (length cr.library.root))) r
        → ((e : Error) (m : Message) → r ≡ err e m → ⊥)
        → Dumps cr type (xs ++ dump_of cr) (pack_all host (record cr { library = lib }) r)
    unfolding pack_all
    pack_all-Dumps lib (ok _ m) index tree p sure =
        rw (← append_assoc xs (htonl (to_int (length cr.library.root))) (wires (creds_of cr))) (
          subst
            (λ l.
              Dumps cr type (xs ++ htonl (to_int (length cr.library.root)) ++ wires (creds_of cr)) (
                pack_items host l none
                  (record { repo = record cr { library = lib }; message = m })))
            (sym index)
            (pack_items-Dumps cr cr.library.root _ type _ (keyed-Found cr.library.root keyed) valid
              tree p))
    pack_all-Dumps lib (err e m) index tree p sure = absurd (sure e m refl)
    pack_all-Dumps lib fault index tree p sure = absurd p

    pack_index-Dumps :
        (r : Res (Library Cred) (Unit {0}))
        → HasRoom msg type xs
        → Indexes cr.library r
        → Dumps cr type
            (xs ++ dump_of cr)
            (pack_index host msg (with_library cred_repo_update_index cr r))
    unfolding pack_index
    pack_index-Dumps (ok _ lib) room (s, same, nb, index) =
        subst
          (λ k.
            Dumps cr type (xs ++ dump_of cr)
              (pack_all host (record cr { library = lib }) (Message.pack_int (to_int k) msg)))
          (sym nb)
          (pack_all-Dumps lib _ (listed index) (record { sound = s; same = same })
            (pack_int-Packs (to_int (length cr.library.root)) msg type xs
              (room-IsPacked msg type xs room))
            (pack_int-ne-err (to_int (length cr.library.root)) msg type xs room))
      where
        listed :
            (((cr.library.root ≡ []) × (lib.index ≡ none))
              ⊎ (lib.index ≡ some (references cr.library.root)))
            → indexed lib.index ≡ references cr.library.root
        listed (inl (empty, e)) =
            ap indexed e ∙ sym (ap references empty ∙ (unfold references in refl))
        listed (inr e) = ap indexed e
    pack_index-Dumps (err e lib) room (s, same) = (inr refl, record { sound = s; same = same })
    pack_index-Dumps fault room d = absurd d

    -- A dump of the repository appends to a message the number of its credentials and each of them
    -- in wire format, in the order of the library, and leaves the library's tree alone; or it reports
    -- an error, for want of memory. The credentials are valid, the library is in order, memory
    -- suffices for it, and the message has room for the number.
    pub pack_nolock-Dumps :
        Stock.IsSound cr.library
        → HasRoom msg type xs
        → Dumps cr type
            (xs ++ (htonl (to_int (length cr.library.root)) ++ wires (creds_of cr)))
            (pack_nolock host (record { repo = cr; message = msg }))
    unfolding pack_nolock update_index_nolock
    pack_nolock-Dumps sound room =
        pack_index-Dumps _ room (update_index-Indexes cred_size host.has_node cr.library sound)
