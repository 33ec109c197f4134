-- ===== src/Freelist/Ownership.antt =====
-- `xfreelist_extract_item` of xfreelist.c: an item has one owner.
use auks.Base.{
  ℕ, zero, suc, ◌*◌, ◌<◌, ◌≡◌, ◌≢◌, ◌↔◌, inl, inr, refl, sym, ap, ◌∙◌, Bool, true, false, Option,
  none, some, List, [], ◌∷◌, arith, length, true-false, subst, nat_cases, Bool-cases, ◌==◌,
}
use auks.Base.Lists.{replicate}
use auks.Base.Results.{Res, ok, err, fault, Error, xerror_freelist_is_empty}
use auks.Base.Memory.{Allocator, has_memory}
use auks.Freelist.{
  Pool, Freelist, last, chain, Item, count_from, get_flag, set_flag, unlinked, init,
  extracted_first, extract_extended, extract_last, extract_chain, extract,
}
use auks.Freelist.Pools.{
  Mem, IsPool, unlinked-IsPool, fresh-IsPool, get_flag-set_flag, get_flag-set_flag_other,
  get_flag-replicate_bound, some_bool,
}

unfoldable pub IsWellFormed : Freelist → Type 0
IsWellFormed (last p) = IsPool p
IsWellFormed (chain p next) = IsPool p × IsWellFormed next

-- The field `free` of an item.
unfoldable pub flag_at : ℕ → ℕ → Freelist → Option Bool
flag_at zero i (last p) = get_flag i p.flags
flag_at (suc k) i (last p) = none
flag_at zero i (chain p next) = get_flag i p.flags
flag_at (suc k) i (chain p next) = flag_at k i next

-- Somebody holds the item.
abbrev pub IsTaken : ℕ → ℕ → Freelist → Type 0
IsTaken k i l = flag_at k i l ≡ some false

-- From `l` to `new`, no other item changes hands.
abbrev pub KeepsOthers : ℕ → ℕ → Freelist → Freelist → Type 0
KeepsOthers k i l new = (m j : ℕ) → ((m ≡ k) × (j ≡ i) → ⊥) → IsTaken m j l ↔ IsTaken m j new

-- The items of the list that would be extended.
unfoldable pub items_nb : Freelist → ℕ
items_nb (last p) = length p.flags
items_nb (chain p next) = items_nb next

pub record Takes (k i : ℕ) (l new : Freelist) : Type 0 where
  pub well_formed : IsWellFormed new
  pub was_free : ¬ IsTaken k i l
  pub is_taken : IsTaken k i new
  pub others : KeepsOthers k i l new

abbrev done : Pool → Res Pool (Unit {0})
done q = ok tt q

ok_injective : {a b : Pool} → done a ≡ done b → a ≡ b
ok_injective e = cc

ok_err : {a b : Pool} {x : Error} → done a ≡ err x b → ⊥
ok_err e = cc

ok_fault : {a : Pool} → done a ≡ fault → ⊥
ok_fault e = cc

pub iff_refl : {A B : Type 0} → A ≡ B → A ↔ B
iff_refl e = rw e (λ x. x, λ x. x)

unlinked-others :
    (i j : ℕ) (p : Pool)
    → j ≢ i
    → (get_flag j p.flags ≡ some false) ↔ (get_flag j (set_flag false i p.flags) ≡ some false)
unlinked-others i j p h =
    iff_refl
      (ap (λ o. o ≡ some false) (sym (get_flag-set_flag_other false i j p.flags (λ e. h (sym e)))))

was_linked :
    (i : ℕ) (rest : List ℕ) (p : Pool)
    → p.head ≡ i ∷ rest
    → IsPool p
    → get_flag i p.flags ≡ some true
was_linked i rest p e v = let here : Mem i p.head = rw e (inl refl) in v.sound i here

pub take_last :
    (i : ℕ) (rest : List ℕ) (p : Pool)
    → p.head ≡ i ∷ rest
    → IsPool p
    → Takes 0 i (last p) (last (unlinked i rest p))
unfolding flag_at IsWellFormed
take_last i rest p e v =
    let was = was_linked i rest p e v in
    record {
      well_formed = unlinked-IsPool i rest p e v;
      was_free = λ t. some_bool true-false (sym was ∙ t);
      is_taken = get_flag-set_flag false true i p.flags was;
      others = others;
    }
  where
    others : KeepsOthers 0 i (last p) (last (unlinked i rest p))
    others zero j h = unlinked-others i j p (λ e. h (refl, e))
    others (suc m) j h = (λ e. e, λ e. e)

take_chain :
    (i : ℕ) (rest : List ℕ) (p : Pool) (next : Freelist)
    → p.head ≡ i ∷ rest
    → IsWellFormed (chain p next)
    → Takes 0 i (chain p next) (chain (unlinked i rest p) next)
unfolding flag_at IsWellFormed
take_chain i rest p next e (v, w) =
    let was = was_linked i rest p e v in
    record {
      well_formed = (unlinked-IsPool i rest p e v, w);
      was_free = λ t. some_bool true-false (sym was ∙ t);
      is_taken = get_flag-set_flag false true i p.flags was;
      others = others;
    }
  where
    others : KeepsOthers 0 i (chain p next) (chain (unlinked i rest p) next)
    others zero j h = unlinked-others i j p (λ e. h (refl, e))
    others (suc m) j h = (λ e. e, λ e. e)

take_behind :
    (k i : ℕ) (p : Pool) (l new : Freelist)
    → IsPool p
    → Takes k i l new
    → Takes (suc k) i (chain p l) (chain p new)
unfolding flag_at IsWellFormed
take_behind k i p l new v t = record {
  well_formed = (v, t.well_formed);
  was_free = t.was_free;
  is_taken = t.is_taken;
  others = others;
}
  where
    others : KeepsOthers (suc k) i (chain p l) (chain p new)
    others zero j h = (λ e. e, λ e. e)
    others (suc m) j h = t.others m j (λ (a, b). h (ap suc a, b))

take_extended :
    (i : ℕ) (rest : List ℕ) (n : ℕ) (p : Pool)
    → IsPool p
    → count_from 0 n ≡ i ∷ rest
    → Takes 1 i (last p) (
        chain p
          (last (unlinked i rest (record { head = count_from 0 n; flags = replicate n true }))))
unfolding flag_at IsWellFormed
take_extended i rest n p v e =
    let q : Pool = record { head = count_from 0 n; flags = replicate n true } in
    let was = was_linked i rest q e (fresh-IsPool n) in
    record {
      well_formed = (v, unlinked-IsPool i rest q e (fresh-IsPool n));
      was_free = λ t. cc t;
      is_taken = get_flag-set_flag false true i q.flags was;
      others = others;
    }
  where
    others : KeepsOthers 1 i (last p) (
        chain p
          (last (unlinked i rest (record { head = count_from 0 n; flags = replicate n true }))))
    others zero j h = (λ e. e, λ e. e)
    others (suc zero) j h = (
      λ e. cc e,
      λ e. elim (nat_cases j i) [
        | inl same ↦ absurd (h (refl, same))
        | inr other ↦
            let set =
              (unlinked-others i j (record { head = count_from 0 n; flags = replicate n true })
                  other).1
                e in
            let (_, f) = get_flag-replicate_bound n j false set in absurd (true-false (sym f))
      ],
    )
    others (suc (suc m)) j h = (λ e. cc e, λ e. cc e)

module _ ⦃mem : Allocator⦄ (item_size : ℕ) where
  -- What an extraction comes to: an item that nobody held; or, with no memory for a further list,
  -- an error and no change. It is undefined only where such a list is there, but not its items.
  abbrev pub Extracts : Freelist → Res Freelist Item → Type 0
  Extracts l (ok item new) = Takes item.depth item.index l new
  Extracts l (err e new) = (e ≡ xerror_freelist_is_empty) × (new ≡ l) × (has_memory 56 ≡ false)
  Extracts l fault = (p : Pool) → init (items_nb l) item_size ≢ ok tt p

  pub init_inv :
      (n : ℕ) (q : Pool)
      → init n item_size ≡ ok tt q
      → (q ≡ record { head = count_from 0 n; flags = replicate n true }) × (0 < n)
  unfolding init
  init_inv n q e = elim (Bool-cases (has_memory (48 * n))) [
    | inl a ↦ elim (Bool-cases (has_memory (item_size * n))) [
      | inl b ↦ elim (Bool-cases (n == 0)) [
        | inl c ↦ let e' = rw (a, b, c) at e in absurd (ok_fault (sym e'))
        | inr c ↦ let e' = rw (a, b, c) at e in (sym (ok_injective e'), ground arith)
      ]
      | inr b ↦ let e' = rw (a, b) at e in absurd (ok_err (sym e'))
    ]
    | inr a ↦ let e' = rw a at e in absurd (ok_err (sym e'))
  ]

  extended-Extracts :
      (p : Pool) (r : Res Pool (Unit {0}))
      → init (length p.flags) item_size ≡ r
      → IsPool p
      → Extracts (last p) (extract_extended p r)
  unfolding extract_extended extracted_first items_nb count_from
  extended-Extracts p (ok _ q) e v =
      let (same, positive) = init_inv (length p.flags) q e in
      subst (λ k. Extracts (last p) (extracted_first p k k.head)) (sym same)
        (go (length p.flags) positive)
    where
      go :
          (n : ℕ)
          → 0 < n
          → let q : Pool = record { head = count_from 0 n; flags = replicate n true } in
            Extracts (last p) (extracted_first p q q.head)
      go zero h = elim h [ ]
      go (suc n) h = take_extended 0 (count_from 1 n) (suc n) p v refl
  extended-Extracts p (err x q) e v = λ q' e'. cc
  extended-Extracts p fault e v = λ q' e'. cc

  last-Extracts :
      (p : Pool) (head : List ℕ)
      → p.head ≡ head
      → IsPool p
      → Extracts (last p) (extract_last item_size p head)
  unfolding extract_last
  last-Extracts p (i ∷ rest) e v = take_last i rest p e v
  last-Extracts p [] e v = elim (Bool-cases (has_memory 56)) [
    | inl room ↦ rw room (extended-Extracts p _ refl v)
    | inr full ↦ rw full (refl, refl, full)
  ]

  chain-Extracts :
      (p : Pool) (head : List ℕ) (next : Freelist) (r : Res Freelist Item)
      → p.head ≡ head
      → IsWellFormed (chain p next)
      → Extracts next r
      → Extracts (chain p next) (extract_chain p head next r)
  unfolding extract_chain items_nb IsWellFormed
  chain-Extracts p (i ∷ rest) next r e v t = take_chain i rest p next e v
  chain-Extracts p [] next (ok item l) e (v, w) t = take_behind item.depth item.index p next l v t
  chain-Extracts p [] next (err x l) e v (a, b, c) = (a, ap (chain p) b, c)
  chain-Extracts p [] next fault e v t = t

  -- An extraction from a well-formed freelist hands out an item that nobody holds and changes no
  -- other owner, or reports that there is no memory for a further list and changes nothing; it is
  -- undefined only where the initialisation of the further list fails.
  pub extract-Extracts : (l : Freelist) → IsWellFormed l → Extracts l (extract item_size l)
  unfolding extract IsWellFormed
  extract-Extracts (last p) v = last-Extracts p p.head refl v
  extract-Extracts (chain p next) (v, w) =
      chain-Extracts p p.head next _ refl (v, w) (extract-Extracts next w)
