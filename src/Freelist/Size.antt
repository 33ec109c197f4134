-- ===== src/Freelist/Size.antt =====
-- xfreelist.c: no call changes the number of items that an extension adds, and with memory there is
-- always an item to extract.
use auks.Base.{
  ℕ, zero, suc, ◌*◌, ◌^◌, ◌≤◌, ◌<◌, ◌≡◌, refl, sym, ap, ◌∙◌, subst, inl, inr, Bool, true, false,
  Option, none, some, List, [], ◌∷◌, arith, length, length-replicate, true-false, Bool-cases, ◌==◌,
}
use native.Mathlib.Nat.{mul-le-mul_right}
use auks.Base.Lists.{replicate}
use auks.Base.Results.{Res, ok, err, fault}
use auks.Base.Memory.{Allocator, has_memory}
use auks.Freelist.{
  Pool, Freelist, last, chain, Item, count_from, get_flag, set_flag, init, extracted_first,
  extract_extended, extract_last, extract_chain, extract, release_here, release_at, release,
  in_last, in_chain, behind,
}
use auks.Freelist.Ownership.{IsWellFormed, items_nb, init_inv, Extracts, extract-Extracts}
use auks.Freelist.Release.{Releases, release-Releases}

length-set_flag : (b : Bool) (i : ℕ) (fs : List Bool) → length (set_flag b i fs) ≡ length fs
unfolding set_flag
length-set_flag b i [] = refl
length-set_flag b zero (f ∷ fs) = refl
length-set_flag b (suc i) (f ∷ fs) = ap suc (length-set_flag b i fs)

abbrev Keeps : {A : Type 0} → ℕ → Res Freelist A → Type 0
Keeps n (ok _ l) = items_nb l ≡ n
Keeps n (err e l) = items_nb l ≡ n
Keeps n fault = Unit

-- Whatever is asked for fits in memory, below 2 ^ 48 bytes.
abbrev pub HasMemory : ⦃mem : Allocator⦄ → Type 0
HasMemory = (n : ℕ) → n < 2 ^ 48 → has_memory n ≡ true

-- A list that is in order, and that grows by some items: an `unsigned int` of them.
pub record IsStocked (l : Freelist) : Type 0 where
  pub well_formed : IsWellFormed l
  pub positive : 0 < items_nb l
  pub small : items_nb l < 2 ^ 32

module _ ⦃mem : Allocator⦄ (item_size : ℕ) where
  first-Keeps :
      (p q : Pool) (head : List ℕ)
      → length q.flags ≡ length p.flags
      → Keeps (length p.flags) (extracted_first p q head)
  unfolding extracted_first items_nb
  first-Keeps p q [] e = tt
  first-Keeps p q (i ∷ rest) e = length-set_flag false i q.flags ∙ e

  extended-Keeps :
      (p : Pool) (r : Res Pool (Unit {0}))
      → init (length p.flags) item_size ≡ r
      → Keeps (length p.flags) (extract_extended p r)
  unfolding extract_extended
  extended-Keeps p (ok _ q) e =
      let (same, _) = init_inv item_size (length p.flags) q e in
      first-Keeps p q q.head
        (ap (λ q. length q.flags) same ∙ length-replicate (length p.flags) true)
  extended-Keeps p (err x q) e = tt
  extended-Keeps p fault e = tt

  last-Keeps : (p : Pool) (head : List ℕ) → Keeps (length p.flags) (extract_last item_size p head)
  unfolding extract_last items_nb
  last-Keeps p (i ∷ rest) = length-set_flag false i p.flags
  last-Keeps p [] = elim (Bool-cases (has_memory 56)) [
    | inl room ↦ rw room (extended-Keeps p _ refl)
    | inr full ↦ rw full refl
  ]

  chain-Keeps :
      (p : Pool) (head : List ℕ) (next : Freelist) (r : Res Freelist Item)
      → Keeps (items_nb next) r
      → Keeps (items_nb next) (extract_chain p head next r)
  unfolding extract_chain items_nb
  chain-Keeps p (i ∷ rest) next r k = refl
  chain-Keeps p [] next (ok item l) k = k
  chain-Keeps p [] next (err x l) k = k
  chain-Keeps p [] next fault k = tt

  extract-Keeps : (l : Freelist) → Keeps (items_nb l) (extract item_size l)
  unfolding extract items_nb
  extract-Keeps (last p) = last-Keeps p p.head
  extract-Keeps (chain p next) = chain-Keeps p p.head next _ (extract-Keeps next)

  -- With memory an item is extracted, from a list that stays in order.
  abbrev pub Supplies : Res Freelist Item → Type 0
  Supplies (ok item l) = IsStocked l
  Supplies (err e l) = ⊥
  Supplies fault = ⊥

  pub extract-Supplies :
      (l : Freelist) → item_size ≤ 2 ^ 16 → HasMemory → IsStocked l → Supplies (extract item_size l)
  unfolding init
  extract-Supplies l sized memory s =
      go (extract item_size l) (extract-Extracts item_size l s.well_formed) (extract-Keeps l)
    where
      fresh :
          (n : ℕ)
          → 0 < n
          → n < 2 ^ 32
          → init n item_size ≡ ok tt (record { head = count_from 0 n; flags = replicate n true })
      fresh n h small =
          let nonzero : (n == 0) ≡ false = ground arith in
          let own = memory (48 * n) (omega arith) in
          let product : item_size * n ≤ 2 ^ 16 * n = mul-le-mul_right n sized in
          rw (own, memory (item_size * n) (omega arith), nonzero) refl

      go : (r : Res Freelist Item) → Extracts item_size l r → Keeps (items_nb l) r → Supplies r
      go (ok item new) t k = record {
        well_formed = t.well_formed;
        positive = omega (arith, s.positive, k);
        small = omega (arith, s.small, k);
      }
      go (err e new) (_, _, full) k = true-false (sym (memory 56 (omega arith)) ∙ full)
      go fault t k = t _ (fresh (items_nb l) s.positive s.small)

here-Keeps :
    (i : ℕ) (p : Pool) (o : Option Bool) → Keeps (length p.flags) (in_last (release_here i p o))
unfolding release_here items_nb
here-Keeps i p none = refl
here-Keeps i p (some true) = refl
here-Keeps i p (some false) = length-set_flag true i p.flags

before-Keeps :
    (i : ℕ) (p : Pool) (next : Freelist) (o : Option Bool)
    → Keeps (items_nb next) (in_chain next (release_here i p o))
unfolding release_here items_nb
before-Keeps i p next none = refl
before-Keeps i p next (some true) = refl
before-Keeps i p next (some false) = refl

behind-Keeps : (p : Pool) (n : ℕ) (r : Res Freelist (Unit {0})) → Keeps n r → Keeps n (behind p r)
unfolding items_nb
behind-Keeps p n (ok _ l) k = k
behind-Keeps p n (err e l) k = k
behind-Keeps p n fault k = tt

release_at-Keeps : (k i : ℕ) (l : Freelist) → Keeps (items_nb l) (release_at k i l)
unfolding release_at items_nb
release_at-Keeps zero i (last p) = here-Keeps i p (get_flag i p.flags)
release_at-Keeps (suc k) i (last p) = refl
release_at-Keeps zero i (chain p next) = before-Keeps i p next (get_flag i p.flags)
release_at-Keeps (suc k) i (chain p next) =
    behind-Keeps p (items_nb next) _ (release_at-Keeps k i next)

-- A release, of whatever item, leaves the list in order.
abbrev pub Restocks : Res Freelist (Unit {0}) → Type 0
Restocks (ok _ l) = IsStocked l
Restocks (err e l) = IsStocked l
Restocks fault = ⊥

pub release-Restocks : (item : Item) (l : Freelist) → IsStocked l → Restocks (release item l)
unfolding release
release-Restocks item l s =
    go (release item l) (release-Releases item l s.well_formed)
      (release_at-Keeps item.depth item.index l)
  where
    go :
        (r : Res Freelist (Unit {0}))
        → Releases item.depth item.index l r
        → Keeps (items_nb l) r
        → Restocks r
    go (ok _ new) f k = record {
      well_formed = f.well_formed;
      positive = omega (arith, s.positive, k);
      small = omega (arith, s.small, k);
    }
    go (err e new) (same, _) k = subst IsStocked (sym same) s
    go fault f k = f
