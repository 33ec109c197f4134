-- ===== src/Freelist/Release.antt =====
-- `xfreelist_release_item` of xfreelist.c: an item is given back by its owner.
use auks.Base.{
  ℕ, zero, suc, ◌≡◌, refl, sym, ap, ◌∙◌, Bool, true, false, Option, none, some, true-false,
}
use auks.Base.Results.{Res, ok, err, fault}
use auks.Freelist.{
  Pool, Freelist, last, chain, Item, get_flag, linked, release_here, release_at, release, in_last,
  in_chain, behind,
}
use auks.Freelist.Pools.{
  IsPool, linked-IsPool, get_flag-set_flag, get_flag-set_flag_other, some_bool,
}
use auks.Freelist.Ownership.{IsWellFormed, flag_at, IsTaken, KeepsOthers, iff_refl}

pub record Frees (k i : ℕ) (l new : Freelist) : Type 0 where
  pub well_formed : IsWellFormed new
  pub was_taken : IsTaken k i l
  pub is_free : flag_at k i new ≡ some true
  pub others : KeepsOthers k i l new

-- What a release comes to: the item is free again, or was not held, and then nothing changes.
abbrev pub Releases : ℕ → ℕ → Freelist → Res Freelist (Unit {0}) → Type 0
Releases k i l (ok _ new) = Frees k i l new
Releases k i l (err e new) = (new ≡ l) × (¬ IsTaken k i l)
Releases k i l fault = ⊥

free_here :
    (i : ℕ) (p : Pool)
    → get_flag i p.flags ≡ some false
    → IsPool p
    → Frees 0 i (last p) (last (linked i p))
unfolding flag_at IsWellFormed
free_here i p e v = record {
  well_formed = linked-IsPool i p e v;
  was_taken = e;
  is_free = get_flag-set_flag true false i p.flags e;
  others = others;
}
  where
    others : KeepsOthers 0 i (last p) (last (linked i p))
    others zero j h = iff_refl (
        ap (λ o. o ≡ some false)
          (sym (get_flag-set_flag_other true i j p.flags (λ e. h (refl, sym e)))))
    others (suc m) j h = (λ e. e, λ e. e)

free_before :
    (i : ℕ) (p q : Pool) (next : Freelist)
    → IsWellFormed next
    → Frees 0 i (last p) (last q)
    → Frees 0 i (chain p next) (chain q next)
unfolding flag_at IsWellFormed
free_before i p q next w f = record {
  well_formed = (f.well_formed, w);
  was_taken = f.was_taken;
  is_free = f.is_free;
  others = others;
}
  where
    others : KeepsOthers 0 i (chain p next) (chain q next)
    others zero j h = f.others zero j h
    others (suc m) j h = (λ e. e, λ e. e)

free_behind :
    (k i : ℕ) (p : Pool) (l new : Freelist)
    → IsPool p
    → Frees k i l new
    → Frees (suc k) i (chain p l) (chain p new)
unfolding flag_at IsWellFormed
free_behind k i p l new v f = record {
  well_formed = (v, f.well_formed);
  was_taken = f.was_taken;
  is_free = f.is_free;
  others = others;
}
  where
    others : KeepsOthers (suc k) i (chain p l) (chain p new)
    others zero j h = (λ e. e, λ e. e)
    others (suc m) j h = f.others m j (λ (a, b). h (ap suc a, b))

here-Releases :
    (i : ℕ) (p : Pool) (o : Option Bool)
    → get_flag i p.flags ≡ o
    → IsPool p
    → Releases 0 i (last p) (in_last (release_here i p o))
unfolding release_here flag_at
here-Releases i p none e v = (refl, λ t. cc)
here-Releases i p (some true) e v = (refl, λ t. some_bool true-false (sym e ∙ t))
here-Releases i p (some false) e v = free_here i p e v

before-Releases :
    (i : ℕ) (p : Pool) (next : Freelist) (o : Option Bool)
    → get_flag i p.flags ≡ o
    → IsPool p
    → IsWellFormed next
    → Releases 0 i (chain p next) (in_chain next (release_here i p o))
unfolding release_here flag_at
before-Releases i p next none e v w = (refl, λ t. cc)
before-Releases i p next (some true) e v w = (refl, λ t. some_bool true-false (sym e ∙ t))
before-Releases i p next (some false) e v w =
    free_before i p (linked i p) next w (free_here i p e v)

behind-Releases :
    (k i : ℕ) (p : Pool) (l : Freelist) (r : Res Freelist (Unit {0}))
    → IsPool p
    → Releases k i l r
    → Releases (suc k) i (chain p l) (behind p r)
unfolding flag_at
behind-Releases k i p l (ok _ new) v f = free_behind k i p l new v f
behind-Releases k i p l (err e new) v (same, t) = (ap (chain p) same, t)
behind-Releases k i p l fault v d = d

-- A release gives back an item that somebody holds and changes no other owner; a release of any
-- other item reports an error and changes nothing.
pub release-Releases :
    (item : Item) (l : Freelist)
    → IsWellFormed l
    → Releases item.depth item.index l (release item l)
unfolding release release_at IsWellFormed flag_at
release-Releases item l v = go item.depth item.index l v
  where
    go : (k i : ℕ) (l : Freelist) → IsWellFormed l → Releases k i l (release_at k i l)
    go zero i (last p) v = here-Releases i p (get_flag i p.flags) refl v
    go (suc k) i (last p) v = (refl, λ t. cc)
    go zero i (chain p next) (v, w) = before-Releases i p next (get_flag i p.flags) refl v w
    go (suc k) i (chain p next) (v, w) = behind-Releases k i p next _ v (go k i next w)
