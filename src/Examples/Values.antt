-- ===== src/Examples/Values.antt =====
-- The inputs that the examples share: a heap, a credential and a repository.
use auks.Base.{
  ℕ, zero, suc, ◌^◌, ◌≤◌, ◌<◌, ◌≡◌, refl, sym, ap, ◌∙◌, true, false, Option, none, some, List, [],
  ◌∷◌, ◌++◌, arith, length, length-append, length-replicate, ltb, if◌then◌else◌, Bool-cases, inl,
  inr, some_injective, lt→ltb, true-false,
}
use auks.Base.Lists.{take, replicate, length-take}
use auks.Base.Memory.{Allocator, has_memory_lem}
use auks.Base.Text.{codes}
use auks.Base.Decimal.{decimal}
use auks.Freelist.{Freelist, Item, last, count_from, set_flag, unlinked}
use auks.Freelist.Pools.{fresh-IsPool, get_flag-replicate_bound}
use auks.Freelist.Ownership.{IsWellFormed, IsTaken, Takes, flag_at, items_nb, take_last}
use auks.Freelist.Owned.{Owns, take-Owns}
use auks.Freelist.Size.{HasMemory, IsStocked}
use auks.Cred.{CredInfo, Cred}
use auks.Cred.Wire.{Fits, IsValid}
use auks.Library.{Library, Entry, find, insert}
use auks.Library.Entries.{IsKeyed}
use auks.Library.Stock
use auks.Library.Stock.{IsHolding, items}
use auks.Library.View.{view, insert-Has, Same-Has}
use auks.Repo.Uids.{decimal-IsKey}
use auks.Repo.Contents.{cred_of, IsSound, Holds, Has-Holds}
use auks.Repo.{Repo, Host}

-- A heap without end.
abbrev grown : List ℕ → ℕ → List ℕ
grown old n = take n (old ++ replicate n 0)

length-grown : (old : List ℕ) (n : ℕ) → length (grown old n) ≡ n
length-grown old n =
    length-take n (old ++ replicate n 0)
      (omega (arith, length-append old (replicate n 0), length-replicate {A = ℕ} n 0))

heap_alloc : List ℕ → ℕ → Option (List ℕ)
heap_alloc old n = if ltb n (2 ^ 63) then some (grown old n) else none

heap_alloc_inv :
    (old : List ℕ) (n : ℕ) (block : List ℕ)
    → heap_alloc old n ≡ some block
    → (block ≡ grown old n) × (n < 2 ^ 63)
unfolding heap_alloc
heap_alloc_inv old n block e = elim (Bool-cases (ltb n (2 ^ 63))) [
  | inl small ↦ let e' = rw small at e in (sym (some_injective e'), ground arith)
  | inr large ↦ let e' = rw large at e in absurd (none_some e')
]
  where
    none_some : {xs : List ℕ} → none ≡ some xs → ⊥
    none_some e = cc

heap_alloc_size :
    (old : List ℕ) (n : ℕ) (block : List ℕ)
    → heap_alloc old n ≡ some block
    → (length block ≡ n) × (n < 2 ^ 63)
heap_alloc_size old n block e =
    let (same, small) = heap_alloc_inv old n block e in (ap length same ∙ length-grown old n, small)

take-take_append :
    (old rest : List ℕ) (n : ℕ) → length old ≤ n → take (length old) (take n (old ++ rest)) ≡ old
unfolding take
take-take_append [] rest n h = refl
take-take_append (x ∷ old) rest zero h = elim h [ ]
take-take_append (x ∷ old) rest (suc n) h =
    ap (λ r. x ∷ r) (take-take_append old rest n (omega arith))

heap_alloc_keeps :
    (old : List ℕ) (n : ℕ) (block : List ℕ)
    → heap_alloc old n ≡ some block
    → length old ≤ n
    → take (length old) block ≡ old
heap_alloc_keeps old n block e h =
    let (same, _) = heap_alloc_inv old n block e in
    ap (take (length old)) same ∙ take-take_append old (replicate n 0) n h

instance pub heap : Allocator
heap = record {
  malloc = heap_alloc [];
  realloc = heap_alloc;
  malloc_size = heap_alloc_size [];
  realloc_size = heap_alloc_size;
  realloc_keeps = heap_alloc_keeps;
}

pub heap-HasMemory : HasMemory
unfolding heap heap_alloc
heap-HasMemory n h = has_memory_lem n (grown [] n) (rw (lt→ltb n (2 ^ 63) (omega arith)) refl)

-- The credential of the user 1000, `u@R`, until 5000.
abbrev pub info : CredInfo
info = record {
  principal = codes "u@R" ++ replicate 126 0;
  uid = 1000;
  starttime = 1000;
  endtime = 5000;
  renew_till = 9000;
  addressless = 1;
  crossrealm = 0;
}

abbrev pub cred : Cred
cred = record {
  info = info;
  contents = replicate 32768 0;
  length = 700;
  max_length = 32768;
  status = 0;
}

pub info-Fits : Fits info
info-Fits = record {
  principal_size =
      length-append (codes "u@R") (replicate 126 0) ∙ omega (arith, length-replicate {A = ℕ} 126 0);
  uid_small = omega arith;
  starttime_small = omega arith;
  endtime_small = omega arith;
  renew_till_small = omega arith;
  addressless_small = omega arith;
  crossrealm_small = omega arith;
}

pub cred-IsValid : IsValid cred
cred-IsValid = record {
  fits = info-Fits;
  contents_size = length-replicate 32768 0;
  max_length_size = refl;
  length_small = omega arith;
  status_small = omega arith;
}

-- A repository of two freelists of four items, with no credential and with that one.
abbrev pub freelist : Freelist
freelist = last (record { head = count_from 0 4; flags = replicate 4 true })

pub freelist-IsStocked : IsStocked freelist
unfolding IsWellFormed items_nb replicate
freelist-IsStocked =
    let four : items_nb freelist ≡ 4 = refl in
    record {
      well_formed = fresh-IsPool 4;
      positive = omega (arith, four);
      small = omega (arith, four);
    }

abbrev item : Item
item = record { depth = 0; index = 0 }

-- The same with its first item held.
abbrev held_freelist : Freelist
held_freelist =
    last (unlinked 0 (count_from 1 3) (record { head = count_from 0 4; flags = replicate 4 true }))

held_freelist-Takes : Takes 0 0 freelist held_freelist
unfolding count_from
held_freelist-Takes =
    take_last 0 (count_from 1 3) (record { head = count_from 0 4; flags = replicate 4 true }) refl
      (fresh-IsPool 4)

held_freelist-IsStocked : IsStocked held_freelist
unfolding items_nb replicate set_flag
held_freelist-IsStocked =
    let four : items_nb held_freelist ≡ 4 = refl in
    record {
      well_formed = held_freelist-Takes.well_formed;
      positive = omega (arith, four);
      small = omega (arith, four);
    }

pub freelist-Owns : Owns freelist []
unfolding flag_at
freelist-Owns = record {
  distinct = tt;
  taken = λ i a. absurd a;
  held = λ i h. go i.depth i.index h;
}
  where
    go : (k i : ℕ) → IsTaken k i freelist → ⊥
    go zero i h = let (_, f) = get_flag-replicate_bound 4 i false h in true-false (sym f)
    go (suc k) i h = cc h

abbrev pub no_library : Library Cred
no_library = record {
  ref_freelist = freelist;
  obj_freelist = freelist;
  root = [];
  item_nb = 0;
  index = none;
}

abbrev pub no_creds : Repo
no_creds = record {
  library = no_library;
  cachedir = codes "/var/cache/auks";
  read_only = false;
  files = [];
}

abbrev pub entry : Entry Cred
entry = record { reference = decimal 1000; object = cred; ref_item = item; obj_item = item }

abbrev held_library : Library Cred
held_library = record no_library { ref_freelist = held_freelist; obj_freelist = held_freelist }

abbrev pub one_cred : Repo
one_cred = record no_creds { library = record held_library { root = entry ∷ [] } }

pub no_library-IsSound : Stock.IsSound no_library
unfolding IsKeyed items
no_library-IsSound = record {
  refs = freelist-IsStocked;
  objs = freelist-IsStocked;
  keyed = tt;
  ref_owned = freelist-Owns;
  obj_owned = freelist-Owns;
}

held_library-IsHolding : IsHolding (item ∷ []) (item ∷ []) held_library
unfolding IsKeyed items
held_library-IsHolding = record {
  refs = held_freelist-IsStocked;
  objs = held_freelist-IsStocked;
  keyed = tt;
  ref_owned = take-Owns item freelist held_freelist [] held_freelist-Takes freelist-Owns;
  obj_owned = take-Owns item freelist held_freelist [] held_freelist-Takes freelist-Owns;
}

pub no_creds-IsSound : IsSound no_creds
unfolding cred_of view find
no_creds-IsSound = record { library = no_library-IsSound; own = λ uid c h e. cc }

pub one_cred-Holds : Holds 1000 (some cred) no_creds one_cred
unfolding insert view find
one_cred-Holds =
    Has-Holds 1000 (some cred) no_creds one_cred (omega arith)
      (λ c e. ap (λ c. c.info.uid) (sym (some_injective e))) no_creds-IsSound
      (insert-Has entry no_library held_library (decimal-IsKey 1000)
        (Same-Has (item ∷ []) (item ∷ []) (decimal 1000) no_library held_library refl
          (record { sound = held_library-IsHolding; same = refl }))
        refl)

pub one_cred-IsSound : IsSound one_cred
one_cred-IsSound = one_cred-Holds.sound

-- A host on which all calls succeed.
abbrev pub host : Host
host = record {
  has_node = true;
  can_lock = true;
  can_unlock = true;
  store = λ path bytes. none;
  can_unlink = λ path. true;
}
