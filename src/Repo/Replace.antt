-- ===== src/Repo/Replace.antt =====
-- `auks_cred_repo_add_nolock` of auks_cred_repo.c: which of two credentials of a user stays.
use auks.Base.{
  ℕ, ◌+◌, ◌%◌, ◌≤◌, ◌<◌, ◌^◌, ◌≡◌, refl, ◌↔◌, ◌⊎◌, sym, ap, ◌∙◌, Bool, true, false, Option, none,
  some, List, arith, Bool-cases, true-false, some_injective, inl, inr, if◌then◌else◌,
}
use auks.Base.Decimal.{decimal}
use auks.Base.Results.{Res, ok, err, fault, Error, and_then, always, library_add}
use auks.Base.Memory.{Allocator}
use auks.Cred.{Cred}
use auks.Library.{Library, add_item}
use auks.Freelist.Size.{HasMemory}
use auks.Library.View.{Has, Adds, add_item_nolock-Adds}
use auks.Repo.{
  Repo, Host, cred_size, auks_credfile, is_better, with_library, written, stored, add_by, add_stage,
  add_to, add_nolock, add,
}
use auks.Repo.Uids.{uid_str_lem, decimal-IsKey}
use auks.Repo.Contents.{
  cred_of, IsSound, KeepsOthers, Holds, Has-Holds, Finds, Discards, get_nolock-Finds,
  remove_nolock-Discards, locked,
}

-- The order of `time_t`: a pattern as a number that is not negative.
abbrev pub time_order : ℕ → ℕ
time_order t = (t + 2 ^ 63) % 2 ^ 64

-- A credential is better than the old one if it can be renewed for longer, or for as long and does
-- not end earlier.
abbrev pub IsBetter : Cred → Cred → Type 0
IsBetter cred old =
    (time_order old.info.renew_till < time_order cred.info.renew_till)
    ⊎ ((cred.info.renew_till ≡ old.info.renew_till)
        × (time_order old.info.endtime ≤ time_order cred.info.endtime))

-- The credential that is kept.
abbrev pub IsKept : Cred → Option Cred → Cred → Type 0
IsKept cred none kept = kept ≡ cred
IsKept cred (some old) kept =
    (IsBetter cred old × (kept ≡ cred)) ⊎ ((IsBetter cred old → ⊥) × (kept ≡ old))

-- The choice of the code.
abbrev chosen : Cred → Option Cred → Cred
chosen cred none = cred
chosen cred (some old) = if is_better cred old then cred else old

is_better_iff : (cred old : Cred) → (is_better cred old ≡ true) ↔ IsBetter cred old
unfolding is_better
is_better_iff cred old = (λ h. ground arith, λ h. ground arith)

chosen-IsKept : (cred : Cred) (o : Option Cred) → IsKept cred o (chosen cred o)
chosen-IsKept cred none = refl
chosen-IsKept cred (some old) = elim (Bool-cases (is_better cred old)) [
  | inl better ↦ rw better (inl ((is_better_iff cred old).0 better, refl))
  | inr worse ↦
      rw worse
        (inr ((λ better. true-false (sym ((is_better_iff cred old).1 better) ∙ worse)), refl))
]

-- A repository with the better credential for its user, and the rest as in `cr`.
pub record HoldsBest (cred : Cred) (cr new : Repo) : Type 0 where
  pub kept : Cred
  pub is_kept : IsKept cred (cred_of cred.info.uid cr) kept
  pub holds : Holds cred.info.uid (some kept) cr new

abbrev pub Puts : Cred → Repo → Res Repo (Unit {0}) → Type 0
Puts cred cr (ok _ new) = HoldsBest cred cr new
Puts cred cr (err e new) = HoldsBest cred cr new
Puts cred cr fault = ⊥

-- The repository has this credential for its user, whether the call could write the file or not.
abbrev Stores : ℕ → Cred → Repo → Res Repo (Unit {0}) → Type 0
Stores uid cred cr (ok _ new) = Holds uid (some cred) cr new
Stores uid cred cr (err e new) = Holds uid (some cred) cr new
Stores uid cred cr fault = ⊥

Stores-Puts :
    (cred : Cred) (cr : Repo) (r : Res Repo (Unit {0}))
    → Stores cred.info.uid (chosen cred (cred_of cred.info.uid cr)) cr r
    → Puts cred cr r
Stores-Puts cred cr (ok _ new) h = record { kept = _; is_kept = chosen-IsKept cred _; holds = h }
Stores-Puts cred cr (err e new) h = record { kept = _; is_kept = chosen-IsKept cred _; holds = h }
Stores-Puts cred cr fault d = d

Holds-after :
    (uid : ℕ) (cred : Cred) (cr mid : Repo) (r : Res Repo (Unit {0}))
    → KeepsOthers uid cr mid
    → Stores uid cred mid r
    → Stores uid cred cr r
Holds-after uid cred cr mid (ok _ new) k h = record {
  sound = h.sound;
  here = h.here;
  others = λ q hq d. h.others q hq d ∙ k q hq d;
}
Holds-after uid cred cr mid (err e new) k h = record {
  sound = h.sound;
  here = h.here;
  others = λ q hq d. h.others q hq d ∙ k q hq d;
}
Holds-after uid cred cr mid fault k d = d

module _ ⦃mem : Allocator⦄ (host : Host) (locks : host.can_lock ≡ true)
    (node : host.has_node ≡ true) (memory : HasMemory) where
  add_stage-Stores :
      (cred : Cred) (cr : Repo)
      → cred.info.uid < 2 ^ 32
      → IsSound cr
      → Stores cred.info.uid cred cr (add_stage host cred cr)
  unfolding add_stage add_by stored written add_item
  add_stage-Stores cred cr small s =
      let uid = cred.info.uid in
      rw (uid_str_lem uid, locks)
        (go _ (
          add_item_nolock-Adds cred_size host.has_node (omega arith) memory (decimal uid) cred
            cr.library (decimal-IsKey uid) s.library))
    where
      holds :
          (new : Repo)
          → Has (decimal cred.info.uid) (some cred) cr.library new.library
          → Holds cred.info.uid (some cred) cr new
      holds new h =
          Has-Holds cred.info.uid (some cred) cr new small
            (λ c e. ap (λ c. c.info.uid) (sym (some_injective e))) s h

      outcome :
          (o : Option Error) (filename bytes : List ℕ) (lib : Library Cred)
          → Has (decimal cred.info.uid) (some cred) cr.library lib
          → Stores cred.info.uid cred cr (written o filename bytes (record cr { library = lib }))
      outcome none filename bytes lib h = holds _ h
      outcome (some e) filename bytes lib h = holds _ h

      file :
          (o : Option (List ℕ)) (lib : Library Cred)
          → Has (decimal cred.info.uid) (some cred) cr.library lib
          → Stores cred.info.uid cred cr (stored host o cred (record cr { library = lib }))
      file none lib h = holds _ h
      file (some filename) lib h = outcome _ filename _ lib h

      mode :
          (b : Bool) (lib : Library Cred)
          → Has (decimal cred.info.uid) (some cred) cr.library lib
          → Stores cred.info.uid cred cr (
              if b
              then ok tt (record cr { library = lib })
              else stored host
                  (auks_credfile cr.cachedir cred.info.uid)
                  cred
                  (record cr { library = lib }))
      mode true lib h = holds _ h
      mode false lib h = file (auks_credfile cr.cachedir cred.info.uid) lib h

      go :
          (r : Res (Library Cred) (Unit {0}))
          → Adds host.has_node (decimal cred.info.uid) cred cr.library r
          → Stores cred.info.uid cred cr (
              and_then (with_library library_add cr r) λ _ cr.
                if cr.read_only
                then ok tt cr
                else stored host (auks_credfile cr.cachedir cred.info.uid) cred cr)
      go (ok _ lib) h = mode cr.read_only lib h
      go (err x lib) (_, full, _) = absurd (true-false (sym node ∙ full))
      go fault d = d

  replaced :
      (cred : Cred) (cr : Repo) (r : Res Repo (Unit {0}))
      → cred.info.uid < 2 ^ 32
      → IsSound cr
      → Discards cred.info.uid cr r
      → Stores cred.info.uid cred cr (always r (add_stage host cred))
  replaced cred cr (ok _ new) small s (_, _, h) =
      Holds-after _ cred cr new _ h.others (add_stage-Stores cred new small h.sound)
  replaced cred cr (err e new) small s (inl (_, _, same)) =
      rw same (add_stage-Stores cred cr small s)
  replaced cred cr (err e new) small s (inr (inl (_, _, u))) =
      Holds-after _ cred cr new _ (λ q hq d. u.same q) (add_stage-Stores cred new small u.sound)
  replaced cred cr (err e new) small s (inr (inr (_, _, h))) =
      Holds-after _ cred cr new _ h.others (add_stage-Stores cred new small h.sound)
  replaced cred cr fault small s d = absurd d

  add_nolock-Stores :
      (cred : Cred) (cr : Repo)
      → cred.info.uid < 2 ^ 32
      → IsSound cr
      → Stores cred.info.uid (chosen cred (cred_of cred.info.uid cr)) cr (add_nolock host cred cr)
  unfolding add_nolock add_to
  add_nolock-Stores cred cr small s = go _ (get_nolock-Finds host locks memory cred.info.uid cr s)
    where
      go :
          (r : Res Repo Cred)
          → Finds cred.info.uid cr r
          → Stores cred.info.uid (chosen cred (cred_of cred.info.uid cr)) cr (add_to host cred r)
      go (ok old new) (there, u) = rw there (elim (Bool-cases (is_better cred old)) [
        | inl better ↦ rw better (
            Holds-after _ cred cr new _ (λ q hq d. u.same q)
              (replaced cred new _ small u.sound
                (remove_nolock-Discards host locks memory cred.info.uid new small u.sound)))
        | inr worse ↦ rw worse (record {
          sound = u.sound;
          here = u.same cred.info.uid ∙ there;
          others = λ q hq d. u.same q;
        })
      ])
      go (err e new) (_, absent, u) = rw absent (
          Holds-after _ cred cr new _ (λ q hq d. u.same q)
            (add_stage-Stores cred new small u.sound))
      go fault d = d

  -- An addition to the repository leaves the user with the new credential, if there was none or it
  -- can be renewed for longer than the old one, or for as long and does not end earlier, and else
  -- with the old one, and every other user with their own; also where the call reports that the
  -- file could not be written. The uid has 32 bits, the repository is in order, the mutex is
  -- taken, memory suffices and tsearch has a node.
  pub add_nolock-Puts :
      (cred : Cred) (cr : Repo)
      → cred.info.uid < 2 ^ 32
      → IsSound cr
      → Puts cred cr (add_nolock host cred cr)
  add_nolock-Puts cred cr small s = Stores-Puts cred cr _ (add_nolock-Stores cred cr small s)

  pub add-Puts :
      (cred : Cred) (cr : Repo)
      → cred.info.uid < 2 ^ 32
      → IsSound cr
      → Puts cred cr (add host cred cr)
  unfolding add
  add-Puts cred cr small s =
      locked (Puts cred cr) host.can_lock _ _ locks (add_nolock-Puts cred cr small s)
