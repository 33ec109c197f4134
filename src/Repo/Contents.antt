-- ===== src/Repo/Contents.antt =====
-- auks_cred_repo.c: which credential a repository holds for each user, after every call.
use auks.Base.{
  ℕ, ◌<◌, ◌^◌, ◌≡◌, ◌≢◌, refl, sym, ap, ◌∙◌, Bool, true, false, Option, none, some, List, arith,
  Bool-cases, true-false, inl, inr, nat_cases, if◌then◌else◌, ◌⊎◌, ◌&&◌,
}
use auks.Base.Decimal.{decimal}
use auks.Base.Results.{
  Res, ok, err, fault, and_then, library_uid_not_found, cred_repo_ccache_build, cred_repo_unlink,
  cred_repo_readonly,
}
use auks.Base.Memory.{Allocator}
use auks.Cred.{Cred}
use auks.Library.{Library, get_item, remove_item}
use auks.Freelist.Size.{HasMemory}
use auks.Library.Stock
use auks.Library.View.{
  view, Has, Same, Gets, Removes, Same-view, get_item_nolock-Gets, remove_item_nolock-Removes,
}
use auks.Repo.{
  Repo, Host, cred_size, with_library, uid_str, auks_credfile, has_file, unlinked, get_by,
  get_nolock, remove_by, remove_nolock, get, remove,
}
use auks.Repo.Uids.{uid_str_lem, decimal-IsKey, decimal_other}

-- The credential of a user.
unfoldable pub cred_of : ℕ → Repo → Option Cred
cred_of uid cr = view (decimal uid) cr.library

-- A repository in order: the credential of a user has its uid.
pub record IsSound (cr : Repo) : Type 0 where
  pub library : Stock.IsSound cr.library
  pub own :
      (uid : ℕ) (cred : Cred) → uid < 2 ^ 32 → cred_of uid cr ≡ some cred → cred.info.uid ≡ uid

-- Only the credential of that user may differ.
abbrev pub KeepsOthers : ℕ → Repo → Repo → Type 0
KeepsOthers uid cr new = (q : ℕ) → q < 2 ^ 32 → uid ≢ q → cred_of q new ≡ cred_of q cr

-- A repository in order with that credential, or none, of the user, and the rest as in `cr`.
pub record Holds (uid : ℕ) (o : Option Cred) (cr new : Repo) : Type 0 where
  pub sound : IsSound new
  pub here : cred_of uid new ≡ o
  pub others : KeepsOthers uid cr new

-- A repository in order with the credentials of `cr`.
pub record Unchanged (cr new : Repo) : Type 0 where
  pub sound : IsSound new
  pub same : (uid : ℕ) → cred_of uid new ≡ cred_of uid cr
  pub rest : new ≡ record cr { library = new.library }

-- The credential of the user is a good one.
abbrev pub IsOwn : ℕ → Option Cred → Type 0
IsOwn uid o = (cred : Cred) → o ≡ some cred → cred.info.uid ≡ uid

pub Has-Holds :
    (uid : ℕ) (o : Option Cred) (cr new : Repo)
    → uid < 2 ^ 32
    → IsOwn uid o
    → IsSound cr
    → Has (decimal uid) o cr.library new.library
    → Holds uid o cr new
unfolding cred_of
Has-Holds uid o cr new small own s h =
    let others : KeepsOthers uid cr new =
      λ q hq d. h.others (decimal q) (decimal-IsKey q) (decimal_other uid q small hq d) in
    record {
      sound = record {
        library = h.sound;
        own = λ q c hq e. elim (nat_cases uid q) [
          | inl same ↦ own c (sym h.here ∙ ap (λ q. cred_of q new) same ∙ e) ∙ same
          | inr other ↦ s.own q c hq (sym (others q hq other) ∙ e)
        ];
      };
      here = h.here;
      others = others;
    }

Same-Unchanged :
    (cr : Repo) (lib : Library Cred)
    → IsSound cr
    → Same cr.library lib
    → Unchanged cr (record cr { library = lib })
unfolding cred_of
Same-Unchanged cr lib s h =
    let new : Repo = record cr { library = lib } in
    let same : (uid : ℕ) → cred_of uid new ≡ cred_of uid cr =
      λ uid. Same-view (decimal uid) cr.library lib h in
    record {
      sound = record { library = h.sound; own = λ q c hq e. s.own q c hq (sym (same q) ∙ e) };
      same = same;
      rest = refl;
    }

-- What `get` comes to: the credential of the user, or an error where there is none.
abbrev pub Finds : ℕ → Repo → Res Repo Cred → Type 0
Finds uid cr (ok cred new) = (cred_of uid cr ≡ some cred) × Unchanged cr new
Finds uid cr (err e new) = (e ≡ library_uid_not_found) × (cred_of uid cr ≡ none) × Unchanged cr new
Finds uid cr fault = ⊥

-- What `remove` comes to: the credential is gone, even where its file cannot be removed; a
-- repository that is only read, or that has none, stays as it is.
abbrev pub Discards : ℕ → Repo → Res Repo (Unit {0}) → Type 0
Discards uid cr (ok _ new) =
    (cred_of uid cr ≢ none) × (cr.read_only ≡ false) × Holds uid none cr new
Discards uid cr (err e new) =
    ((e ≡ cred_repo_readonly) × (cr.read_only ≡ true) × (new ≡ cr))
    ⊎ ((e ≡ library_uid_not_found) × (cred_of uid cr ≡ none) × Unchanged cr new)
    ⊎ ((e ≢ library_uid_not_found) × (cred_of uid cr ≢ none) × Holds uid none cr new)
Discards uid cr fault = ⊥

build_error : cred_repo_ccache_build ≡ library_uid_not_found → ⊥
build_error e = cc

unlink_error : cred_repo_unlink ≡ library_uid_not_found → ⊥
unlink_error e = cc

-- A locked call, where the mutex can be taken.
pub locked :
    {A : Type 0} (P : Res Repo A → Type 0) (b : Bool) (r s : Res Repo A)
    → b ≡ true
    → P r
    → P (if b then r else s)
locked P true r s e h = h
locked P false r s e h = absurd (true-false (sym e))

module _ ⦃mem : Allocator⦄ (host : Host) (locks : host.can_lock ≡ true) (memory : HasMemory) where
  -- A look-up answers with the credential of that user, or with an error where there is none, and
  -- changes no credential. The repository is in order, the mutex is taken and memory suffices.
  pub get_nolock-Finds : (uid : ℕ) (cr : Repo) → IsSound cr → Finds uid cr (get_nolock host uid cr)
  unfolding get_nolock get_by cred_of get_item
  get_nolock-Finds uid cr s =
      rw (uid_str_lem uid, locks)
        (go _ (
          get_item_nolock-Gets cred_size host.has_node (omega arith) memory (decimal uid) cr.library
            s.library))
    where
      go :
          (r : Res (Library Cred) Cred)
          → Gets (decimal uid) cr.library r
          → Finds uid cr (with_library library_uid_not_found cr r)
      go (ok cred lib) (e, same) = (e, Same-Unchanged cr lib s same)
      go (err x lib) (_, e, same) = (refl, e, Same-Unchanged cr lib s same)
      go fault d = d

  -- A removal takes the credential of that user away, even where its file cannot be removed, and
  -- nothing else; a repository that is only read or that has none for the user keeps its
  -- credentials. The uid has 32 bits, the repository is in order, the mutex is taken and memory
  -- suffices.
  pub remove_nolock-Discards :
      (uid : ℕ) (cr : Repo)
      → uid < 2 ^ 32
      → IsSound cr
      → Discards uid cr (remove_nolock host uid cr)
  unfolding remove_nolock remove_by cred_of remove_item unlinked
  remove_nolock-Discards uid cr small s = mode cr.read_only refl
    where
      file :
          (o : Option (List ℕ)) (lib : Library Cred)
          → cr.read_only ≡ false
          → cred_of uid cr ≢ none
          → Has (decimal uid) none cr.library lib
          → Discards uid cr (unlinked host o (record cr { library = lib }))
      file none lib free there h = inr (
          inr ((λ e. absurd (build_error e)), there, Has-Holds uid none cr _ small (λ c e. cc) s h))
      file (some filename) lib free there h =
          elim (Bool-cases (has_file filename cr.files && host.can_unlink filename)) [
            | inl gone ↦ rw gone (there, free, Has-Holds uid none cr _ small (λ c e. cc) s h)
            | inr kept ↦ rw kept (
                inr (
                  inr (
                    (λ e. absurd (unlink_error e)),
                    there,
                    Has-Holds uid none cr _ small (λ c e. cc) s h,
                  )))
          ]

      go :
          cr.read_only ≡ false
          → (r : Res (Library Cred) (Unit {0})) → Removes (decimal uid) cr.library r
          → Discards uid cr (
              and_then
                (with_library library_uid_not_found cr r)
                λ _ cr. unlinked host (auks_credfile cr.cachedir uid) cr)
      go free (ok _ lib) (there, h) = file (auks_credfile cr.cachedir uid) lib free there h
      go free (err x lib) (_, e, same) = inr (inl (refl, e, Same-Unchanged cr lib s same))
      go free fault d = d

      mode :
          (b : Bool)
          → cr.read_only ≡ b
          → Discards uid cr
              (if b then err cred_repo_readonly cr else remove_by host (uid_str uid) uid cr)
      mode true only = inl (refl, only, refl)
      mode false free =
          rw (uid_str_lem uid, locks)
            (go free _ (
              remove_item_nolock-Removes cred_size host.has_node (omega arith) memory (decimal uid)
                cr.library (decimal-IsKey uid) s.library))

  pub get-Finds : (uid : ℕ) (cr : Repo) → IsSound cr → Finds uid cr (get host uid cr)
  unfolding get
  get-Finds uid cr s = locked (Finds uid cr) host.can_lock _ _ locks (get_nolock-Finds uid cr s)

  pub remove-Discards :
      (uid : ℕ) (cr : Repo) → uid < 2 ^ 32 → IsSound cr → Discards uid cr (remove host uid cr)
  unfolding remove
  remove-Discards uid cr small s =
      locked (Discards uid cr) host.can_lock _ _ locks (remove_nolock-Discards uid cr small s)
