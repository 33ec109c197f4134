-- ===== src/Repo.antt =====
-- src/api/auks/auks_cred_repo.c: the credentials of the users, one under each uid, with a file for
-- each of them in the cache directory.
pub mod Uids
pub mod Contents
pub mod Replace
pub mod Walk
use auks.Base.{
  ℕ, ◌+◌, ◌<◌, Bool, true, false, ◌&&◌, ◌||◌, Option, none, some, List, [], ◌∷◌, ◌++◌, length, ltb,
  leb, ◌==◌, if◌then◌else◌, not,
}
use auks.Base.Lists.{take}
use auks.Base.Words.{lt_time}
use auks.Base.Text.{codes}
use auks.Base.Decimal.{decimal, decimal_int}
use auks.Base.Results.{
  Res, ok, err, fault, Act, Error, and_then, always, library_uid_not_found, library_add,
  library_uid_to_str, cred_repo_ccache_build, cred_repo_unlink, cred_repo_readonly,
  cred_repo_mutex_lock,
}
use auks.Base.Memory.{Allocator}
use auks.Cred.{Cred}
use auks.Library
use auks.Library.{Library}

abbrev pub uid_str_length : ℕ
uid_str_length = 32

abbrev pub file_max_length : ℕ
file_max_length = 128

-- `sizeof (auks_cred_t)`
abbrev pub cred_size : ℕ
cred_size = 32960

-- A file of the cache directory, with the credential data in it.
pub record File : Type 0 where
  pub path : List ℕ
  pub bytes : List ℕ

-- `auks_cred_repo_t` and the files of the directory. `read_only` is 1 while the cache is loaded.
pub record Repo : Type 0 where
  pub library : Library Cred
  pub cachedir : List ℕ
  pub read_only : Bool
  pub files : List File

-- What the calls of other libraries do: `tsearch` has a node, the mutex can be locked and unlocked,
-- what `auks_krb5_cred_store` returns for a file, and whether `unlink` is allowed.
pub record Host : Type 0 where
  pub has_node : Bool
  pub can_lock : Bool
  pub can_unlock : Bool
  pub store : List ℕ → List ℕ → Option Error
  pub can_unlink : List ℕ → Bool

-- The file under a name, once it is gone and once it is written.
same_path : List ℕ → List ℕ → Bool
same_path [] [] = true
same_path [] (y ∷ ys) = false
same_path (x ∷ xs) [] = false
same_path (x ∷ xs) (y ∷ ys) = (x == y) && same_path xs ys

pub has_file : List ℕ → List File → Bool
unfolding same_path
has_file path [] = false
has_file path (f ∷ fs) = same_path path f.path || has_file path fs

pub without_file : List ℕ → List File → List File
unfolding same_path
without_file path [] = []
without_file path (f ∷ fs) =
    if same_path path f.path then without_file path fs else f ∷ without_file path fs

-- `auks_cred_repo_auks_credfile`: "%s/aukscc_%d", where it fits.
pub auks_credfile : List ℕ → ℕ → Option (List ℕ)
auks_credfile cachedir uid =
    let filename = cachedir ++ codes "/aukscc_" ++ decimal_int uid in
    if leb file_max_length (length filename) then none else some filename

-- The reference of a uid, "%u", where it fits.
pub uid_str : ℕ → Option (List ℕ)
uid_str uid = let text = decimal uid in if leb uid_str_length (length text) then none else some text

-- The condition of `auks_cred_repo_add_nolock` to replace `old` by `cred`.
pub is_better : Cred → Cred → Bool
is_better cred old =
    lt_time old.info.renew_till cred.info.renew_till
    || (not (lt_time cred.info.endtime old.info.endtime)
        && (cred.info.renew_till == old.info.renew_till))

-- A call on `cr->library` whose failures are all reported as `e`.
abbrev pub with_library : {A : Type 0} → Error → Repo → Res (Library Cred) A → Res Repo A
with_library e cr (ok a lib) = ok a (record cr { library = lib })
with_library e cr (err _ lib) = err e (record cr { library = lib })
with_library e cr fault = fault

-- The end of a removal: the file goes.
unlinked : Host → Option (List ℕ) → Act Repo (Unit {0})
unlinked host none cr = err cred_repo_ccache_build cr
unlinked host (some filename) cr =
    if has_file filename cr.files && host.can_unlink filename
    then ok tt (record cr { files = without_file filename cr.files })
    else err cred_repo_unlink cr

-- The end of an addition: the file is written, and replaced.
written : Option Error → List ℕ → List ℕ → Act Repo (Unit {0})
written none filename bytes cr = ok tt (record cr {
  files = record { path = filename; bytes = bytes } ∷ without_file filename cr.files;
})
written (some e) filename bytes cr = err e cr

stored : Host → Option (List ℕ) → Cred → Act Repo (Unit {0})
unfolding written
stored host none cred cr = err cred_repo_ccache_build cr
stored host (some filename) cred cr =
    let bytes = take cred.length cred.contents in
    written (host.store filename bytes) filename bytes cr

module _ ⦃mem : Allocator⦄ (host : Host) where
  get_by : Option (List ℕ) → Act Repo Cred
  get_by none cr = err library_uid_to_str cr
  get_by (some reference) cr =
      with_library library_uid_not_found cr
        (Library.get_item cred_size host.has_node host.can_lock reference cr.library)

  -- `auks_cred_repo_get_nolock`
  pub get_nolock : ℕ → Act Repo Cred
  unfolding get_by
  get_nolock uid cr = get_by (uid_str uid) cr

  remove_by : Option (List ℕ) → ℕ → Act Repo (Unit {0})
  unfolding unlinked
  remove_by none uid cr = err library_uid_to_str cr
  remove_by (some reference) uid cr =
      and_then
        (with_library library_uid_not_found cr
          (Library.remove_item cred_size host.has_node host.can_lock reference cr.library))
        λ _ cr. unlinked host (auks_credfile cr.cachedir uid) cr

  -- `auks_cred_repo_remove_nolock`
  pub remove_nolock : ℕ → Act Repo (Unit {0})
  unfolding remove_by
  remove_nolock uid cr =
      if cr.read_only then err cred_repo_readonly cr else remove_by (uid_str uid) uid cr

  -- The label `add_stage` of `auks_cred_repo_add_nolock`.
  add_by : Option (List ℕ) → Cred → Act Repo (Unit {0})
  unfolding stored
  add_by none cred cr = err library_uid_to_str cr
  add_by (some reference) cred cr =
      and_then
        (with_library library_add cr
          (Library.add_item cred_size host.has_node host.can_lock reference cred cr.library))
        λ _ cr.
          if cr.read_only
          then ok tt cr
          else stored host (auks_credfile cr.cachedir cred.info.uid) cred cr

  add_stage : Cred → Act Repo (Unit {0})
  unfolding add_by
  add_stage cred cr = add_by (uid_str cred.info.uid) cred cr

  -- What follows the search for a credential that is there already. A removal that fails is passed
  -- over.
  add_to : Cred → Res Repo Cred → Res Repo (Unit {0})
  unfolding add_stage
  add_to cred (ok old cr) =
      if is_better cred old
      then always (remove_nolock cred.info.uid cr) (add_stage cred)
      else ok tt cr
  add_to cred (err e cr) = add_stage cred cr
  add_to cred fault = fault

  -- `auks_cred_repo_add_nolock`
  pub add_nolock : Cred → Act Repo (Unit {0})
  unfolding add_to
  add_nolock cred cr = add_to cred (get_nolock cred.info.uid cr)

  -- `auks_cred_repo_add`, `auks_cred_repo_get` and `auks_cred_repo_remove`
  unfoldable pub add : Cred → Act Repo (Unit {0})
  add cred cr = if host.can_lock then add_nolock cred cr else err cred_repo_mutex_lock cr

  unfoldable pub get : ℕ → Act Repo Cred
  get uid cr = if host.can_lock then get_nolock uid cr else err cred_repo_mutex_lock cr

  unfoldable pub remove : ℕ → Act Repo (Unit {0})
  remove uid cr = if host.can_lock then remove_nolock uid cr else err cred_repo_mutex_lock cr
