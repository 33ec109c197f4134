-- ===== src/Repo/Walk.antt =====
-- The loops of auks_cred_repo.c over the index of the library: `auks_cred_repo_pack_nolock` and
-- `auks_cred_repo_clean_nolock`.
pub mod Packed
use auks.Base.{ℕ, ◌+◌, Bool, ◌&&◌, ◌||◌, Option, none, some, List, [], ◌∷◌, if◌then◌else◌}
use auks.Base.Words.{to_int, lt_time}
use auks.Base.Results.{
  Res, ok, err, fault, Act, Error, and_then, opt_then, cred_repo_update_index, cred_repo_pack,
  cred_repo_get_cred, cred_repo_mutex_lock,
}
use auks.Base.Memory.{Allocator}
use auks.Message
use auks.Message.{Message}
use auks.Cred
use auks.Cred.{Cred}
use auks.Library
use auks.Library.{Library}
use auks.Repo.{Repo, Host, cred_size, with_library, remove_nolock}

-- `AUKS_SUCCESS`, or an error that the next step may overwrite.
abbrev pub Status : Type 0
Status = Option Error

-- The end of a call, with the status as its result.
abbrev finished : {S A : Type 0} → Status → A → Act S A
finished none a s = ok a s
finished (some e) a s = err e s

abbrev indexed : Option (List (List ℕ)) → List (List ℕ)
indexed none = []
indexed (some references) = references

-- A message, and the repository that is packed into it.
pub record Dump : Type 0 where
  pub repo : Repo
  pub message : Message

module _ ⦃mem : Allocator⦄ (host : Host) where
  -- `auks_cred_repo_update_index_nolock`
  pub update_index_nolock : Act Repo (Unit {0})
  update_index_nolock cr =
      with_library cred_repo_update_index cr
        (Library.update_index cred_size host.has_node cr.library)

  -- The look-up of an indexed item, of which nothing is removed between the making of the index and
  -- this.
  get_indexed : List ℕ → Act Repo Cred
  get_indexed reference cr =
      with_library cred_repo_get_cred cr
        (Library.get_item_nolock cred_size host.has_node reference cr.library)

  packed : Repo → Res Message (Unit {0}) → Res Dump (Unit {0})
  packed cr (ok _ msg) = ok tt (record { repo = cr; message = msg })
  packed cr (err e msg) = err cred_repo_pack (record { repo = cr; message = msg })
  packed cr fault = fault

  pack_item : Message → Res Repo Cred → Res Dump (Unit {0})
  unfolding packed
  pack_item msg (ok cred cr) = packed cr (Cred.pack cred msg)
  pack_item msg (err e cr) = err e (record { repo = cr; message = msg })
  pack_item msg fault = fault

  -- The loop, which a failure ends; the status before it counts only where there is no item.
  pack_items : List (List ℕ) → Status → Act Dump (Unit {0})
  pack_items [] status d = finished status tt d
  pack_items (reference ∷ rest) status d =
      and_then (pack_item d.message (get_indexed reference d.repo)) λ _. pack_items rest none

  -- The number of items is packed first. If that fails, the loop begins all the same.
  pack_all : Repo → Res Message (Unit {0}) → Res Dump (Unit {0})
  unfolding pack_items
  pack_all cr (ok _ msg) =
      pack_items (indexed cr.library.index) none (record { repo = cr; message = msg })
  pack_all cr (err e msg) =
      pack_items (indexed cr.library.index) (some cred_repo_pack)
        (record { repo = cr; message = msg })
  pack_all cr fault = fault

  pack_index : Message → Res Repo (Unit {0}) → Res Dump (Unit {0})
  unfolding pack_all
  pack_index msg (ok _ cr) = pack_all cr (Message.pack_int (to_int cr.library.item_nb) msg)
  pack_index msg (err e cr) = err e (record { repo = cr; message = msg })
  pack_index msg fault = fault

  -- `auks_cred_repo_pack_nolock`
  pub pack_nolock : Act Dump (Unit {0})
  unfolding pack_index
  pack_nolock d = pack_index d.message (update_index_nolock d.repo)

  unlocked : {S A : Type 0} → Res S A → Res S A
  unlocked (ok a s) = if host.can_unlock then ok a s else err cred_repo_mutex_lock s
  unlocked (err e s) = err e s
  unlocked fault = fault

  -- `auks_cred_repo_pack`
  pub pack : Act Dump (Unit {0})
  unfolding unlocked
  pack d = if host.can_lock then unlocked (pack_nolock d) else err cred_repo_mutex_lock d

  -- Whether a credential is past one of its times, at the time `now`.
  pub is_expired : ℕ → Cred → Bool
  is_expired now cred =
      lt_time cred.info.endtime now
      || (lt_time 0 cred.info.renew_till && lt_time cred.info.renew_till now)

  -- The repository, the number of credentials that were removed, and the status.
  record Cleaning : Type 0 where
    repo : Repo
    nbc : ℕ
    status : Status

  cleaned : ℕ → Res Repo (Unit {0}) → Option Cleaning
  cleaned nbc (ok _ cr) = some (record { repo = cr; nbc = nbc + 1; status = none })
  cleaned nbc (err e cr) = some (record { repo = cr; nbc = nbc; status = some e })
  cleaned nbc fault = none

  -- One round: a credential that cannot be got is one of zeros.
  clean_cred : ℕ → Status → Cred → Repo → ℕ → Option Cleaning
  unfolding cleaned is_expired
  clean_cred now status cred cr nbc =
      if is_expired now cred
      then cleaned nbc (remove_nolock host cred.info.uid cr)
      else some (record { repo = cr; nbc = nbc; status = status })

  clean_item : ℕ → Res Repo Cred → ℕ → Option Cleaning
  unfolding clean_cred
  clean_item now (ok cred cr) nbc = clean_cred now none cred cr nbc
  clean_item now (err e cr) nbc = clean_cred now (some cred_repo_get_cred) Cred.zeroed cr nbc
  clean_item now fault nbc = none

  clean_items : ℕ → List (List ℕ) → Cleaning → Option Cleaning
  clean_items now [] c = some c
  clean_items now (reference ∷ rest) c =
      opt_then (clean_item now (get_indexed reference c.repo) c.nbc) (λ c. clean_items now rest c)

  clean_end : Option Cleaning → Res Repo ℕ
  clean_end none = fault
  clean_end (some c) = finished c.status c.nbc c.repo

  -- `auks_cred_repo_clean_nolock` at the time `now`, with the number of credentials removed. An
  -- expired credential is removed; a failure of one round is forgotten by the next.
  pub clean_nolock : ℕ → Act Repo ℕ
  unfolding clean_end clean_items clean_item
  clean_nolock now cr = and_then (update_index_nolock cr) λ _ cr.
      clean_end
        (clean_items now (indexed cr.library.index) (record { repo = cr; nbc = 0; status = none }))

  -- `auks_cred_repo_clean`
  pub clean : ℕ → Act Repo ℕ
  clean now cr =
      if host.can_lock then unlocked (clean_nolock now cr) else err cred_repo_mutex_lock cr
