-- ===== src/Api/Calls.antt =====
-- The calls of auks_api.c that make one request each.
pub mod Dumps
pub mod Dialogue
pub mod Replies
use auks.Base.{
  ℕ, zero, suc, ◌*◌, ◌%◌, ◌^◌, Option, none, some, List, [], ◌∷◌, ltb, ◌==◌, if◌then◌else◌,
}
use auks.Base.Words.{to_size}
use auks.Base.Results.{
  Res, ok, err, fault, Act, Error, and_then, always, on_failure, api_request_init,
  api_request_processing, api_request_pack_uid, api_reply_processing, api_invalid_reply,
  api_corrupted_reply,
}
use auks.Base.Memory.{Allocator, has_memory}
use auks.Message
use auks.Message.{Message}
use auks.Cred
use auks.Cred.{Cred}
use auks.Cred.Init.{Krb}
use auks.Cred.Update
use auks.Cred.Update.{Kdc, data_of}
use auks.Repo.{cred_size}
use auks.Api.{Engine, Network, Trace, request}

-- Any failure of a call is reported as this one.
abbrev pub or_error : {A : Type 0} → Error → Res Trace A → Res Trace A
or_error e (ok a t) = ok a t
or_error e (err x t) = err e t
or_error e fault = fault

-- The next step on a message or a credential that a call has changed; its failure is reported so.
abbrev pub with_local : {S A B : Type 0} → Error → Res S A → (A → S → Act Trace B) → Act Trace B
with_local e (ok a s) next t = next a s t
with_local e (err x s) next t = err e t
with_local e fault next t = fault

-- The switch on the type of the reply.
pub expect : ℕ → Message → Act Trace (Unit {0})
expect type rep t = if rep.type == type then ok tt t else err api_invalid_reply t

module _ ⦃mem : Allocator⦄ (net : Network) (engine : Engine) where
  -- `auks_api_ping`
  pub ping : Act Trace (Unit {0})
  ping = with_local api_request_init (Message.init Message.ping_request none 0) λ _ req t.
      and_then (or_error api_request_processing (request net engine req t))
        (expect Message.ping_reply)

  -- The credential in a reply.
  got : Message → Act Trace Cred
  got rep t =
      and_then (expect Message.get_reply rep t)
        λ _. with_local api_corrupted_reply (Cred.unpack rep) (λ cred _. ok cred)

  pub get_packed : Message → Act Trace Cred
  unfolding got
  get_packed req t = and_then (or_error api_request_processing (request net engine req t)) got

  -- `auks_api_get_auks_cred`
  pub get_auks_cred : ℕ → Act Trace Cred
  unfolding get_packed
  get_auks_cred uid =
      with_local api_request_init (Message.init Message.get_request none 0)
        λ _ req. with_local api_request_pack_uid (Message.pack_uid uid req) λ _. get_packed

  pub remove_packed : Message → Act Trace (Unit {0})
  remove_packed req t =
      and_then (or_error api_request_processing (request net engine req t))
        (expect Message.remove_reply)

  -- `auks_api_remove_cred`
  pub remove_cred : ℕ → Act Trace (Unit {0})
  unfolding remove_packed
  remove_cred uid =
      with_local api_request_init (Message.init Message.remove_request none 0)
        λ _ req. with_local api_request_pack_uid (Message.pack_uid uid req) λ _. remove_packed

  -- The loop of `auks_api_dump_unpack`.
  pub unpack_creds : ℕ → Act Message (List Cred)
  unpack_creds zero msg = ok [] msg
  unpack_creds (suc left) msg =
      and_then (Cred.unpack msg)
        λ cred msg. and_then (unpack_creds left msg) λ creds. ok (cred ∷ creds)

  -- The number is an `int`. Where it is negative there is no memory, and the loop makes no round.
  unpack_counted : ℕ → Act Message (Option (List Cred))
  unfolding unpack_creds
  unpack_counted creds_nb msg =
      if has_memory (to_size creds_nb * cred_size % 2 ^ 64)
      then and_then (unpack_creds (if ltb creds_nb (2 ^ 31) then creds_nb else 0) msg)
          (λ creds. ok (some creds))
      else ok none msg

  -- `auks_api_dump_unpack`. Where there is no memory it returns AUKS_SUCCESS and writes to none of
  -- its output parameters: `none`.
  pub dump_unpack : Act Message (Option (List Cred))
  unfolding unpack_counted
  dump_unpack msg = and_then (Message.unpack_int msg) unpack_counted

  dumped : Res Message (Option (List Cred)) → Act Trace (Option (List Cred))
  dumped (ok creds rep) t = ok creds t
  dumped (err e rep) t = err e t
  dumped fault t = fault

  -- `auks_api_dump`
  pub dump : Act Trace (Option (List Cred))
  unfolding dumped
  dump = with_local api_request_init (Message.init Message.dump_request none 0) λ _ req t.
      and_then (or_error api_request_processing (request net engine req t))
        λ rep t. and_then (expect Message.dump_reply rep t) λ _. dumped (dump_unpack rep)

  module _ (krb : Krb) (kdc : Kdc) where
    -- The end of `auks_api_add_auks_cred`: its data are sent, and the error of the request is kept.
    pub add_data : Cred → Act Trace (Unit {0})
    add_data cred t = and_then (data_of cred t) λ bytes.
        with_local api_request_init (Message.init Message.add_request (some bytes) cred.length)
          λ _ req t. and_then (request net engine req t) (expect Message.add_reply)

    -- Without its addresses a credential is of this realm or made so; a failure of that is only
    -- logged.
    in_realm : Act Cred (Unit {0})
    in_realm cred =
        if cred.info.crossrealm == 1
        then ok tt cred
        else if auks.Base.length engine.cross_realm == 0
        then ok tt cred
        else always (Update.cross_realm krb kdc engine.cross_realm cred) (ok tt)

    addressless : Act Cred (Unit {0})
    addressless cred =
        if cred.info.addressless == 1 then ok tt cred else Update.deladdr krb kdc cred

    prepared : Res Cred (Unit {0}) → Act Trace (Unit {0})
    unfolding add_data
    prepared (ok _ cred) t = add_data cred t
    prepared (err e cred) t = err e t
    prepared fault t = fault

    -- `auks_api_add_auks_cred`
    pub add_auks_cred : Cred → Act Trace (Unit {0})
    unfolding in_realm addressless prepared
    add_auks_cred cred t = prepared (and_then (addressless cred) λ _. in_realm) t

    extracted : Res Cred (Unit {0}) → Act Trace (Unit {0})
    unfolding add_auks_cred
    extracted (ok _ cred) t = add_auks_cred cred t
    extracted (err e cred) t = err e t
    extracted fault t = fault

    -- `auks_api_add_cred`; `stack` is what the local variable `cred` holds at first.
    pub add_cred : Cred → Option (List ℕ) → Act Trace (Unit {0})
    unfolding extracted
    add_cred stack ccache t = extracted (Update.extract krb kdc ccache stack) t

    stored : Option (List ℕ) → Cred → Act Trace (Unit {0})
    stored ccache cred t =
        and_then (Update.store krb kdc ccache cred t)
          λ status t. elim status [ none ↦ ok tt t | some e ↦ err api_reply_processing t ]

    -- `auks_api_get_cred`
    pub get_cred : ℕ → Option (List ℕ) → Act Trace (Unit {0})
    unfolding stored
    get_cred uid ccache t =
        and_then (or_error api_corrupted_reply (get_auks_cred uid t)) (stored ccache)
