-- ===== src/Daemon.antt =====
-- src/auksd/auksd_req.c: the requests that the daemon answers.
pub mod Rights
pub mod Answers
pub mod Serve
use auks.Base.{ℕ, Bool, Option, none, some, List, ◌==◌, if◌then◌else◌}
use auks.Base.Words.{to_int, lt_int}
use auks.Base.Text.{strncmp_eq}
use auks.Base.Results.{
  Res, ok, err, fault, Act, Error, and_then, opt_then, daemon_request_unpack_uid,
  daemon_corrupted_request, daemon_processing_request, daemon_principals_mismatch,
  daemon_not_authorized, daemon_addressful_cred, daemon_request_done, daemon_unknown_request,
}
use auks.Base.Memory.{Allocator, read_at}
use auks.Buffer
use auks.Buffer.{Buffer}
use auks.Message
use auks.Message.{Message}
use auks.Cred
use auks.Cred.{Cred, principal_max_length}
use auks.Cred.Init
use auks.Cred.Init.{Krb}
use auks.Acl.{Role, admin, user, guest, unknown}
use auks.Repo
use auks.Repo.{Repo, Host}
use auks.Repo.Walk

-- A call that makes a message, in a repository that it leaves alone.
abbrev pub in_repo : {A B : Type 0} → Repo → Res A B → Res Repo A
in_repo cr (ok _ a) = ok a cr
in_repo cr (err e a) = err e cr
in_repo cr fault = fault

abbrev check : Option Error → Act Repo (Unit {0})
check none cr = ok tt cr
check (some e) cr = err e cr

pub same_principal : Cred → List ℕ → Bool
same_principal cred principal = strncmp_eq principal_max_length cred.info.principal principal

-- `_auksd_check_rw_right`
pub check_rw_right : List ℕ → Role → Cred → Option Error
check_rw_right principal admin cred = none
check_rw_right principal user cred =
    if same_principal cred principal then none else some daemon_principals_mismatch
check_rw_right principal guest cred = some daemon_not_authorized
check_rw_right principal unknown cred = some daemon_not_authorized

-- The checks of `_auksd_add_req` on the credential, in their order.
add_owner : List ℕ → Role → Cred → Option Error
add_owner principal admin cred = none
add_owner principal _ cred =
    if same_principal cred principal then none else some daemon_principals_mismatch

pub check_add_right : List ℕ → Role → Cred → Option Error
unfolding add_owner
check_add_right principal role cred =
    if cred.info.addressless == 0
    then some daemon_addressful_cred
    else add_owner principal role cred

-- The switch of `_auksd_dump_req`.
check_dump_right : Role → Option Error
check_dump_right admin = none
check_dump_right _ = some daemon_not_authorized

-- What a handler gets: the principal and the role of the client, and the request.
module _ ⦃mem : Allocator⦄ (host : Host) (krb : Krb) (stack : Cred) (principal : List ℕ)
    (role : Role) where
  reply : ℕ → Act Repo Message
  reply type cr = in_repo cr (Message.init type none 0)

  -- `_auksd_ping_req`, and `_auksd_list_req`, which does the same.
  ping_req : Act Repo Message
  unfolding reply
  ping_req cr = reply Message.ping_reply cr

  list_req : Act Repo Message
  unfolding reply
  list_req cr = reply Message.ping_reply cr

  pub add_cred : Res Cred (Unit {0}) → Act Repo Message
  unfolding reply
  add_cred (ok _ cred) cr =
      and_then (check (check_add_right principal role cred) cr)
        λ _ cr. and_then (Repo.add host cred cr) λ _. reply Message.add_reply
  add_cred (err e cred) cr = err e cr
  add_cred fault cr = fault

  -- The length of the credential is there; only its low 32 bits are ever used.
  add_sized : Res Buffer ℕ → Act Repo Message
  unfolding add_cred
  add_sized (ok length buf) cr =
      if lt_int (to_int (Message.unpacked (record { type = Message.add_request; buffer = buf })))
        length
      then err daemon_corrupted_request cr
      else add_cred
          (Init.init krb (some (opt_then buf.bytes (λ bytes. read_at bytes buf.processed length)))
            length stack)
          cr
  add_sized (err e buf) cr = err daemon_corrupted_request cr
  add_sized fault cr = fault

  -- `_auksd_add_req`; `stack` is what the local variable `cred` holds at first.
  pub add_req : Message → Act Repo Message
  unfolding add_sized
  add_req req cr = add_sized (Buffer.unpack_int req.buffer) cr

  -- The reply with the credential, which is freed if it cannot be packed.
  get_reply : Cred → Act Repo Message
  get_reply cred cr =
      in_repo cr (and_then (Message.init Message.get_reply none 0) λ _. Cred.pack cred)

  get_uid : Res Buffer ℕ → Act Repo Message
  unfolding get_reply
  get_uid (ok uid buf) cr =
      and_then (Repo.get host uid cr)
        λ cred cr. and_then (check (check_rw_right principal role cred) cr) λ _. get_reply cred
  get_uid (err e buf) cr = err daemon_request_unpack_uid cr
  get_uid fault cr = fault

  -- `_auksd_get_req`
  pub get_req : Message → Act Repo Message
  unfolding get_uid
  get_req req cr = get_uid (Buffer.unpack_uid req.buffer) cr

  removed : Res Repo (Unit {0}) → Res Repo Message
  unfolding reply
  removed (ok _ cr) = reply Message.remove_reply cr
  removed (err e cr) = err daemon_processing_request cr
  removed fault = fault

  remove_uid : Res Buffer ℕ → Act Repo Message
  unfolding removed
  remove_uid (ok uid buf) cr = and_then (Repo.get host uid cr) λ cred cr.
      and_then (check (check_rw_right principal role cred) cr)
        λ _ cr. removed (Repo.remove host uid cr)
  remove_uid (err e buf) cr = err daemon_request_unpack_uid cr
  remove_uid fault cr = fault

  -- `_auksd_remove_req`
  pub remove_req : Message → Act Repo Message
  unfolding remove_uid
  remove_req req cr = remove_uid (Buffer.unpack_uid req.buffer) cr

  dumped : Res Walk.Dump (Unit {0}) → Res Repo Message
  dumped (ok _ d) = ok d.message d.repo
  dumped (err e d) = err e d.repo
  dumped fault = fault

  dump_all : Repo → Res Message (Unit {0}) → Res Repo Message
  unfolding dumped
  dump_all cr (ok _ msg) = dumped (Walk.pack host (record { repo = cr; message = msg }))
  dump_all cr (err e msg) = err e cr
  dump_all cr fault = fault

  -- `_auksd_dump_req`
  pub dump_req : Act Repo Message
  unfolding check_dump_right dump_all
  dump_req cr =
      and_then (check (check_dump_right role) cr)
        λ _ cr. dump_all cr (Message.init Message.dump_reply none 0)

  -- The switch of `_auksd_process_msg`; a request to close is no error, but ends the connection.
  pub handle : Message → Act Repo Message
  unfolding ping_req list_req add_req get_req remove_req dump_req
  handle req cr =
      if req.type == Message.ping_request
      then ping_req cr
      else if req.type == Message.list_request
      then list_req cr
      else if req.type == Message.add_request
      then add_req req cr
      else if req.type == Message.get_request
      then get_req req cr
      else if req.type == Message.remove_request
      then remove_req req cr
      else if req.type == Message.dump_request
      then dump_req cr
      else if req.type == Message.close_request
      then err daemon_request_done cr
      else err daemon_unknown_request cr
