-- ===== src/Daemon/Serve.antt =====
-- `_auksd_process_msg` and `auksd_process_req` of auksd_req.c: the messages of a connection.
pub mod Access
pub mod Gets
use auks.Base.{ℕ, Bool, true, false, Option, none, some, List, [], ◌∷◌, ◌==◌, if◌then◌else◌}
use auks.Base.Text.{codes}
use auks.Base.Results.{
  Res, ok, err, fault, Act, Error, and_then, or_fault, daemon_request_done, daemon_not_authorized,
  daemon_reply_init, daemon_reply_transmission, daemon_not_valid_server,
}
use auks.Base.Memory.{Allocator}
use auks.Message
use auks.Message.{Message}
use auks.Cred.{Cred}
use auks.Cred.Init.{Krb}
use auks.Acl
use auks.Acl.{Role, Acl, System, admin, user, guest, unknown}
use auks.Repo.{Repo, Host}
use auks.Daemon.{handle}

-- What a client does after it was authenticated: it sends a message, and takes the reply or not, or
-- the receiving of a message fails.
pub data Session : Type 0 where
  lost : Error → Session
  sends : List ℕ → Bool → Session → Session

-- A connection: what the calls auks_krb5_stream_* return for it, the principal of the client, and
-- what the client does.
pub record Connection : Type 0 where
  pub srv_init : Option Error
  pub authenticate : Option Error
  pub get_rprinc : Option Error
  pub principal : List ℕ
  pub session : Session

-- What comes of one message: the bytes that were sent, and the status.
pub record Done : Type 0 where
  pub sent : Option (List ℕ)
  pub status : Option Error

unfoldable pub is_done : Error → Bool
is_done daemon_request_done = true
is_done _ = false

-- The sending of a reply.
pub send_reply : Bool → Message → Act Repo Done
send_reply can_send rep cr = and_then (or_fault (Message.packed_bytes rep) cr) λ bytes cr.
    ok
      (if can_send
        then record { sent = some bytes; status = none }
        else record { sent = none; status = some daemon_reply_transmission })
      cr

-- There is no reply to a request to close the connection.
unless_closed : ℕ → Bool → Message → Act Repo Done
unfolding send_reply
unless_closed type can_send rep cr =
    if type == Message.close_request
    then ok (record { sent = none; status = none }) cr
    else send_reply can_send rep cr

-- Another request that ends like that would send a reply that was never written.
closed : ℕ → Act Repo Done
closed type cr =
    if type == Message.close_request
    then ok (record { sent = none; status = some daemon_request_done }) cr
    else fault

error_replied : ℕ → Bool → Repo → Res Message (Unit {0}) → Res Repo Done
unfolding unless_closed
error_replied type can_send cr (ok _ rep) = unless_closed type can_send rep cr
error_replied type can_send cr (err e rep) =
    ok (record { sent = none; status = some daemon_reply_init }) cr
error_replied type can_send cr fault = fault

module _ ⦃mem : Allocator⦄ where
  -- What follows the handler: its reply, or an error reply.
  pub respond : ℕ → Bool → Res Repo Message → Res Repo Done
  unfolding error_replied closed is_done
  respond type can_send (ok rep cr) = unless_closed type can_send rep cr
  respond type can_send (err e cr) =
      if is_done e
      then closed type cr
      else error_replied type can_send cr (Message.init Message.error_reply none 0)
  respond type can_send fault = fault

  module _ (host : Host) (krb : Krb) (stack : Cred) (principal : List ℕ) (role : Role) where
    loaded : Bool → Res Message (Unit {0}) → Act Repo Done
    unfolding respond
    loaded can_send (ok _ req) cr =
        respond req.type can_send (handle host krb stack principal role req cr)
    loaded can_send (err e req) cr = ok (record { sent = none; status = some e }) cr
    loaded can_send fault cr = fault

    -- `_auksd_process_msg` on a message that was received.
    pub process_msg : List ℕ → Bool → Act Repo Done
    unfolding loaded
    process_msg bytes can_send cr = loaded can_send (Message.load bytes) cr

    -- The loop of `auksd_process_req`: the replies, and the status that ends it.
    pub serve : Session → Act Repo (List (Option (List ℕ)) × Error)
    unfolding process_msg
    serve (lost e) cr = ok ([], e) cr
    serve (sends bytes can_send rest) cr = and_then (process_msg bytes can_send cr) λ done cr.
        elim done.status [
          | some e ↦ ok (done.sent ∷ [], e) cr
          | none ↦ and_then (serve rest cr) λ (replies, e). ok (done.sent ∷ replies, e)
        ]

-- An error, or the next step.
abbrev pub unless : {A : Type 0} → Option Error → Act Repo A → Act Repo A
unless none next cr = next cr
unless (some e) next cr = err e cr

-- A request that ended the connection is a success.
ended : {A : Type 0} → A × Error → Act Repo A
unfolding is_done
ended (replies, e) cr = if is_done e then ok replies cr else err e cr

module _ ⦃mem : Allocator⦄ (host : Host) (krb : Krb) (stack : Cred) (sys : System) (acl : Acl) where
  -- A client with no role is dropped.
  served : Role → List ℕ → Session → Act Repo (List (Option (List ℕ)))
  unfolding serve ended
  served unknown principal session cr = err daemon_not_authorized cr
  served role principal session cr = and_then (serve host krb stack principal role session cr) ended

  -- `auksd_process_req` of a daemon that is a primary or a secondary server. The role is that of the
  -- principal on any host.
  pub process_req : Bool → Connection → Act Repo (List (Option (List ℕ)))
  unfolding served
  process_req false connection cr = err daemon_not_valid_server cr
  process_req true connection cr =
      unless connection.srv_init
        (unless connection.authenticate (
          unless connection.get_rprinc (
            served (Acl.get_role sys acl connection.principal (codes "*")) connection.principal
              connection.session)))
        cr
