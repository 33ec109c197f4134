-- ===== src/Daemon/Serve/Access.antt =====
-- auksd_req.c: clients with no role, and requests that fail.
use auks.Base.{
  ℕ, ◌≡◌, ◌≢◌, ◌⊎◌, refl, inl, inr, Bool, true, false, Option, none, some, All, arith, ◌==◌,
  if◌then◌else◌,
}
use auks.Base.Text.{codes}
use auks.Base.Words.{htonl}
use auks.Base.Results.{
  Res, ok, err, fault, Act, Error, daemon_not_authorized, daemon_not_valid_server,
  daemon_reply_init, daemon_reply_transmission,
}
use auks.Base.Memory.{Allocator}
use auks.Message
use auks.Message.{Message}
use auks.Message.Packing.{Lacks, Packs, init-Packs, packed_bytes_lem}
use auks.Cred.{Cred}
use auks.Cred.Init.{Krb}
use auks.Acl
use auks.Acl.{Acl, System, unknown}
use auks.Acl.Roles.{IsTextRule, IsSound, Grants, get_role_iff}
use auks.Repo.{Repo, Host}
use auks.Daemon.Serve.{
  Done, Session, Connection, is_done, send_reply, unless_closed, error_replied, respond, unless,
  served, process_req,
}

-- The first of the errors of a connection, up to the check of the role.
unfoldable pub first_error : Option Error → Option Error → Option Error → Error
first_error (some e) authenticate get_rprinc = e
first_error none (some e) get_rprinc = e
first_error none none (some e) = e
first_error none none none = daemon_not_authorized

unfoldable pub drop_error : Bool → Connection → Error
drop_error false connection = daemon_not_valid_server
drop_error true connection =
    first_error connection.srv_init connection.authenticate connection.get_rprinc

-- The same connection, whose client sends something else.
abbrev pub with_session : Session → Connection → Connection
with_session session connection = record connection { session = session }

unless-error :
    {A : Type 0} (cr : Repo) (init authenticate rprinc : Option Error) (next : Act Repo A)
    → next cr ≡ err daemon_not_authorized cr
    → unless init (unless authenticate (unless rprinc next)) cr
      ≡ err (first_error init authenticate rprinc) cr
unfolding first_error
unless-error cr (some e) authenticate rprinc next h = refl
unless-error cr none (some e) rprinc next h = refl
unless-error cr none none (some e) next h = refl
unless-error cr none none none next h = h

module _ ⦃mem : Allocator⦄ where
  -- An error reply is sent, or cannot be sent, or there is no memory for it.
  abbrev pub Refused : Bool → Repo → Res Repo Done → Type 0
  Refused can_send cr (ok done new) =
      (new ≡ cr)
      × ((done ≡ (
            if can_send
            then record { sent = some (htonl 21); status = none }
            else record { sent = none; status = some daemon_reply_transmission }))
          ⊎ ((done ≡ record { sent = none; status = some daemon_reply_init })
              × Lacks (Message.init 21 none 0)))
  Refused can_send cr (err e new) = ⊥
  Refused can_send cr fault = ⊥

  dropped :
      (host : Host) (krb : Krb) (stack : Cred) (sys : System) (acl : Acl) (is_server : Bool)
      (connection : Connection) (cr : Repo)
      → Acl.get_role sys acl connection.principal (codes "*") ≡ unknown
      → process_req host krb stack sys acl is_server connection cr
        ≡ err (drop_error is_server connection) cr
  unfolding process_req served drop_error
  dropped host krb stack sys acl false connection cr role = refl
  dropped host krb stack sys acl true connection cr role =
      unless-error cr connection.srv_init connection.authenticate connection.get_rprinc _
        (rw role refl)

  -- A client to whom no rule of the access control list grants a role, for any host, is dropped
  -- with the first error of the connection, or as not authorized, whatever messages the client
  -- would send, and the repository stays as it is. The rules and addresses are C strings.
  pub process_req-drop_error :
      (host : Host) (krb : Krb) (stack : Cred) (sys : System) (acl : Acl) (is_server : Bool)
      (connection : Connection) (cr : Repo)
      → IsSound sys
      → All IsTextRule acl.rules
      → Grants sys connection.principal (codes "*") acl.rules unknown
      → (session : Session)
      → process_req host krb stack sys acl is_server (with_session session connection) cr
        ≡ err (drop_error is_server connection) cr
  unfolding drop_error
  process_req-drop_error host krb stack sys acl is_server connection cr sound texts g session =
      let role =
        (get_role_iff sys acl connection.principal (codes "*") unknown sound texts
            ((λ e. omega arith), tt)).1
          g in
      same is_server
        (dropped host krb stack sys acl is_server (with_session session connection) cr role)
    where
      same :
          (is_server : Bool)
          → process_req host krb stack sys acl is_server (with_session session connection) cr
            ≡ err (drop_error is_server (with_session session connection)) cr
          → process_req host krb stack sys acl is_server (with_session session connection) cr
            ≡ err (drop_error is_server connection) cr
      same false e = e
      same true e = e

  replied :
      (type : ℕ) (can_send : Bool) (cr : Repo) (r : Res Message (Unit {0}))
      → (type == 5) ≡ false
      → Message.init 21 none 0 ≡ r
      → Packs 21 (htonl 21) r
      → Refused can_send cr (error_replied type can_send cr r)
  unfolding error_replied unless_closed send_reply
  replied type can_send cr (ok _ rep) other same p =
      rw (other, packed_bytes_lem rep 21 (htonl 21) p) (refl, inl refl)
  replied type can_send cr (err e rep) other same p = (refl, inr (refl, (e, rep, same)))
  replied type can_send cr fault other same p = p

  -- A request that fails, and is none to close the connection, is answered with the error reply
  -- and nothing else, unless that cannot be sent or there is no memory for it; the answer leaves
  -- the repository as the handler left it.
  pub respond-Refused :
      (type : ℕ) (can_send : Bool) (e : Error) (cr : Repo)
      → is_done e ≡ false
      → type ≢ Message.close_request
      → Refused can_send cr (respond type can_send (err e cr))
  unfolding respond
  respond-Refused type can_send e cr not_done other =
      rw not_done (replied type can_send cr _ (ground arith) refl (init-Packs 21))
