-- ===== src/Examples/Clients.antt =====
-- A client with one retry, a daemon with one credential, and a dump of it.
use auks.Base.{◌≡◌, ◌*◌, refl, true, none, some, [], ◌∷◌, ◌++◌, arith}
use auks.Base.Text.{codes}
use auks.Base.Words.{htonl}
use auks.Base.Results.{krb5}
use auks.Message.{Message}
use auks.Message.Packing.{IsPacked}
use auks.Acl.{user}
use auks.Cred.Update.{Kdc, failed, received}
use auks.Daemon.Serve.{process_msg}
use auks.Repo.Walk.{pack_nolock}
use auks.Repo.Walk.Packed.{HasRoom}
use auks.Api.{Endpoint, Engine, Peer, Network, rounds_nb, request}
use auks.Api.Reached.{reached, Requests}
use auks.Api.Reached.Rounds.{request-Requests}
use auks.Api.Calls.{get_auks_cred}
use auks.Api.Calls.Replies.{answer_of, IsServed}
use auks.Api.Calls.Dialogue.{Gets, get_auks_cred-Gets}
use auks.Api.Calls.Dumps.{Transfers, restore-pack_nolock}
use auks.Api.Renew.{Turn, exited, renew_cred}
use auks.Api.Renew.Life.{Lives, Once, renew_cred-Lives, renew_cred-Once}
use auks.Examples.Values.{
  heap, heap-HasMemory, cred, cred-IsValid, one_cred, one_cred-IsSound, host,
}
use auks.Examples.Requests.{krb, valid}
use auks.Examples.Tickets.{tickets}

abbrev endpoint : Endpoint
endpoint = record { address = codes "a"; port = codes "12345"; principal = codes "auksd@R" }

abbrev engine : Engine
engine = record {
  primary = endpoint;
  secondary = endpoint;
  ccache = none;
  cross_realm = [];
  helper_script = none;
  retries = 1;
  timeout = 10;
  delay = 3;
  nat_traversal = 0;
  renewer_minlifetime = 600;
  renewer_delay = 60;
}

-- A connection of the owner of the credential.
peer : Peer
peer = record {
  clnt_init = λ ccache nat. none;
  authenticate = λ principal. none;
  send_msg = λ bytes. none;
  reply =
      λ bytes. answer_of krb5 (process_msg host krb cred (codes "u@R") user bytes true one_cred);
}

net : Network
net retry end timeout = some peer

peer-IsServed : IsServed host krb cred (codes "u@R") user one_cred krb5 peer
unfolding peer
peer-IsServed = record { sends = λ bytes. refl; replies = λ bytes. refl }

reached-peer : reached net engine ≡ some peer
unfolding reached rounds_nb net peer
reached-peer = refl

get_auks_cred-Gets_example :
    Gets host krb cred (codes "u@R") user 1000 one_cred [] (get_auks_cred net engine 1000 [])
get_auks_cred-Gets_example =
    get_auks_cred-Gets host krb cred (codes "u@R") user refl heap-HasMemory net engine peer krb5
      1000 one_cred [] (omega arith) one_cred-IsSound valid reached-peer peer-IsServed

abbrev packed_request : Message
packed_request = record {
  type = 3;
  buffer = record { bytes = some (htonl 3 ++ (htonl 1000 ++ [])); length = 8; processed = 8 };
}

packed_request-IsPacked : IsPacked packed_request 3 (htonl 3 ++ htonl 1000)
unfolding htonl
packed_request-IsPacked =
    (refl, ([], record { contents = refl; done = refl; size = refl; bounded = omega arith }))

request-Requests_example :
    Requests
      (reached net engine)
      (htonl 3 ++ htonl 1000)
      []
      (rounds_nb 1 * 2)
      (request net engine packed_request [])
unfolding htonl
request-Requests_example =
    request-Requests net engine packed_request 3 (htonl 3 ++ htonl 1000) [] packed_request-IsPacked
      (omega arith)

abbrev kdc : Kdc
kdc = record {
  get = λ ccache. received (1 ∷ 2 ∷ 3 ∷ []);
  store = λ ccache bytes. none;
  renew_buffer = λ bytes flags. received (4 ∷ 5 ∷ []);
  cross_realm_buffer = λ realm bytes. failed krb5;
  deladdr_buffer = λ bytes. failed krb5;
}

-- The credential of the ticket is due.
abbrev turn : Turn
turn = record { kdc = kdc; now = 4900; net = net; helper = exited 0 }

renew_cred-Lives_example :
    Lives tickets cred engine none
      (turn ∷ turn ∷ [])
      []
      (renew_cred tickets cred engine none 1 (turn ∷ turn ∷ []) [])
renew_cred-Lives_example =
    renew_cred-Lives tickets cred engine none 1 (turn ∷ turn ∷ []) [] (λ e. omega arith)

renew_cred-Once_example :
    Once tickets cred engine none turn [] (renew_cred tickets cred engine none 0 (turn ∷ []) [])
renew_cred-Once_example = renew_cred-Once tickets cred engine none turn [] []

-- A reply to a dump, of which the type is packed.
abbrev dump_message : Message
dump_message = record {
  type = 26;
  buffer = record { bytes = some (htonl 26 ++ (0 ∷ 0 ∷ 0 ∷ 0 ∷ [])); length = 8; processed = 4 };
}

dump_message-HasRoom : HasRoom dump_message 26 (htonl 26)
unfolding htonl
dump_message-HasRoom = (
  refl,
  (
    0 ∷ 0 ∷ 0 ∷ 0 ∷ [],
    (record { contents = refl; done = refl; size = refl; bounded = omega arith }, omega arith),
  ),
)

restore-pack_nolock_example :
    Transfers net engine one_cred
      (pack_nolock host (record { repo = one_cred; message = dump_message }))
restore-pack_nolock_example =
    restore-pack_nolock net engine host one_cred dump_message 26 heap-HasMemory
      one_cred-IsSound.library (cred-IsValid, tt) (omega arith) (omega arith) dump_message-HasRoom
