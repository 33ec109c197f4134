-- ===== src/Api.antt =====
-- src/api/auks/auks_api.c: the client's side. `auks_api_request` sends a request to the primary or to
-- the secondary server and takes the reply.
pub mod Reached
pub mod Calls
pub mod Renew
use auks.Base.{
  ℕ, zero, suc, ◌+◌, ◌*◌, ◌^◌, Bool, Option, none, some, List, [], ◌∷◌, ltb, ◌==◌, if◌then◌else◌,
}
use auks.Base.Results.{
  Res, ok, err, fault, Act, Error, and_then, or_fault, error, api_request_init,
  api_connection_failed, api_empty_request,
}
use auks.Base.Memory.{Allocator}
use auks.Cred.Update.{Answer, failed, received}
use auks.Message
use auks.Message.{Message}

-- A server of the configuration.
pub record Endpoint : Type 0 where
  pub address : List ℕ
  pub port : List ℕ
  pub principal : List ℕ

-- `auks_engine_t`, as far as the client reads it.
pub record Engine : Type 0 where
  pub primary : Endpoint
  pub secondary : Endpoint
  pub ccache : Option (List ℕ)
  pub cross_realm : List ℕ
  pub helper_script : Option (List ℕ)
  pub retries : ℕ
  pub timeout : ℕ
  pub delay : ℕ
  pub nat_traversal : ℕ
  pub renewer_minlifetime : ℕ
  pub renewer_delay : ℕ

-- A connection: what the calls auks_krb5_stream_* return on it. `reply` is what is received once the
-- given bytes were sent.
pub record Peer : Type 0 where
  pub clnt_init : Option (List ℕ) → Bool → Option Error
  pub authenticate : List ℕ → Option Error
  pub send_msg : List ℕ → Option Error
  pub reply : List ℕ → Answer

-- `xstream_connect` in a round to a server with a timeout; `none` is a failure.
abbrev pub Network : Type 0
Network = ℕ → Endpoint → ℕ → Option Peer

-- What a client does that others can see.
pub data Event : Type 0 where
  connecting : Endpoint → Event
  sending closing : List ℕ → Event
  sleeping : ℕ → Event

-- The events so far, the last one first.
abbrev pub Trace : Type 0
Trace = List Event

-- How a connection ends: it was not authenticated, its request failed, or it has the reply.
pub data Outcome : Type 0 where
  unreached refused : Error → Outcome
  answered : Message → Outcome

-- How many rounds `retry <= max_retries` allows, from 1 on.
unfoldable pub rounds_nb : ℕ → ℕ
rounds_nb max_retries = if ltb max_retries (2 ^ 31) then max_retries else 0

replied : Res Message (Unit {0}) → Act Trace Outcome
replied (ok _ rep) t = ok (answered rep) t
replied (err e rep) t = ok (refused e) t
replied fault t = fault

-- The result of `auks_api_request`: the status of the connection, or of the request on it.
concluded : Outcome → Act Trace Message
concluded (unreached e) t = err e t
concluded (refused e) t = err e t
concluded (answered rep) t = ok rep t

module _ ⦃mem : Allocator⦄ (net : Network) (engine : Engine) where
  -- The reply. A request to close follows it, whose failure is only logged.
  receive : Answer → Message → Act Trace Outcome
  unfolding replied
  receive (failed e) ack t = ok (refused e) t
  receive (received bytes) ack t =
      and_then (or_fault (Message.packed_bytes ack) t)
        λ close t. replied (Message.load bytes) (closing close ∷ t)

  sent : Option Error → Answer → Message → Act Trace Outcome
  unfolding receive
  sent (some e) answer ack t = ok (refused e) t
  sent none answer ack t = receive answer ack t

  exchange : Peer → Message → Message → Act Trace Outcome
  unfolding sent
  exchange peer req ack t =
      and_then (or_fault (Message.packed_bytes req) t)
        λ bytes t. sent (peer.send_msg bytes) (peer.reply bytes) ack (sending bytes ∷ t)

  -- The steps of a connection that come before the request.
  authenticated : Option Error → Peer → Message → Message → Act Trace Outcome
  unfolding exchange
  authenticated (some e) peer req ack t = ok (unreached e) t
  authenticated none peer req ack t = exchange peer req ack t

  initialized : Option Error → Endpoint → Peer → Message → Message → Act Trace Outcome
  unfolding authenticated
  initialized (some e) end peer req ack t = ok (unreached e) t
  initialized none end peer req ack t =
      authenticated (peer.authenticate end.principal) peer req ack t

  connected : Option Peer → Endpoint → Message → Message → Act Trace Outcome
  unfolding initialized
  connected none end req ack t = ok (unreached api_connection_failed) t
  connected (some peer) end req ack t =
      initialized (peer.clnt_init engine.ccache (engine.nat_traversal == 1)) end peer req ack t

  pub attempt : ℕ → Endpoint → Message → Message → Act Trace Outcome
  unfolding connected
  attempt retry end req ack t =
      connected (net retry end (engine.timeout * 1000)) end req ack (connecting end ∷ t)

  -- The loop on the primary and the secondary server.
  both : ℕ → Message → Message → Act Trace Outcome
  unfolding attempt
  both retry req ack t = and_then (attempt retry engine.primary req ack t) λ o t. elim o [
    | unreached e ↦ attempt retry engine.secondary req ack t
    | refused e ↦ ok (refused e) t
    | answered rep ↦ ok (answered rep) t
  ]

  -- The sleep between two rounds.
  delayed : ℕ → Trace → Trace
  delayed left t = if left == 0 then t else sleeping engine.delay ∷ t

  -- The loop over the retries, with as many rounds left, and the status so far.
  rounds : ℕ → ℕ → Outcome → Message → Message → Act Trace Outcome
  unfolding both delayed
  rounds zero retry status req ack t = ok status t
  rounds (suc left) retry status req ack t = and_then (both retry req ack t) λ o t. elim o [
    | unreached e ↦ rounds left (retry + 1) (unreached e) req ack (delayed left t)
    | refused e ↦ ok (refused e) t
    | answered rep ↦ ok (answered rep) t
  ]

  -- The status before any round is AUKS_SUCCESS, and that of the request AUKS_ERROR.
  requested : Message → Res Message (Unit {0}) → Act Trace Message
  unfolding rounds concluded
  requested req (ok _ ack) t =
      and_then (rounds (rounds_nb engine.retries) 1 (refused error) req ack t) concluded
  requested req (err e ack) t = err api_request_init t
  requested req fault t = fault

  -- `auks_api_request`
  pub request : Message → Act Trace Message
  unfolding requested
  request req t =
      if Message.packed req == 0
      then err api_empty_request t
      else requested req (Message.init Message.close_request none 0) t
