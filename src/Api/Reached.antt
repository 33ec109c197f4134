-- ===== src/Api/Reached.antt =====
-- `auks_api_request` of auks_api.c: which server gets the request, how often it is sent, and how the
-- call ends.
pub mod Rounds
use auks.Base.{
  ℕ, zero, suc, ◌+◌, ◌*◌, ◌≤◌, ◌<◌, ◌≡◌, ◌⊎◌, refl, inl, inr, Option, none, some, List, [], ◌∷◌,
  arith, length, ◌==◌, if◌then◌else◌, Bool-cases,
}
use auks.Base.Words.{htonl}
use auks.Base.Results.{Res, ok, err, fault, Error, and_then, error, api_request_init}
use auks.Base.Memory.{Allocator}
use auks.Cred.Update.{Answer, failed, received}
use auks.Message
use auks.Message.{Message}
use auks.Message.Packing.{NoMemory, Lacks, IsPacked, Packs, init-Packs, packed_bytes_lem}
use auks.Api.{
  Endpoint, Engine, Peer, Network, Event, connecting, sending, closing, sleeping, Trace, Outcome,
  unreached, refused, answered, rounds_nb, replied, concluded, receive, sent, exchange,
  authenticated, initialized, connected, attempt, both, delayed, rounds, requested, request,
}

abbrev pub or_else : {A : Type 0} → Option A → Option A → Option A
or_else (some a) o = some a
or_else none o = o

-- How often a request was sent, and a connection was tried.
abbrev pub sends : Trace → ℕ
sends [] = 0
sends (connecting end ∷ t) = sends t
sends (sending bytes ∷ t) = suc (sends t)
sends (closing bytes ∷ t) = sends t
sends (sleeping s ∷ t) = sends t

abbrev pub connects : Trace → ℕ
connects [] = 0
connects (connecting end ∷ t) = suc (connects t)
connects (sending bytes ∷ t) = connects t
connects (closing bytes ∷ t) = connects t
connects (sleeping s ∷ t) = connects t

module _ (net : Network) (engine : Engine) where
  allows : Option Error → Peer → Option Peer
  allows none peer = some peer
  allows (some e) peer = none

  set_up : Option Error → Endpoint → Peer → Option Peer
  unfolding allows
  set_up none end peer = allows (peer.authenticate end.principal) peer
  set_up (some e) end peer = none

  -- A connection on which the Kerberos stream is set up and authenticated.
  accepts : Endpoint → Option Peer → Option Peer
  unfolding set_up
  accepts end none = none
  accepts end (some peer) =
      set_up (peer.clnt_init engine.ccache (engine.nat_traversal == 1)) end peer

  pub reach : ℕ → Endpoint → Option Peer
  unfolding accepts
  reach retry end = accepts end (net retry end (engine.timeout * 1000))

  -- The first connection of these rounds that is accepted, the primary server before the secondary.
  unfoldable pub reached_in : ℕ → ℕ → Option Peer
  unfolding reach
  reached_in zero retry = none
  reached_in (suc left) retry =
      or_else (or_else (reach retry engine.primary) (reach retry engine.secondary))
        (reached_in left (retry + 1))

  unfoldable pub reached : Option Peer
  unfolding reached_in
  reached = reached_in (rounds_nb engine.retries) 1

module _ ⦃mem : Allocator⦄ where
  abbrev pub without_state : Res Message (Unit {0}) → Res (Unit {0}) Message
  without_state (ok _ rep) = ok rep tt
  without_state (err e rep) = err e tt
  without_state fault = fault

  -- What the client makes of an answer.
  abbrev pub taken : Option Error → Answer → Res (Unit {0}) Message
  taken (some e) answer = err e tt
  taken none (failed e) = err e tt
  taken none (received data') = without_state (Message.load data')

  -- What a request of these bytes to that peer comes to.
  abbrev pub delivered : Peer → List ℕ → Res (Unit {0}) Message
  delivered peer bytes = taken (peer.send_msg bytes) (peer.reply bytes)

  -- The request was sent once, in at most `n` connections; or never.
  abbrev pub Sent : Trace → ℕ → Trace → Type 0
  Sent t n new = (sends new ≡ suc (sends t)) × (connects new ≤ connects t + n)

  abbrev pub Unsent : Trace → ℕ → Trace → Type 0
  Unsent t n new = (sends new ≡ sends t) × (connects new ≤ connects t + n)

  -- How `auks_api_request` ends, where that peer is the first that is reached, or none is.
  abbrev pub Requests : Option Peer → List ℕ → Trace → ℕ → Res Trace Message → Type 0
  Requests (some peer) bytes t n (ok rep new) = (delivered peer bytes ≡ ok rep tt) × Sent t n new
  Requests (some peer) bytes t n (err e new) =
      ((delivered peer bytes ≡ err e tt) × Sent t n new)
      ⊎ ((e ≡ api_request_init) × (new ≡ t) × Lacks (Message.init 5 none 0))
  Requests (some peer) bytes t n fault = delivered peer bytes ≡ fault
  Requests none bytes t n (ok rep new) = ⊥
  Requests none bytes t n (err e new) = Unsent t n new
  Requests none bytes t n fault = ⊥

  module _ (bytes : List ℕ) where
    abbrev pub Ends : Option Peer → Trace → ℕ → Res Trace Outcome → Type 0
    Ends (some peer) t n (ok (answered rep) new) = (delivered peer bytes ≡ ok rep tt) × Sent t n new
    Ends (some peer) t n (ok (refused e) new) = (delivered peer bytes ≡ err e tt) × Sent t n new
    Ends (some peer) t n (ok (unreached e) new) = ⊥
    Ends (some peer) t n (err e new) = ⊥
    Ends (some peer) t n fault = delivered peer bytes ≡ fault
    Ends none t n (ok (unreached e) new) = Unsent t n new
    Ends none t n (ok (refused e) new) = ⊥
    Ends none t n (ok (answered rep) new) = ⊥
    Ends none t n (err e new) = ⊥
    Ends none t n fault = ⊥

    module _ (net : Network) (engine : Engine) (req ack : Message) (close : List ℕ)
        (readable : Message.packed_bytes req ≡ some bytes)
        (closable : Message.packed_bytes ack ≡ some close) where
      replied-Ends :
          (data' : List ℕ) (peer : Peer) (t mid : Trace)
          → delivered peer bytes ≡ without_state (Message.load data')
          → Sent t 1 mid
          → Ends (some peer) t 1 (replied (Message.load data') mid)
      unfolding replied
      replied-Ends data' peer t mid same s = go (Message.load data') same
        where
          go :
              (r : Res Message (Unit {0}))
              → delivered peer bytes ≡ without_state r
              → Ends (some peer) t 1 (replied r mid)
          go (ok _ rep) e = (e, s)
          go (err x rep) e = (e, s)
          go fault e = e

      sent-Ends :
          (o : Option Error) (answer : Answer) (peer : Peer) (t mid : Trace)
          → delivered peer bytes ≡ taken o answer
          → Sent t 1 mid
          → Ends (some peer) t 1 (sent net engine o answer ack mid)
      unfolding sent receive
      sent-Ends (some e) answer peer t mid same s = (same, s)
      sent-Ends none (failed e) peer t mid same s = (same, s)
      sent-Ends none (received data') peer t mid same s =
          rw closable (replied-Ends data' peer t (closing close ∷ mid) same s)

      exchange-Ends :
          (peer : Peer) (end : Endpoint) (t : Trace)
          → Ends (some peer) t 1 (exchange net engine peer req ack (connecting end ∷ t))
      unfolding exchange
      exchange-Ends peer end t =
          rw readable
            (sent-Ends (peer.send_msg bytes) (peer.reply bytes) peer t _ refl (refl, omega arith))

      authenticated-Ends :
          (o : Option Error) (peer : Peer) (end : Endpoint) (t : Trace)
          → Ends
              (allows net engine o peer)
              t
              1
              (authenticated net engine o peer req ack (connecting end ∷ t))
      unfolding authenticated allows
      authenticated-Ends (some e) peer end t = (refl, omega arith)
      authenticated-Ends none peer end t = exchange-Ends peer end t

      initialized-Ends :
          (o : Option Error) (peer : Peer) (end : Endpoint) (t : Trace)
          → Ends
              (set_up net engine o end peer)
              t
              1
              (initialized net engine o end peer req ack (connecting end ∷ t))
      unfolding initialized set_up
      initialized-Ends (some e) peer end t = (refl, omega arith)
      initialized-Ends none peer end t =
          authenticated-Ends (peer.authenticate end.principal) peer end t

      pub attempt-Ends :
          (retry : ℕ) (end : Endpoint) (t : Trace)
          → Ends (reach net engine retry end) t 1 (attempt net engine retry end req ack t)
      unfolding attempt reach accepts connected
      attempt-Ends retry end t = go (net retry end (engine.timeout * 1000))
        where
          go :
              (o : Option Peer)
              → Ends
                  (accepts net engine end o)
                  t
                  1
                  (connected net engine o end req ack (connecting end ∷ t))
          go none = (refl, omega arith)
          go (some peer) =
              initialized-Ends (peer.clnt_init engine.ccache (engine.nat_traversal == 1)) peer end t
