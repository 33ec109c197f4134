-- ===== src/Api/Reached/Rounds.antt =====
-- The loops of `auks_api_request` of auks_api.c, and the call as a whole.
use auks.Base.{
  ℕ, zero, suc, ◌+◌, ◌*◌, ◌<◌, ◌≡◌, refl, inl, inr, Option, none, some, List, arith, length, ◌==◌,
  Bool-cases,
}
use auks.Base.Words.{htonl}
use auks.Base.Results.{Res, ok, err, fault, Error, and_then, error, api_request_init}
use auks.Base.Memory.{Allocator}
use auks.Message
use auks.Message.{Message}
use auks.Message.Packing.{Lacks, IsPacked, Packs, init-Packs, packed_bytes_lem, packed_lem}
use auks.Api.{
  Engine, Peer, Network, Trace, Outcome, unreached, refused, answered, rounds_nb, concluded,
  attempt, both, delayed, rounds, requested, request,
}
use auks.Api.Reached.{or_else, reach, reached_in, reached, Unsent, Requests, Ends, attempt-Ends}

module _ ⦃mem : Allocator⦄ where
  module _ (bytes : List ℕ) where
    -- A further attempt, made where the first one did not reach its server.
    abbrev unless_reached :
        (Error → Trace → Res Trace Outcome) → Res Trace Outcome → Res Trace Outcome
    unless_reached next r = and_then r λ o t. elim o [
      | unreached e ↦ next e t
      | refused e ↦ ok (refused e) t
      | answered rep ↦ ok (answered rep) t
    ]

    unless_reached-Ends :
        (first second : Option Peer) (t : Trace) (n m : ℕ) (r : Res Trace Outcome)
        (next : Error → Trace → Res Trace Outcome)
        → Ends bytes first t n r
        → ((e : Error) (mid : Trace) → Unsent t n mid → Ends bytes second t (n + m) (next e mid))
        → Ends bytes (or_else first second) t (n + m) (unless_reached next r)
    unless_reached-Ends (some p) second t n m (ok (answered rep) new) next (d, (s, c)) k =
        (d, (s, omega arith))
    unless_reached-Ends (some p) second t n m (ok (refused e) new) next (d, (s, c)) k =
        (d, (s, omega arith))
    unless_reached-Ends (some p) second t n m (ok (unreached e) new) next h k = absurd h
    unless_reached-Ends (some p) second t n m (err e new) next h k = absurd h
    unless_reached-Ends (some p) second t n m fault next h k = h
    unless_reached-Ends none second t n m (ok (unreached e) new) next h k = k e new h
    unless_reached-Ends none second t n m (ok (refused e) new) next h k = absurd h
    unless_reached-Ends none second t n m (ok (answered rep) new) next h k = absurd h
    unless_reached-Ends none second t n m (err e new) next h k = absurd h
    unless_reached-Ends none second t n m fault next h k = absurd h

    module _ (net : Network) (engine : Engine) (req ack : Message) (close : List ℕ)
        (readable : Message.packed_bytes req ≡ some bytes)
        (closable : Message.packed_bytes ack ≡ some close) where
      -- What was done before counts as well.
      later :
          (o : Option Peer) (t mid : Trace) (n m : ℕ) (r : Res Trace Outcome)
          → Unsent t n mid
          → Ends bytes o mid m r
          → Ends bytes o t (n + m) r
      later (some p) t mid n m (ok (answered rep) new) (u, v) (d, (s, c)) =
          (d, (omega arith, omega arith))
      later (some p) t mid n m (ok (refused e) new) (u, v) (d, (s, c)) =
          (d, (omega arith, omega arith))
      later (some p) t mid n m (ok (unreached e) new) (u, v) h = absurd h
      later (some p) t mid n m (err e new) (u, v) h = absurd h
      later (some p) t mid n m fault (u, v) h = h
      later none t mid n m (ok (unreached e) new) (u, v) (s, c) = (omega arith, omega arith)
      later none t mid n m (ok (refused e) new) (u, v) h = absurd h
      later none t mid n m (ok (answered rep) new) (u, v) h = absurd h
      later none t mid n m (err e new) (u, v) h = absurd h
      later none t mid n m fault (u, v) h = absurd h

      both-Ends :
          (retry : ℕ) (t : Trace)
          → Ends bytes
              (or_else
                (reach net engine retry engine.primary)
                (reach net engine retry engine.secondary))
              t
              2
              (both net engine retry req ack t)
      unfolding both
      both-Ends retry t =
          unless_reached-Ends _ _ t 1 1 (attempt net engine retry engine.primary req ack t)
            (λ e. attempt net engine retry engine.secondary req ack)
            (attempt-Ends bytes net engine req ack close readable closable retry engine.primary t)
            λ e mid u. later _ t mid 1 1 _ u (
              attempt-Ends bytes net engine req ack close readable closable retry engine.secondary
                mid)

      delayed-Unsent :
          (left n : ℕ) (t mid : Trace) → Unsent t n mid → Unsent t n (delayed net engine left mid)
      unfolding delayed
      delayed-Unsent left n t mid u = elim (Bool-cases (left == 0)) [
        | inl over ↦ rw over u
        | inr more ↦ rw more u
      ]

      rounds-Ends :
          (left retry : ℕ) (e : Error) (t : Trace)
          → Ends bytes
              (reached_in net engine left retry)
              t
              (left * 2)
              (rounds net engine left retry (unreached e) req ack t)
      unfolding rounds reached_in
      rounds-Ends zero retry e t = (refl, omega arith)
      rounds-Ends (suc left) retry e t =
          let count : 2 + left * 2 ≡ suc left * 2 = omega arith in
          rw (← count) (
            unless_reached-Ends _ _ t 2 (left * 2) (both net engine retry req ack t)
              (λ x mid.
                rounds net engine left (retry + 1) (unreached x) req ack
                  (delayed net engine left mid))
              (both-Ends retry t)
              λ x mid u.
                later _ t _ 2 (left * 2) _ (delayed-Unsent left 2 t mid u)
                  (rounds-Ends left (retry + 1) x (delayed net engine left mid)))

      concluded-Requests :
          (o : Option Peer) (t : Trace) (n : ℕ) (r : Res Trace Outcome)
          → Ends bytes o t n r
          → Requests o bytes t n (and_then r concluded)
      unfolding concluded
      concluded-Requests (some p) t n (ok (answered rep) new) h = h
      concluded-Requests (some p) t n (ok (refused e) new) h = inl h
      concluded-Requests (some p) t n (ok (unreached e) new) h = absurd h
      concluded-Requests (some p) t n (err e new) h = absurd h
      concluded-Requests (some p) t n fault h = h
      concluded-Requests none t n (ok (unreached e) new) h = h
      concluded-Requests none t n (ok (refused e) new) h = absurd h
      concluded-Requests none t n (ok (answered rep) new) h = absurd h
      concluded-Requests none t n (err e new) h = absurd h
      concluded-Requests none t n fault h = absurd h

      all_rounds-Requests :
          (left : ℕ) (t : Trace)
          → Requests
              (reached_in net engine left 1)
              bytes
              t
              (left * 2)
              (and_then (rounds net engine left 1 (refused error) req ack t) concluded)
      unfolding rounds reached_in concluded
      all_rounds-Requests zero t = (refl, omega arith)
      all_rounds-Requests (suc left) t =
          concluded-Requests _ t _ _ (rounds-Ends (suc left) 1 error t)

  failed_init :
      (o : Option Peer) (bytes : List ℕ) (t : Trace) (n : ℕ)
      → Lacks (Message.init 5 none 0)
      → Requests o bytes t n (err api_request_init t)
  failed_init none bytes t n l = (refl, omega arith)
  failed_init (some peer) bytes t n l = inr (refl, refl, l)

  -- A request goes to the first server that sets up and authenticates a connection, the primary
  -- one before the secondary one in each round, and to no other; it is sent there once, never
  -- again, and the call returns what comes of it. Where no server is reached, it is not sent and
  -- the call fails. At most two connections are tried in each of the rounds. Where memory is short
  -- for the closing message, nothing is tried. The request is packed and not empty.
  pub request-Requests :
      (net : Network) (engine : Engine) (req : Message) (type : ℕ) (bytes : List ℕ) (t : Trace)
      → IsPacked req type bytes
      → 0 < length bytes
      → Requests
          (reached net engine)
          bytes
          t
          (rounds_nb engine.retries * 2)
          (request net engine req t)
  unfolding request requested reached
  request-Requests net engine req type bytes t packed some_bytes =
      elim (Bool-cases (Message.packed req == 0)) [
        | inl empty ↦ absurd (ground (arith, packed_lem req type bytes packed))
        | inr full ↦ rw full (go (Message.init 5 none 0) refl (init-Packs 5))
      ]
    where
      go :
          (r : Res Message (Unit {0}))
          → Message.init 5 none 0 ≡ r
          → Packs 5 (htonl 5) r
          → Requests
              (reached net engine)
              bytes
              t
              (rounds_nb engine.retries * 2)
              (requested net engine req r t)
      go (ok _ ack) same p =
          all_rounds-Requests bytes net engine req ack (htonl 5)
            (packed_bytes_lem req type bytes packed) (packed_bytes_lem ack 5 (htonl 5) p)
            (rounds_nb engine.retries) t
      go (err e ack) same n = failed_init _ bytes t _ (e, ack, same)
      go fault same d = absurd d
