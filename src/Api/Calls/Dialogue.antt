-- ===== src/Api/Calls/Dialogue.antt =====
-- `auks_api_get_auks_cred` of auks_api.c against `_auksd_process_msg` of auksd_req.c: the credential
-- that a client gets is the one that the daemon keeps.
use auks.Base.{
  ℕ, suc, ◌*◌, ◌<◌, ◌^◌, ◌≡◌, ◌⊎◌, refl, subst, inl, inr, true, false, none, some, List, ◌++◌,
  arith, length-append, ◌==◌,
}
use auks.Base.Lists.{replicate}
use auks.Base.Words.{htonl, length-htonl, to_int}
use auks.Base.Results.{
  Res, ok, err, fault, Error, and_then, api_request_init, api_request_pack_uid,
  api_request_processing, api_invalid_reply, api_corrupted_reply,
}
use auks.Base.Memory.{Allocator}
use auks.Freelist.Size.{HasMemory}
use auks.Message
use auks.Message.{Message}
use auks.Message.Packing.{Lacks, Packs, init-Packs, pack_uid-Packs}
use auks.Message.Unpacking.{Delivers}
use auks.Cred.{Cred, unpack}
use auks.Cred.Wire.{IsValid, wire}
use auks.Cred.Read.{unpack_lem}
use auks.Cred.Init.{Krb}
use auks.Acl.{Role}
use auks.Repo.{Repo, Host}
use auks.Repo.Contents.{cred_of, IsSound}
use auks.Daemon.Rights.{MayUse}
use auks.Daemon.Serve.Gets.{Denied, process_msg-Processes}
use auks.Api.{Engine, Peer, Network, Trace, rounds_nb, request}
use auks.Api.Reached.{sends, reached, delivered, Requests}
use auks.Api.Reached.Rounds.{request-Requests}
use auks.Api.Calls.{or_error, with_local, expect, got, get_packed, get_auks_cred}
use auks.Api.Calls.Replies.{IsServed, IsShort, Brings, processed-Brings}

module _ ⦃mem : Allocator⦄ (host : Host) (krb : Krb) (stack : Cred) (principal : List ℕ)
    (role : Role) where
  -- The request is not made, or the call of the daemon fails, for want of memory at one of the ends.
  abbrev Fails : ℕ → Repo → Error → Type 0
  Fails uid cr e =
      ((e ≡ api_request_init) × Lacks (Message.init 3 none 0))
      ⊎ ((e ≡ api_request_pack_uid)
          × ((req : Message) × (Message.init 3 none 0 ≡ ok tt req)
              × Lacks (Message.pack_uid uid req)))
      ⊎ ((e ≡ api_request_processing)
          × (IsShort host krb stack principal role uid cr ⊎ Lacks (Message.init 5 none 0)))

  -- The client has the credential that the daemon keeps for the user, if it may use it; or the daemon
  -- has denied it, or memory lacks.
  abbrev pub Gets : ℕ → Repo → Trace → Res Trace Cred → Type 0
  Gets uid cr t (ok cred new) =
      (cred_of uid cr ≡ some cred) × MayUse principal role cred × (sends new ≡ suc (sends t))
  Gets uid cr t (err e new) =
      Fails uid cr e ⊎ ((e ≡ api_invalid_reply) × Denied host krb stack principal role uid cr)
  Gets uid cr t fault = ⊥

  module _ (net : Network) (engine : Engine) (peer : Peer) (uid : ℕ) (cr : Repo)
      (valid : (cred : Cred) → cred_of uid cr ≡ some cred → IsValid cred) where
    got-Gets :
        (rep : Message) (t new : Trace)
        → Brings host krb stack principal role uid cr (ok rep tt)
        → sends new ≡ suc (sends t)
        → Gets uid cr t (got net engine rep new)
    unfolding got expect
    got-Gets rep t new (inr (typed, refused)) once =
        let other : (rep.type == 24) ≡ false = ground arith in rw other (inr (refl, refused))
    got-Gets rep t new (inl (cred, there, right, (typed, (n, s)))) once =
        let same : (rep.type == 24) ≡ true = ground arith in
        rw same (
          go (unpack rep)
            (unpack_lem cred rep 24 (htonl 24) (replicate n 0) (valid cred there) typed s))
      where
        go :
            (r : Res Message Cred)
            → Delivers cred 24 (htonl 24 ++ wire cred) (replicate n 0) r
            → Gets uid cr t (with_local api_corrupted_reply r (λ c _. ok c) new)
        go (ok c msg) (e, _, _) = rw e (there, right, once)
        go (err e msg) d = absurd d
        go fault d = absurd d

    requested-Gets :
        (t : Trace) (n : ℕ) (r : Res Trace Message)
        → Brings host krb stack principal role uid cr (delivered peer (htonl 3 ++ htonl uid))
        → Requests (some peer) (htonl 3 ++ htonl uid) t n r
        → Gets uid cr t (and_then (or_error api_request_processing r) (got net engine))
    requested-Gets t n (ok rep new) b (d, (once, _)) =
        got-Gets rep t new (subst (Brings host krb stack principal role uid cr) d b) once
    requested-Gets t n (err e new) b (inl (d, (once, _))) =
        inl (inr (inr (refl, inl (subst (Brings host krb stack principal role uid cr) d b))))
    requested-Gets t n (err e new) b (inr (_, same, l)) = inl (inr (inr (refl, inr l)))
    requested-Gets t n fault b d = absurd (subst (Brings host krb stack principal role uid cr) d b)

  module _ (locks : host.can_lock ≡ true) (memory : HasMemory) (net : Network) (engine : Engine)
      (peer : Peer) (lost : Error) where
    -- A client that asks for the credential of a user gets, from the daemon that it reaches, the
    -- very credential that the daemon keeps for that user, and only as an administrator or as its
    -- owner, with one request sent. It is told of an invalid reply only where there is none, or
    -- the client is neither, or the daemon cannot pack it; every other failure is of a message
    -- that the client or the daemon cannot make, pack or load in that call. The repository is in
    -- order with valid credentials, the mutex is taken, memory suffices for the library, the uid
    -- has 32 bits, and messages arrive as they were sent.
    pub get_auks_cred-Gets :
        (uid : ℕ) (cr : Repo) (t : Trace)
        → uid < 2 ^ 32
        → IsSound cr
        → ((cred : Cred) → cred_of uid cr ≡ some cred → IsValid cred)
        → reached net engine ≡ some peer
        → IsServed host krb stack principal role cr lost peer
        → Gets uid cr t (get_auks_cred net engine uid t)
    unfolding get_auks_cred get_packed
    get_auks_cred-Gets uid cr t small sound valid here served =
        started (Message.init 3 none 0) refl (init-Packs 3)
      where
        brings : Brings host krb stack principal role uid cr (delivered peer (htonl 3 ++ htonl uid))
        brings =
            rw (served.sends (htonl 3 ++ htonl uid), served.replies (htonl 3 ++ htonl uid))
              (processed-Brings host krb stack principal role lost uid cr valid _ (
                process_msg-Processes host krb stack principal role locks memory uid cr small sound
                  valid))

        packed :
            (req : Message) (r : Res Message (Unit {0}))
            → Message.init 3 none 0 ≡ ok tt req
            → Message.pack_uid uid req ≡ r
            → Packs 3 (htonl 3 ++ htonl uid) r
            → Gets uid cr t (with_local api_request_pack_uid r (λ _. get_packed net engine) t)
        packed first (ok _ req) made same p =
            requested-Gets net engine peer uid cr valid t (rounds_nb engine.retries * 2) _ brings (
              subst
                (λ o.
                  Requests o (htonl 3 ++ htonl uid) t (rounds_nb engine.retries * 2)
                    (request net engine req t))
                here
                (request-Requests net engine req 3 (htonl 3 ++ htonl uid) t p
                  (omega (arith, length-append (htonl 3) (htonl uid), length-htonl 3))))
        packed first (err e req) made same p = inl (inr (inl (refl, (first, made, (e, req, same)))))
        packed first fault made same p = absurd p

        started :
            (r : Res Message (Unit {0}))
            → Message.init 3 none 0 ≡ r
            → Packs 3 (htonl 3) r
            → Gets uid cr t (
                with_local api_request_init r
                  (λ _ req.
                    with_local api_request_pack_uid
                      (Message.pack_uid uid req)
                      (λ _. get_packed net engine))
                  t)
        started (ok _ req) made p =
            let same : to_int uid ≡ uid = omega arith in
            packed req (Message.pack_uid uid req) made refl (
              subst (λ k. Packs 3 (htonl 3 ++ htonl k) (Message.pack_uid uid req)) same
                (pack_uid-Packs uid req 3 (htonl 3) p))
        started (err e req) same p = inl (inl (refl, (e, req, same)))
        started fault same p = absurd p
