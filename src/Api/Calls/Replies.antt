-- ===== src/Api/Calls/Replies.antt =====
-- What a client of auks_api.c loads when `_auksd_process_msg` of auksd_req.c has answered its request
-- for a credential.
use auks.Base.{
  ℕ, ◌≡◌, ◌⊎◌, refl, inl, inr, true, Option, none, some, List, [], ◌++◌, append-nil, arith,
}
use auks.Base.Words.{htonl}
use auks.Base.Results.{Res, ok, err, fault, Error}
use auks.Base.Memory.{Allocator}
use auks.Message
use auks.Message.{Message}
use auks.Message.Packing.{Lacks}
use auks.Message.Unpacking.{Receives, load-Receives}
use auks.Cred.{Cred}
use auks.Cred.Wire.{IsValid, wire, length-wire}
use auks.Cred.Init.{Krb}
use auks.Cred.Update.{Answer, failed, received}
use auks.Acl.{Role}
use auks.Repo.{Repo, Host}
use auks.Repo.Contents.{cred_of}
use auks.Daemon.Rights.{MayUse}
use auks.Daemon.Serve.{Done, process_msg}
use auks.Daemon.Serve.Gets.{Denied, SendsCred, Processes}
use auks.Api.{Peer}
use auks.Api.Reached.{taken, without_state}

-- What is received of a daemon that has processed a message; `lost` is the error where it closes the
-- connection with no reply.
abbrev pub sent_by : Error → Option (List ℕ) → Answer
sent_by lost none = failed lost
sent_by lost (some bytes) = received bytes

abbrev pub answer_of : Error → Res Repo Done → Answer
answer_of lost (ok done cr) = sent_by lost done.sent
answer_of lost (err e cr) = failed lost
answer_of lost fault = failed lost

module _ ⦃mem : Allocator⦄ (host : Host) (krb : Krb) (stack : Cred) (principal : List ℕ)
    (role : Role) where
  -- A connection to a daemon with that repository, over which messages arrive as they were sent.
  pub record IsServed (cr : Repo) (lost : Error) (peer : Peer) : Type 0 where
    pub sends : (bytes : List ℕ) → peer.send_msg bytes ≡ none
    pub replies :
        (bytes : List ℕ)
        → peer.reply bytes
          ≡ answer_of lost (process_msg host krb stack principal role bytes true cr)

  -- Memory lacks at one of the two ends: for the request or the error reply in the daemon, or for the
  -- reply in the client.
  abbrev pub IsShort : ℕ → Repo → Type 0
  IsShort uid cr =
      Lacks (Message.load (htonl 3 ++ htonl uid))
      ⊎ Lacks (Message.init 21 none 0)
      ⊎ Lacks (Message.load (htonl 21 ++ []))
      ⊎ ((cred : Cred) × (cred_of uid cr ≡ some cred)
          × Lacks (Message.load (htonl 24 ++ wire cred)))

  -- What the client has loaded.
  abbrev pub Brings : ℕ → Repo → Res (Unit {0}) Message → Type 0
  Brings uid cr (ok rep u) =
      ((cred : Cred) × (cred_of uid cr ≡ some cred)
        × MayUse principal role cred
        × Receives 24 (wire cred) (ok tt rep))
      ⊎ ((rep.type ≡ 21) × Denied host krb stack principal role uid cr)
  Brings uid cr (err e u) = IsShort uid cr
  Brings uid cr fault = ⊥

  module _ (lost : Error) (uid : ℕ) (cr : Repo)
      (valid : (cred : Cred) → cred_of uid cr ≡ some cred → IsValid cred) where
    cred-Brings :
        (cred : Cred) (r : Res Message (Unit {0}))
        → Message.load (htonl 24 ++ wire cred) ≡ r
        → cred_of uid cr ≡ some cred
        → MayUse principal role cred
        → Receives 24 (wire cred) r
        → Brings uid cr (without_state r)
    cred-Brings cred (ok _ rep) same there right h = inl (cred, there, right, h)
    cred-Brings cred (err e rep) same there right n = inr (inr (inr (cred, there, (e, rep, same))))
    cred-Brings cred fault same there right d = d

    error-Brings :
        (r : Res Message (Unit {0}))
        → Message.load (htonl 21 ++ []) ≡ r
        → Denied host krb stack principal role uid cr
        → Receives 21 [] r
        → Brings uid cr (without_state r)
    error-Brings (ok _ rep) same g (typed, _) = inr (typed, g)
    error-Brings (err e rep) same g n = inr (inr (inl (e, rep, same)))
    error-Brings fault same g d = d

    sent-Brings :
        (sent : Option (List ℕ))
        → SendsCred host krb stack principal role uid cr sent
        → Brings uid cr (taken none (sent_by lost sent))
    sent-Brings sent (inl (cred, there, right, e)) = rw e (
        cred-Brings cred _ refl there right (
          load-Receives 24 (wire cred) (omega arith)
            (omega (arith, length-wire cred (valid cred there)))))
    sent-Brings sent (inr (inl (g, e))) =
        rw (e, ← append-nil (htonl 21))
          (error-Brings _ refl g (load-Receives 21 [] (omega arith) (omega arith)))
    sent-Brings sent (inr (inr (inl l, e))) = rw e (inl l)
    sent-Brings sent (inr (inr (inr l, e))) = rw e (inr (inl l))

    pub processed-Brings :
        (r : Res Repo Done)
        → Processes host krb stack principal role uid cr r
        → Brings uid cr (taken none (answer_of lost r))
    processed-Brings (ok done new) (s, _) = sent-Brings done.sent s
    processed-Brings (err e new) d = absurd d
    processed-Brings fault d = absurd d
