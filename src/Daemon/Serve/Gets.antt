-- ===== src/Daemon/Serve/Gets.antt =====
-- `_auksd_process_msg` of auksd_req.c on a request for a credential, from the bytes that are received
-- to the bytes that are sent.
use auks.Base.{
  ℕ, ◌<◌, ◌^◌, ◌≡◌, ◌⊎◌, refl, sym, ap, subst, inl, inr, true, false, Option, none, some, List,
  ◌++◌, arith,
}
use auks.Base.Lists.{replicate}
use auks.Base.Words.{htonl, length-htonl}
use auks.Base.Results.{Res, ok, err, fault, Error, library_uid_not_found}
use auks.Base.Memory.{Allocator}
use auks.Freelist.Size.{HasMemory}
use auks.Message
use auks.Message.{Message}
use auks.Message.Packing.{NoMemory, Lacks, IsPacked, packed_bytes_lem}
use auks.Message.Unpacking.{Receives, load-Receives}
use auks.Cred.{Cred}
use auks.Cred.Wire.{IsValid, wire}
use auks.Cred.RoundTrip.{send}
use auks.Cred.Init.{Krb}
use auks.Acl.{Role}
use auks.Repo.{Repo, Host}
use auks.Repo.Contents.{cred_of, IsSound}
use auks.Daemon.{handle, get_req}
use auks.Daemon.Rights.{MayUse, IsRefusal}
use auks.Daemon.Answers.{GetAnswers, Steady, get_req-Answers}
use auks.Daemon.Serve.{Done, is_done, respond, unless_closed, send_reply, loaded, process_msg}
use auks.Daemon.Serve.Access.{Refused, respond-Refused}

module _ ⦃mem : Allocator⦄ (host : Host) (krb : Krb) (stack : Cred) (principal : List ℕ)
    (role : Role) where
  -- The user has no credential; or the client may not use it; or it cannot be packed.
  abbrev pub Denied : ℕ → Repo → Type 0
  Denied uid cr =
      (cred_of uid cr ≡ none)
      ⊎ ((cred : Cred) × (cred_of uid cr ≡ some cred)
          × ((¬ MayUse principal role cred) ⊎ Lacks (send 24 cred)))

  GetAnswers-Denied :
      (uid : ℕ) (cr new : Repo) (e : Error) (o : Option Cred)
      → cred_of uid cr ≡ o
      → GetAnswers host krb stack principal role cr o (err e new)
      → Denied uid cr
  GetAnswers-Denied uid cr new e none there g = inl there
  GetAnswers-Denied uid cr new e (some cred) there (s, inl (right, n, l)) = inr (cred, there, inr l)
  GetAnswers-Denied uid cr new e (some cred) there (s, inr (no_right, _)) =
      inr (cred, there, inl no_right)

  -- The reply with the credential of the user, to a client who may use it; or an error reply, where
  -- that is denied; or none, where the request cannot be loaded, or no error reply be made.
  abbrev pub SendsCred : ℕ → Repo → Option (List ℕ) → Type 0
  SendsCred uid cr sent =
      ((cred : Cred) × (cred_of uid cr ≡ some cred)
        × MayUse principal role cred
        × (sent ≡ some (htonl 24 ++ wire cred)))
      ⊎ (Denied uid cr × (sent ≡ some (htonl 21)))
      ⊎ ((Lacks (Message.load (htonl 3 ++ htonl uid)) ⊎ Lacks (Message.init 21 none 0))
          × (sent ≡ none))

  abbrev pub Processes : ℕ → Repo → Res Repo Done → Type 0
  Processes uid cr (ok done new) = SendsCred uid cr done.sent × Steady cr new
  Processes uid cr (err e new) = ⊥
  Processes uid cr fault = ⊥

  module _ (locks : host.can_lock ≡ true) (memory : HasMemory) where
    error_sent :
        (uid : ℕ) (cr new : Repo) (e : Error) (r : Res Repo Done)
        → GetAnswers host krb stack principal role cr (cred_of uid cr) (err e new)
        → Steady cr new
        → Refused true new r
        → Processes uid cr r
    error_sent uid cr new e (ok done last) g s (same, inl sent) = (
      inr (inl (GetAnswers-Denied uid cr new e _ refl g, ap (λ d. d.sent) sent)),
      subst (Steady cr) (sym same) s,
    )
    error_sent uid cr new e (ok done last) g s (same, inr (unsent, l)) =
        (inr (inr (inr l, ap (λ d. d.sent) unsent)), subst (Steady cr) (sym same) s)
    error_sent uid cr new e (err x last) g s d = absurd d
    error_sent uid cr new e fault g s d = absurd d

    not_found : (e : Error) → e ≡ library_uid_not_found → is_done e ≡ false
    unfolding is_done
    not_found e h = rw h refl

    no_memory : (e : Error) → NoMemory e → is_done e ≡ false
    unfolding is_done
    no_memory e (inl h) = rw h refl
    no_memory e (inr h) = rw h refl

    refusal : (e : Error) → IsRefusal e → is_done e ≡ false
    unfolding is_done
    refusal e (inl h) = rw h refl
    refusal e (inr (inl h)) = rw h refl
    refusal e (inr (inr h)) = rw h refl

    cred_sent :
        (uid : ℕ) (cr new : Repo) (cred : Cred) (rep : Message)
        → cred_of uid cr ≡ some cred
        → MayUse principal role cred
        → IsPacked rep 24 (htonl 24 ++ wire cred)
        → Steady cr new
        → Processes uid cr (respond 3 true (ok rep new))
    unfolding respond unless_closed send_reply
    cred_sent uid cr new cred rep there right p s =
        rw (packed_bytes_lem rep 24 _ p) (inl (cred, there, right, refl), s)

    responded :
        (uid : ℕ) (cr : Repo) (o : Option Cred) (r : Res Repo Message)
        → o ≡ cred_of uid cr
        → GetAnswers host krb stack principal role cr o r
        → Processes uid cr (respond 3 true r)
    responded uid cr none (ok rep new) there g = absurd g
    responded uid cr none (err e new) there (h, s) =
        error_sent uid cr new e _ (rw (← there) (h, s)) s
          (respond-Refused 3 true e new (not_found e h) (λ z. omega arith))
    responded uid cr none fault there g = absurd g
    responded uid cr (some cred) (ok rep new) there (right, p, s) =
        cred_sent uid cr new cred rep (sym there) right p s
    responded uid cr (some cred) (err e new) there (s, why) =
        error_sent uid cr new e _ (rw (← there) (s, why)) s
          (respond-Refused 3 true e new (ended why) (λ z. omega arith))
      where
        ended :
            ((MayUse principal role cred × NoMemory e × Lacks (send 24 cred))
              ⊎ ((¬ MayUse principal role cred) × IsRefusal e))
            → is_done e ≡ false
        ended (inl (_, n, _)) = no_memory e n
        ended (inr (_, n)) = refusal e n
    responded uid cr (some cred) fault there g = absurd g

    handle_get :
        (req : Message) (cr : Repo)
        → req.type ≡ 3
        → handle host krb stack principal role req cr ≡ get_req host krb stack principal role req cr
    unfolding handle
    handle_get req cr e = simp e

    -- From bytes to bytes: a request for the credential of a user is answered with the credential
    -- that the repository keeps for that user, to an administrator or its owner; with the error
    -- reply, where there is none, the client is neither, or it cannot be packed; and with nothing
    -- only where the request cannot be loaded or no error reply can be made. The repository keeps
    -- its credentials. It is in order with valid credentials, the mutex is taken, memory suffices
    -- for the library, the uid has 32 bits, and the reply can be sent.
    pub process_msg-Processes :
        (uid : ℕ) (cr : Repo)
        → uid < 2 ^ 32
        → IsSound cr
        → ((cred : Cred) → cred_of uid cr ≡ some cred → IsValid cred)
        → Processes uid cr
            (process_msg host krb stack principal role (htonl 3 ++ htonl uid) true cr)
    unfolding process_msg loaded
    process_msg-Processes uid cr small sound valid =
        go (Message.load (htonl 3 ++ htonl uid)) refl
          (load-Receives 3 (htonl uid) (omega arith) (omega (arith, length-htonl uid)))
      where
        go :
            (r : Res Message (Unit {0}))
            → Message.load (htonl 3 ++ htonl uid) ≡ r
            → Receives 3 (htonl uid) r
            → Processes uid cr (loaded host krb stack principal role true r cr)
        go (ok _ req) same (typed, (n, s)) = rw (handle_get req cr typed) (
            subst
              (λ type.
                Processes uid cr (respond type true (get_req host krb stack principal role req cr)))
              (sym typed)
              (responded uid cr (cred_of uid cr) _ refl (
                get_req-Answers host krb stack principal role locks memory uid req (htonl 3)
                  (replicate n 0) cr small s sound valid)))
        go (err e req) same n =
            (inr (inr (inl (e, req, same), refl)), record { sound = sound; same = λ q. refl })
        go fault same d = absurd d
