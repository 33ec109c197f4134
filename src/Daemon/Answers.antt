-- ===== src/Daemon/Answers.antt =====
-- What the handlers `_auksd_get_req`, `_auksd_remove_req` and `_auksd_add_req` of auksd_req.c answer,
-- and what they leave in the repository.
use auks.Base.{
  ℕ, ◌<◌, ◌^◌, ◌≡◌, ◌⊎◌, refl, sym, ◌∙◌, subst, Option, none, some, List, ◌++◌, inl, inr, true,
}
use auks.Base.Words.{htonl}
use auks.Base.Results.{
  Res, ok, err, fault, Error, and_then, library_uid_not_found, daemon_processing_request,
}
use auks.Base.Memory.{Allocator}
use auks.Freelist.Size.{HasMemory}
use auks.Buffer
use auks.Buffer.{Buffer}
use auks.Buffer.View.{Split}
use auks.Buffer.Unpack.{Reads, unpack_int_lem}
use auks.Message.{Message}
use auks.Message.Packing.{NoMemory, Lacks, IsPacked, Packs, init-Packs}
use auks.Cred.{Cred}
use auks.Cred.Wire.{IsValid, wire}
use auks.Cred.RoundTrip.{send, send-Packs}
use auks.Cred.Init.{Krb}
use auks.Acl.{Role}
use auks.Repo
use auks.Repo.{Repo, Host}
use auks.Repo.Contents.{
  cred_of, IsSound, Holds, Unchanged, Finds, Discards, get-Finds, remove-Discards,
}
use auks.Repo.Replace.{HoldsBest, Puts, add-Puts}
use auks.Daemon.{
  in_repo, check, check_rw_right, reply, add_cred, get_reply, get_uid, get_req, removed, remove_uid,
  remove_req,
}
use auks.Daemon.Rights.{
  MayUse, MayAdd, IsRefusal, Decides, check_rw_right-Decides, check_add_right-Decides,
}

-- A message of that type with these bytes is made, or there is no memory.
abbrev Made : ℕ → List ℕ → Repo → Res Repo Message → Type 0
Made type zs cr (ok msg new) = IsPacked msg type zs × (new ≡ cr)
Made type zs cr (err e new) = NoMemory e × (new ≡ cr)
Made type zs cr fault = ⊥

in_repo-Made :
    (type : ℕ) (zs : List ℕ) (cr : Repo) (r : Res Message (Unit {0}))
    → Packs type zs r
    → Made type zs cr (in_repo cr r)
in_repo-Made type zs cr (ok _ msg) p = (p, refl)
in_repo-Made type zs cr (err e msg) p = (p, refl)
in_repo-Made type zs cr fault p = p

-- A repository in order with the credentials of `cr`.
pub record Steady (cr new : Repo) : Type 0 where
  pub sound : IsSound new
  pub same : (uid : ℕ) → cred_of uid new ≡ cred_of uid cr

Unchanged-Steady : (cr new : Repo) → Unchanged cr new → Steady cr new
Unchanged-Steady cr new u = record { sound = u.sound; same = u.same }

Steady-Holds :
    (uid : ℕ) (o : Option Cred) (cr mid new : Repo)
    → Steady cr mid
    → Holds uid o mid new
    → Holds uid o cr new
Steady-Holds uid o cr mid new s h = record {
  sound = h.sound;
  here = h.here;
  others = λ q hq d. h.others q hq d ∙ s.same q;
}

module _ ⦃mem : Allocator⦄ (host : Host) (krb : Krb) (stack : Cred) (principal : List ℕ)
    (role : Role) where
  -- The answer to a request for the credential of a user, who has that one, or none.
  abbrev pub GetAnswers : Repo → Option Cred → Res Repo Message → Type 0
  GetAnswers cr none (ok msg new) = ⊥
  GetAnswers cr none (err e new) = (e ≡ library_uid_not_found) × Steady cr new
  GetAnswers cr (some cred) (ok msg new) =
      MayUse principal role cred × IsPacked msg 24 (htonl 24 ++ wire cred) × Steady cr new
  GetAnswers cr (some cred) (err e new) =
      Steady cr new
      × ((MayUse principal role cred × NoMemory e × Lacks (send 24 cred))
          ⊎ ((¬ MayUse principal role cred) × IsRefusal e))
  GetAnswers cr o fault = ⊥

  -- The answer to a request to remove the credential of a user.
  abbrev pub RemoveAnswers : ℕ → Repo → Option Cred → Res Repo Message → Type 0
  RemoveAnswers uid cr none (ok msg new) = ⊥
  RemoveAnswers uid cr none (err e new) = (e ≡ library_uid_not_found) × Steady cr new
  RemoveAnswers uid cr (some cred) (ok msg new) =
      MayUse principal role cred × IsPacked msg 25 (htonl 25) × Holds uid none cr new
  RemoveAnswers uid cr (some cred) (err e new) =
      ((¬ MayUse principal role cred) × IsRefusal e × Steady cr new)
      ⊎ (MayUse principal role cred
          × ((e ≡ daemon_processing_request) ⊎ NoMemory e)
          × (Holds uid none cr new ⊎ Steady cr new))
  RemoveAnswers uid cr o fault = ⊥

  -- The answer to a request to add this credential.
  abbrev pub AddAnswers : Cred → Repo → Res Repo Message → Type 0
  AddAnswers cred cr (ok msg new) =
      MayAdd principal role cred × IsPacked msg 23 (htonl 23) × HoldsBest cred cr new
  AddAnswers cred cr (err e new) =
      ((¬ MayAdd principal role cred) × IsRefusal e × (new ≡ cr))
      ⊎ (MayAdd principal role cred × HoldsBest cred cr new)
  AddAnswers cred cr fault = ⊥

  module _ (locks : host.can_lock ≡ true) (memory : HasMemory) where
    get_reply-Answers :
        (cred : Cred) (cr mid : Repo) (o : Option Error)
        → IsValid cred
        → Steady cr mid
        → Decides (MayUse principal role cred) o
        → GetAnswers cr
            (some cred)
            (and_then (check o mid) (λ _. get_reply host krb stack principal role cred))
    unfolding get_reply send
    get_reply-Answers cred cr mid (some e) v s (no_right, refusal) = (s, inr (no_right, refusal))
    get_reply-Answers cred cr mid none v s right = go (send 24 cred) refl (send-Packs 24 cred v)
      where
        go :
            (r : Res Message (Unit {0}))
            → send 24 cred ≡ r
            → Packs 24 (htonl 24 ++ wire cred) r
            → GetAnswers cr (some cred) (in_repo mid r)
        go (ok _ msg) same p = (right, p, s)
        go (err e msg) same n = (s, inl (right, n, (e, msg, same)))
        go fault same d = d

    -- A request for the credential of a user is answered with that credential only to an
    -- administrator or to a user who owns it; everybody else gets a refusal, and a user without a
    -- credential an error. In all cases the repository keeps its credentials. The request holds
    -- the uid, the repository is in order with valid credentials, the mutex is taken and memory
    -- suffices for the library.
    pub get_req-Answers :
        (uid : ℕ) (req : Message) (xs ys : List ℕ) (cr : Repo)
        → uid < 2 ^ 32
        → Split req.buffer xs (htonl uid ++ ys)
        → IsSound cr
        → ((cred : Cred) → cred_of uid cr ≡ some cred → IsValid cred)
        → GetAnswers cr (cred_of uid cr) (get_req host krb stack principal role req cr)
    unfolding get_req get_uid Buffer.unpack_uid
    get_req-Answers uid req xs ys cr small s sound valid =
        read _ (unpack_int_lem req.buffer xs ys uid small s)
      where
        find :
            (r : Res Repo Cred)
            → Finds uid cr r
            → GetAnswers cr (cred_of uid cr) (
                and_then r λ cred cr.
                  and_then
                    (check (check_rw_right principal role cred) cr)
                    λ _. get_reply host krb stack principal role cred)
        find (ok cred new) (there, u) = rw there (
            get_reply-Answers cred cr new _ (valid cred there) (Unchanged-Steady cr new u)
              (check_rw_right-Decides principal role cred))
        find (err e new) (same, absent, u) = rw absent (same, Unchanged-Steady cr new u)
        find fault d = absurd d

        read :
            (r : Res Buffer ℕ)
            → Reads uid (xs ++ htonl uid) ys r
            → GetAnswers cr (cred_of uid cr) (get_uid host krb stack principal role r cr)
        read (ok n buf) (same, _) =
            rw same (find (Repo.get host uid cr) (get-Finds host locks memory uid cr sound))
        read (err e buf) d = absurd d
        read fault d = absurd d

    removed-Answers :
        (uid : ℕ) (cred : Cred) (cr mid : Repo) (r : Res Repo (Unit {0}))
        → MayUse principal role cred
        → Steady cr mid
        → Discards uid mid r
        → RemoveAnswers uid cr (some cred) (removed host krb stack principal role r)
    unfolding removed reply
    removed-Answers uid cred cr mid (ok _ new) right s (_, _, h) =
        go _ (in_repo-Made 25 _ new _ (init-Packs 25))
      where
        go : (r : Res Repo Message) → Made 25 (htonl 25) new r → RemoveAnswers uid cr (some cred) r
        go (ok msg last) (p, same) =
            (right, p, subst (Holds uid none cr) (sym same) (Steady-Holds uid none cr mid new s h))
        go (err e last) (n, same) = inr (
          right,
          inr n,
          inl (subst (Holds uid none cr) (sym same) (Steady-Holds uid none cr mid new s h)),
        )
        go fault d = d
    removed-Answers uid cred cr mid (err e new) right s (inl (_, _, same)) =
        inr (right, inl refl, inr (subst (Steady cr) (sym same) s))
    removed-Answers uid cred cr mid (err e new) right s (inr (inl (_, _, u))) =
        inr (right, inl refl, inr (record { sound = u.sound; same = λ q. u.same q ∙ s.same q }))
    removed-Answers uid cred cr mid (err e new) right s (inr (inr (_, _, h))) =
        inr (right, inl refl, inl (Steady-Holds uid none cr mid new s h))
    removed-Answers uid cred cr mid fault right s d = absurd d

    -- A request to remove the credential of a user removes it only for an administrator or a user
    -- who owns it, and touches no other; everybody else gets a refusal and changes nothing. Where
    -- the removal is reported to have failed, the credential is gone or nothing has changed. The
    -- request holds the uid, the repository is in order, the mutex is taken and memory suffices
    -- for the library.
    pub remove_req-Answers :
        (uid : ℕ) (req : Message) (xs ys : List ℕ) (cr : Repo)
        → uid < 2 ^ 32
        → Split req.buffer xs (htonl uid ++ ys)
        → IsSound cr
        → RemoveAnswers uid cr (cred_of uid cr) (remove_req host krb stack principal role req cr)
    unfolding remove_req remove_uid Buffer.unpack_uid
    remove_req-Answers uid req xs ys cr small s sound =
        read _ (unpack_int_lem req.buffer xs ys uid small s)
      where
        decide :
            (cred : Cred) (mid : Repo) (o : Option Error)
            → Steady cr mid
            → Decides (MayUse principal role cred) o
            → RemoveAnswers uid cr (some cred) (
                and_then
                  (check o mid)
                  λ _ cr. removed host krb stack principal role (Repo.remove host uid cr))
        decide cred mid none s right =
            removed-Answers uid cred cr mid _ right s
              (remove-Discards host locks memory uid mid small s.sound)
        decide cred mid (some e) s (no_right, refusal) = inl (no_right, refusal, s)

        find :
            (r : Res Repo Cred)
            → Finds uid cr r
            → RemoveAnswers uid cr (cred_of uid cr) (
                and_then r λ cred cr.
                  and_then
                    (check (check_rw_right principal role cred) cr)
                    λ _ cr. removed host krb stack principal role (Repo.remove host uid cr))
        find (ok cred new) (there, u) = rw there (
            decide cred new _ (Unchanged-Steady cr new u)
              (check_rw_right-Decides principal role cred))
        find (err e new) (same, absent, u) = rw absent (same, Unchanged-Steady cr new u)
        find fault d = absurd d

        read :
            (r : Res Buffer ℕ)
            → Reads uid (xs ++ htonl uid) ys r
            → RemoveAnswers uid cr (cred_of uid cr) (remove_uid host krb stack principal role r cr)
        read (ok n buf) (same, _) =
            rw same (find (Repo.get host uid cr) (get-Finds host locks memory uid cr sound))
        read (err e buf) d = absurd d
        read fault d = absurd d

    -- A credential that was decoded from a request to add it is put into the repository, in place
    -- of one of its user that it is better than and of nothing else, only if it is not bound to
    -- addresses and the client is an administrator or its owner; else the request is refused and
    -- changes nothing. Better is the one that can be renewed for longer, or for as long and does
    -- not end earlier. The uid has 32 bits, the repository is in order, the mutex is taken, memory
    -- suffices and tsearch has a node.
    pub add_cred-Answers :
        (cred : Cred) (cr : Repo)
        → host.has_node ≡ true
        → cred.info.uid < 2 ^ 32
        → IsSound cr
        → AddAnswers cred cr (add_cred host krb stack principal role (ok tt cred) cr)
    unfolding add_cred reply
    add_cred-Answers cred cr node small sound =
        decide _ (check_add_right-Decides principal role cred)
      where
        replied :
            (new : Repo) (r : Res Repo Message)
            → MayAdd principal role cred
            → HoldsBest cred cr new
            → Made 23 (htonl 23) new r
            → AddAnswers cred cr r
        replied new (ok msg last) right h (p, same) =
            (right, p, subst (HoldsBest cred cr) (sym same) h)
        replied new (err e last) right h (n, same) =
            inr (right, subst (HoldsBest cred cr) (sym same) h)
        replied new fault right h d = d

        put :
            (r : Res Repo (Unit {0}))
            → MayAdd principal role cred
            → Puts cred cr r
            → AddAnswers cred cr (and_then r λ _. reply host krb stack principal role 23)
        put (ok _ new) right h = replied new _ right h (in_repo-Made 23 _ new _ (init-Packs 23))
        put (err e new) right h = inr (right, h)
        put fault right d = absurd d

        decide :
            (o : Option Error)
            → Decides (MayAdd principal role cred) o
            → AddAnswers cred cr (
                and_then (check o cr) λ _ cr.
                  and_then (Repo.add host cred cr) λ _. reply host krb stack principal role 23)
        decide (some e) (no_right, refusal) = inl (no_right, refusal, refl)
        decide none right = put _ right (add-Puts host locks node memory cred cr small sound)
