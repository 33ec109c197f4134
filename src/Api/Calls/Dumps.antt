-- ===== src/Api/Calls/Dumps.antt =====
-- `auks_api_dump_unpack` of auks_api.c reads what `auks_cred_repo_pack_nolock` of auks_cred_repo.c has
-- packed.
use auks.Base.{
  ℕ, ◌+◌, ◌*◌, ◌%◌, ◌<◌, ◌^◌, ◌≡◌, refl, subst, inl, inr, true, false, Option, none, some, List, [],
  ◌∷◌, ◌++◌, append_assoc, append-nil, arith, length, length-append, All, ltb, lt→ltb, Bool-cases,
}
use auks.Base.Lists.{replicate}
use auks.Base.Words.{htonl, to_int, length-htonl}
use auks.Base.Results.{Res, ok, err, fault, and_then}
use auks.Base.Memory.{Allocator, has_memory}
use auks.Freelist.Size.{HasMemory}
use auks.Buffer.View.{Split}
use auks.Message
use auks.Message.{Message}
use auks.Message.Packing.{NoMemory, packed_bytes_lem}
use auks.Message.Unpacking.{Delivers, Receives, unpack_int-Delivers, load-Receives}
use auks.Cred.{Cred, unpack}
use auks.Cred.Wire.{IsValid, wire, length-wire}
use auks.Cred.Read.{unpack_lem}
use auks.Library.Stock
use auks.Repo.{Repo, Host, cred_size}
use auks.Repo.Walk.{Dump, pack_nolock}
use auks.Repo.Walk.Packed.{
  creds_of, wires, SameTree, Dumps, HasRoom, length-creds_of, pack_nolock-Dumps,
}
use auks.Api.{Engine, Network}
use auks.Api.Calls.{unpack_creds, unpack_counted, dump_unpack}

length-wires : (creds : List Cred) → All IsValid creds → length (wires creds) ≡ 32937 * length creds
length-wires [] v = omega arith
length-wires (cred ∷ creds) (v, vs) =
    omega
      (arith, length-append (wire cred) (wires creds), length-wire cred v, length-wires creds vs)

module _ ⦃mem : Allocator⦄ (net : Network) (engine : Engine) where
  -- The credentials are read, or there is no memory for them.
  abbrev pub Unpacks : List Cred → Res Message (Option (List Cred)) → Type 0
  Unpacks creds (ok (some cs) msg) = cs ≡ creds
  Unpacks creds (ok none msg) = has_memory (length creds * cred_size) ≡ false
  Unpacks creds (err e msg) = ⊥
  Unpacks creds fault = ⊥

  unpack_creds-Delivers :
      (creds : List Cred) (msg : Message) (type : ℕ) (xs ys : List ℕ)
      → All IsValid creds
      → msg.type ≡ type
      → Split msg.buffer xs (wires creds ++ ys)
      → Delivers creds type (xs ++ wires creds) ys (unpack_creds net engine (length creds) msg)
  unfolding unpack_creds
  unpack_creds-Delivers [] msg type xs ys v t s = rw (append-nil xs) (refl, t, s)
  unpack_creds-Delivers (cred ∷ creds) msg type xs ys (v, vs) t s =
      rw (← append_assoc xs (wire cred) (wires creds)) (
        first (unpack msg)
          (unpack_lem cred msg type xs (wires creds ++ ys) v t
            (rw (← append_assoc (wire cred) (wires creds) ys) s))
          λ m t s. unpack_creds-Delivers creds m type (xs ++ wire cred) ys vs t s)
    where
      rest :
          (c : Cred) (r : Res Message (List Cred))
          → c ≡ cred
          → Delivers creds type (xs ++ wire cred ++ wires creds) ys r
          → Delivers
              (cred ∷ creds)
              type
              (xs ++ wire cred ++ wires creds)
              ys
              (and_then r (λ cs. ok (c ∷ cs)))
      rest c (ok cs m) same (e, t, s) = (cc, t, s)
      rest c (err e m) same d = d
      rest c fault same d = d

      first :
          (r : Res Message Cred)
          → Delivers cred type (xs ++ wire cred) (wires creds ++ ys) r
          → ((m : Message)
              → m.type ≡ type
              → Split m.buffer (xs ++ wire cred) (wires creds ++ ys)
              → Delivers creds type
                  (xs ++ wire cred ++ wires creds)
                  ys
                  (unpack_creds net engine (length creds) m))
          → Delivers (cred ∷ creds) type (xs ++ wire cred ++ wires creds) ys (
              and_then r
                λ c m. and_then (unpack_creds net engine (length creds) m) λ cs. ok (c ∷ cs))
      first (ok c m) (e, t, s) k = rest c _ e (k m t s)
      first (err e m) d k = d
      first fault d k = d

  unpack_counted-Unpacks :
      (creds : List Cred) (msg : Message) (type : ℕ) (xs ys : List ℕ)
      → length creds < 2 ^ 31
      → All IsValid creds
      → msg.type ≡ type
      → Split msg.buffer xs (wires creds ++ ys)
      → Unpacks creds (unpack_counted net engine (length creds) msg)
  unfolding unpack_counted
  unpack_counted-Unpacks creds msg type xs ys small v t s =
      let positive : ltb (length creds) (2 ^ 31) ≡ true = lt→ltb _ _ small in
      let size : length creds * cred_size % 2 ^ 64 ≡ length creds * cred_size = omega arith in
      elim (Bool-cases (has_memory (length creds * cred_size))) [
        | inl m ↦
            rw (positive, size, m)
              (all (unpack_creds net engine (length creds) msg)
                (unpack_creds-Delivers creds msg type xs ys v t s))
        | inr m ↦ rw (positive, size, m) m
      ]
    where
      all :
          (r : Res Message (List Cred))
          → Delivers creds type (xs ++ wires creds) ys r
          → Unpacks creds (and_then r (λ cs. ok (some cs)))
      all (ok cs m) (e, _, _) = e
      all (err e m) d = d
      all fault d = d

  -- What a client makes of a dump: these credentials, or memory is short on its side.
  abbrev pub Restores : List Cred → Res Message (Option (List Cred)) → Type 0
  Restores creds (ok (some cs) msg) = cs ≡ creds
  Restores creds (ok none msg) = has_memory (length creds * cred_size) ≡ false
  Restores creds (err e msg) = NoMemory e
  Restores creds fault = ⊥

  restored :
      (creds : List Cred) (type n : ℕ) (msg : Message)
      → length creds < 2 ^ 31
      → All IsValid creds
      → msg.type ≡ type
      → Split msg.buffer (htonl type) (htonl (length creds) ++ wires creds ++ replicate n 0)
      → Restores creds (dump_unpack net engine msg)
  unfolding dump_unpack
  restored creds type n msg small v t s = go _ (
      unpack_int-Delivers (length creds) msg type (htonl type) (wires creds ++ replicate n 0)
        (omega arith) t
        (rw (← append_assoc (htonl (length creds)) (wires creds) (replicate n 0)) s))
    where
      end : (r : Res Message (Option (List Cred))) → Unpacks creds r → Restores creds r
      end (ok (some cs) m) u = u
      end (ok none m) u = u
      end (err e m) u = absurd u
      end fault u = u

      go :
          (r : Res Message ℕ)
          → Delivers
              (length creds)
              type
              (htonl type ++ htonl (length creds))
              (wires creds ++ replicate n 0)
              r
          → Restores creds (and_then r (unpack_counted net engine))
      go (ok k m) (same, t, s) =
          rw same (end _ (unpack_counted-Unpacks creds m type _ (replicate n 0) small v t s))
      go (err e m) d = absurd d
      go fault d = absurd d

  -- `auks_message_load` and `auks_api_dump_unpack`.
  pub restore : List ℕ → Res Message (Option (List Cred))
  restore bytes = and_then (Message.load bytes) (λ _. dump_unpack net engine)

  restore-Restores :
      (creds : List Cred) (type : ℕ)
      → type < 2 ^ 32
      → 32937 * length creds + 8 < 2 ^ 31
      → All IsValid creds
      → Restores creds (restore (htonl type ++ (htonl (length creds) ++ wires creds)))
  unfolding restore
  restore-Restores creds type small size v = go _ (
      load-Receives type (htonl (length creds) ++ wires creds) small (
        omega (
          arith,
          length-append (htonl (length creds)) (wires creds),
          length-htonl (length creds),
          length-wires creds v,
        )))
    where
      go :
          (r : Res Message (Unit {0}))
          → Receives type (htonl (length creds) ++ wires creds) r
          → Restores creds (and_then r (λ _. dump_unpack net engine))
      go (ok _ msg) (t, (n, s)) = restored creds type n msg (omega arith) v t s
      go (err e msg) n = n
      go fault d = d

  -- The message of a dump is sent, and what a client restores from it is in the repository.
  abbrev pub Transfers : Repo → Res Dump (Unit {0}) → Type 0
  Transfers cr (ok _ d) =
      (bytes : List ℕ) × (Message.packed_bytes d.message ≡ some bytes)
      × Restores (creds_of cr) (restore bytes)
  Transfers cr (err e d) = SameTree cr d.repo
  Transfers cr fault = ⊥

  -- A dump of the repository that auks_cred_repo_pack_nolock packs into a message is read back by
  -- auks_message_load and auks_api_dump_unpack: exactly its credentials in their order, unless the
  -- client has no memory; or the packing reports an error and leaves the tree of the library. The
  -- credentials are valid, less than 2 ^ 31 bytes in all, the library is in order, memory suffices
  -- for it, and the message has room for the number.
  pub restore-pack_nolock :
      (host : Host) (cr : Repo) (msg : Message) (type : ℕ)
      → HasMemory
      → Stock.IsSound cr.library
      → All IsValid (creds_of cr)
      → type < 2 ^ 32
      → 32937 * length (creds_of cr) + 8 < 2 ^ 31
      → HasRoom msg type (htonl type)
      → Transfers cr (pack_nolock host (record { repo = cr; message = msg }))
  restore-pack_nolock host cr msg type memory sound valid small size room =
      let whole : to_int (length cr.library.root) ≡ length (creds_of cr) =
        omega (arith, length-creds_of cr) in
      go (pack_nolock host (record { repo = cr; message = msg })) (
        subst
          (λ k.
            Dumps host memory cr type (htonl type ++ (htonl k ++ wires (creds_of cr)))
              (pack_nolock host (record { repo = cr; message = msg })))
          whole
          (pack_nolock-Dumps host memory cr msg type (htonl type) sound.keyed valid sound room))
    where
      go :
          (r : Res Dump (Unit {0}))
          → Dumps host memory cr type
              (htonl type ++ (htonl (length (creds_of cr)) ++ wires (creds_of cr)))
              r
          → Transfers cr r
      go (ok _ d) (q, s) = (
        htonl type ++ (htonl (length (creds_of cr)) ++ wires (creds_of cr)),
        packed_bytes_lem d.message type _ q,
        restore-Restores (creds_of cr) type small size valid,
      )
      go (err e d) (_, s) = s
      go fault h = h
