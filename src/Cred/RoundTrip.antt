-- ===== src/Cred/RoundTrip.antt =====
-- A credential of auks_cred.c on its way: packed into a new message by one side, loaded and
-- unpacked by the other.
use auks.Base.{ℕ, ◌<◌, ◌^◌, ◌≡◌, some, none, List, ◌++◌, arith}
use auks.Base.Lists.{replicate}
use auks.Base.Words.{htonl}
use auks.Base.Results.{Res, ok, err, fault, and_then}
use auks.Base.Memory.{Allocator}
use auks.Message.{Message, init, load, packed_bytes}
use auks.Message.Packing.{NoMemory, Packs, and_then-Packs, init-Packs, packed_bytes_lem}
use auks.Message.Unpacking.{Delivers, Receives, load-Receives}
use auks.Cred.{Cred, pack, unpack}
use auks.Cred.Wire.{IsValid, wire, length-wire, pack-Packs}
use auks.Cred.Read.{unpack_lem}

module _ ⦃mem : Allocator⦄ where
  -- `auks_message_init` and `auks_cred_pack`, as `_auksd_get_req` calls them.
  unfoldable pub send : ℕ → Cred → Res Message (Unit {0})
  send type cred = and_then (init type none 0) (λ _. pack cred)

  -- `auks_message_load` and `auks_cred_unpack`, as a receiver calls them.
  pub receive : List ℕ → Res Message Cred
  receive bytes = and_then (load bytes) (λ _. unpack)

  -- The receiver has the credential and the type, or it has no memory.
  abbrev pub Received : ℕ → Cred → Res Message Cred → Type 0
  Received type cred (ok c msg) = (c ≡ cred) × (msg.type ≡ type)
  Received type cred (err e msg) = NoMemory e
  Received type cred fault = ⊥

  pub send-Packs :
      (type : ℕ) (cred : Cred)
      → IsValid cred
      → Packs type (htonl type ++ wire cred) (send type cred)
  unfolding send
  send-Packs type cred v =
      and_then-Packs _ (pack cred) type _ _ (init-Packs type)
        λ msg p. pack-Packs cred msg type _ v p

  unpacked :
      (type : ℕ) (cred : Cred) (xs ys : List ℕ) (r : Res Message Cred)
      → Delivers cred type xs ys r
      → Received type cred r
  unpacked type cred xs ys (ok c msg) (same, e, s) = (same, e)
  unpacked type cred xs ys (err e msg) d = absurd d
  unpacked type cred xs ys fault d = absurd d

  pub receive-wire :
      (type : ℕ) (cred : Cred)
      → type < 2 ^ 32
      → IsValid cred
      → Received type cred (receive (htonl type ++ wire cred))
  unfolding receive
  receive-wire type cred small v =
      go (load (htonl type ++ wire cred))
        (load-Receives type (wire cred) small (omega (arith, length-wire cred v)))
    where
      go :
          (r : Res Message (Unit {0}))
          → Receives type (wire cred) r
          → Received type cred (and_then r (λ _. unpack))
      go (ok _ msg) (e, (n, s)) =
          unpacked type cred _ _ (unpack msg) (unpack_lem cred msg type _ (replicate n 0) v e s)
      go (err e msg) n = n
      go fault n = n

  -- A message that was sent with the credential, received again; or there was no memory to send it.
  abbrev pub Arrives : ℕ → Cred → Res Message (Unit {0}) → Type 0
  Arrives type cred (ok _ msg) =
      (bytes : List ℕ) × (packed_bytes msg ≡ some bytes) × Received type cred (receive bytes)
  Arrives type cred (err e msg) = NoMemory e
  Arrives type cred fault = ⊥

  -- A valid credential that is packed into a new message, sent, loaded and unpacked is the same
  -- credential in a message of the same type, unless one side has no memory.
  pub receive-send :
      (type : ℕ) (cred : Cred) → type < 2 ^ 32 → IsValid cred → Arrives type cred (send type cred)
  receive-send type cred small v = go (send type cred) (send-Packs type cred v)
    where
      go :
          (r : Res Message (Unit {0}))
          → Packs type (htonl type ++ wire cred) r
          → Arrives type cred r
      go (ok _ msg) packed = (
        htonl type ++ wire cred,
        packed_bytes_lem msg type _ packed,
        receive-wire type cred small v,
      )
      go (err e msg) n = n
      go fault d = d
