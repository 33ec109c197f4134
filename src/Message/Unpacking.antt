-- ===== src/Message/Unpacking.antt =====
-- Messages of auks_message.c that are received: `auks_message_load` and the calls
-- `auks_message_unpack_*`.
use auks.Base.{ℕ, ◌+◌, ◌≤◌, ◌<◌, ◌^◌, ◌≡◌, List, [], ◌++◌, arith, length, append_assoc, replicate}
use auks.Base.Words.{htonl}
use auks.Base.Results.{Res, ok, err, fault, and_then}
use auks.Base.Memory.{Allocator}
use auks.Buffer
use auks.Buffer.{Buffer}
use auks.Buffer.View.{Split}
use auks.Buffer.Pack.{Loads, load-Loads}
use auks.Buffer.Unpack.{Reads, unpack_int_lem, unpack_data_lem}
use auks.Message.{Message, with_type, loaded, load, unpack_int, unpack_uid, unpack_data}
use auks.Message.Packing.{NoMemory}

-- The call ends in a message with `xs` read and `ys` to be read.
abbrev pub Delivers : {A : Type 0} → A → ℕ → List ℕ → List ℕ → Res Message A → Type 0
Delivers a type xs ys (ok b msg) = (b ≡ a) × (msg.type ≡ type) × Split msg.buffer xs ys
Delivers a type xs ys (err e msg) = ⊥
Delivers a type xs ys fault = ⊥

-- What a receiver makes of `type` and the bytes behind it.
abbrev pub Receives : ℕ → List ℕ → Res Message (Unit {0}) → Type 0
Receives type rest (ok _ msg) =
    (msg.type ≡ type) × ((n : ℕ) × Split msg.buffer (htonl type) (rest ++ replicate n 0))
Receives type rest (err e msg) = NoMemory e
Receives type rest fault = ⊥

with_type-Delivers :
    {A : Type 0} (a : A) (type type' : ℕ) (xs ys : List ℕ) (r : Res Buffer A)
    → type' ≡ type
    → Reads a xs ys r
    → Delivers a type xs ys (with_type type' r)
with_type-Delivers a type type' xs ys (ok b buf) e (same, s) = (same, e, s)
with_type-Delivers a type type' xs ys (err _ buf) e w = w
with_type-Delivers a type type' xs ys fault e w = w

pub unpack_int-Delivers :
    (i : ℕ) (msg : Message) (type : ℕ) (xs ys : List ℕ)
    → i < 2 ^ 32
    → msg.type ≡ type
    → Split msg.buffer xs (htonl i ++ ys)
    → Delivers i type (xs ++ htonl i) ys (unpack_int msg)
unfolding unpack_int
unpack_int-Delivers i msg type xs ys h e s =
    with_type-Delivers i type msg.type _ ys _ e (unpack_int_lem msg.buffer xs ys i h s)

pub unpack_uid-Delivers :
    (u : ℕ) (msg : Message) (type : ℕ) (xs ys : List ℕ)
    → u < 2 ^ 32
    → msg.type ≡ type
    → Split msg.buffer xs (htonl u ++ ys)
    → Delivers u type (xs ++ htonl u) ys (unpack_uid msg)
unfolding unpack_uid Buffer.unpack_uid
unpack_uid-Delivers u msg type xs ys h e s =
    with_type-Delivers u type msg.type _ ys _ e (unpack_int_lem msg.buffer xs ys u h s)

-- A size that wraps is accepted, and the copy leaves the buffer.
pub unpack_data_wraps :
    (n : ℕ) (msg : Message) (xs ys : List ℕ)
    → n < 2 ^ 64
    → 2 ^ 64 ≤ length xs + n
    → Split msg.buffer xs ys
    → unpack_data n msg ≡ fault
unfolding unpack_data
unpack_data_wraps n msg xs ys small over s =
    rw (Buffer.Unpack.unpack_data_wraps n msg.buffer xs ys small over s)

pub unpack_data-Delivers :
    (bytes : List ℕ) (n : ℕ) (msg : Message) (type : ℕ) (xs ys : List ℕ)
    → n ≡ length bytes
    → msg.type ≡ type
    → Split msg.buffer xs (bytes ++ ys)
    → Delivers bytes type (xs ++ bytes) ys (unpack_data n msg)
unfolding unpack_data
unpack_data-Delivers bytes n msg type xs ys h e s =
    with_type-Delivers bytes type msg.type _ ys _ e (unpack_data_lem msg.buffer xs bytes ys n s h)

-- What holds of the call that follows one that reads, holds of both in a row.
pub after :
    {A B : Type 0} (P : Res Message B → Type 0) (r : Res Message A)
    (f : A → Message → Res Message B) (a : A) (type : ℕ) (xs ys : List ℕ)
    → Delivers a type xs ys r
    → ((msg : Message) → msg.type ≡ type → Split msg.buffer xs ys → P (f a msg))
    → P (and_then r f)
after P (ok c msg) f a type xs ys (same, e, s) next = rw same (next msg e s)
after P (err e msg) f a type xs ys d next = absurd d
after P fault f a type xs ys d next = absurd d

module _ ⦃mem : Allocator⦄ where
  -- A message of less than 2 ^ 31 bytes that is loaded has the type and the bytes that were sent,
  -- followed by zeros, or there is no memory.
  pub load-Receives :
      (type : ℕ) (rest : List ℕ)
      → type < 2 ^ 32
      → length rest + 4 < 2 ^ 31
      → Receives type rest (load (htonl type ++ rest))
  unfolding load
  load-Receives type rest small fits =
      go (Buffer.load (htonl type ++ rest))
        (load-Loads (htonl type ++ rest) (unfold htonl in omega arith))
    where
      typed :
          (n : ℕ) (msg : Message) (r : Res Buffer ℕ)
          → Reads type (htonl type) (rest ++ replicate n 0) r
          → Receives type rest (loaded msg r)
      typed n msg (ok t buf) (e, s) = (e, (n, s))
      typed n msg (err e buf) r = absurd r
      typed n msg fault r = absurd r

      go :
          (r : Res Buffer (Unit {0}))
          → Loads (htonl type ++ rest) r
          → Receives type rest
              (and_then (with_type 0 r) (λ _ msg. loaded msg (Buffer.unpack_int msg.buffer)))
      go (ok _ buf) (n, s) =
          typed n (record { type = 0; buffer = buf }) (Buffer.unpack_int buf)
            (unpack_int_lem buf [] (rest ++ replicate n 0) type small
              (rw (← append_assoc (htonl type) rest (replicate n 0)) s))
      go (err e buf) l = l
      go fault l = l
