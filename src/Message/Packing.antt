-- ===== src/Message/Packing.antt =====
-- Messages of auks_message.c that are written: what `auks_message_init` and the calls
-- `auks_message_pack_*` leave in the buffer.
use auks.Base.{ℕ, ◌<◌, ◌^◌, ◌≡◌, ◌⊎◌, refl, ap, none, some, List, [], ◌++◌, arith, length}
use auks.Base.Words.{htonl, to_int}
use auks.Base.Results.{Res, ok, err, fault, and_then, Error, buffer_malloc, buffer_realloc}
use auks.Base.Memory.{Allocator, read_at-append}
use auks.Buffer
use auks.Buffer.{Buffer}
use auks.Buffer.View.{Split, Writes, Leaves}
use auks.Buffer.Expand.{init-Leaves}
use auks.Buffer.Pack.{pack_int-Writes, pack_data-Writes}
use auks.Message.{
  Message, with_type, freed_on_error, init, pack_int, pack_uid, pack_data, pack_body, packed,
  packed_bytes,
}

-- The only errors of a call that writes.
abbrev pub NoMemory : Error → Type 0
NoMemory e = (e ≡ buffer_malloc) ⊎ (e ≡ buffer_realloc)

-- The call ends with a message of the type whose packed bytes are `zs`, or memory ran out.
abbrev pub Packs : ℕ → List ℕ → Res Message (Unit {0}) → Type 0
Packs type zs (ok _ msg) = (msg.type ≡ type) × ((ys : List ℕ) × Split msg.buffer zs ys)
Packs type zs (err e msg) = NoMemory e
Packs type zs fault = ⊥

-- The call fails.
abbrev pub Lacks : Res Message (Unit {0}) → Type 0
Lacks r = (e : Error) × (msg : Message) × (r ≡ err e msg)

-- A message that has been packed so far.
abbrev pub IsPacked : Message → ℕ → List ℕ → Type 0
IsPacked msg type zs = (msg.type ≡ type) × ((ys : List ℕ) × Split msg.buffer zs ys)

pub packed_bytes_lem :
    (msg : Message) (type : ℕ) (zs : List ℕ) → IsPacked msg type zs → packed_bytes msg ≡ some zs
unfolding packed_bytes
packed_bytes_lem msg type zs (_, (ys, s)) = simp (s.contents, s.done, read_at-append [] zs ys)

pub packed_lem :
    (msg : Message) (type : ℕ) (zs : List ℕ) → IsPacked msg type zs → packed msg ≡ length zs
unfolding packed
packed_lem msg type zs (_, (ys, s)) = s.done

-- Two calls in a row.
pub and_then-Packs :
    (r : Res Message (Unit {0})) (f : Message → Res Message (Unit {0})) (type : ℕ) (xs zs : List ℕ)
    → Packs type xs r
    → ((msg : Message) → IsPacked msg type xs → Packs type zs (f msg))
    → Packs type zs (and_then r (λ _. f))
and_then-Packs (ok _ msg) f type xs zs p next = next msg p
and_then-Packs (err e msg) f type xs zs p next = p
and_then-Packs fault f type xs zs p next = p

with_type-Packs :
    (type type' : ℕ) (zs : List ℕ) (r : Res Buffer (Unit {0}))
    → type' ≡ type
    → Writes zs r
    → Packs type zs (with_type type' r)
with_type-Packs type type' zs (ok _ buf) e w = (e, w)
with_type-Packs type type' zs (err _ buf) e w = w
with_type-Packs type type' zs fault e w = w

module _ ⦃mem : Allocator⦄ where
  pub pack_int-Packs :
      (i : ℕ) (msg : Message) (type : ℕ) (xs : List ℕ)
      → IsPacked msg type xs
      → Packs type (xs ++ htonl i) (pack_int i msg)
  unfolding pack_int
  pack_int-Packs i msg type xs (e, (ys, s)) =
      with_type-Packs type msg.type _ _ e (pack_int-Writes i msg.buffer xs ys s)

  -- A failure is that of the buffer.
  pub pack_int-err :
      (i : ℕ) (msg : Message) (e : Error) (new : Message)
      → pack_int i msg ≡ err e new
      → (buf : Buffer) × (Buffer.pack_int i msg.buffer ≡ err e buf)
  unfolding pack_int
  pack_int-err i msg e new h = go (Buffer.pack_int i msg.buffer) h
    where
      go :
          (r : Res Buffer (Unit {0}))
          → with_type msg.type r ≡ err e new
          → (buf : Buffer) × (r ≡ err e buf)
      go (ok _ buf) same = cc
      go (err x buf) same = let e_x : x ≡ e = cc in (buf, ap (λ k. err k buf) e_x)
      go fault same = cc

  pub pack_data-Packs :
      (bytes : List ℕ) (msg : Message) (type : ℕ) (xs : List ℕ)
      → length bytes < 2 ^ 31
      → IsPacked msg type xs
      → Packs type (xs ++ bytes) (pack_data bytes msg)
  unfolding pack_data
  pack_data-Packs bytes msg type xs h (e, (ys, s)) =
      with_type-Packs type msg.type _ _ e (pack_data-Writes bytes msg.buffer xs ys h s)

  -- A message that is built without a body holds its type, in network order.
  pub init-Packs : (type : ℕ) → Packs type (htonl type) (init type none 0)
  unfolding init Buffer.free_contents
  init-Packs type =
      with_type-Packs type type _ _ refl (started (Buffer.init 4) (init-Leaves 4 (omega arith)))
    where
      kept :
          (r : Res Buffer (Unit {0}))
          → Writes (htonl type) r
          → Writes (htonl type) (freed_on_error (and_then r (λ _. pack_body none 0)))
      kept (ok _ buf) w = w
      kept (err e buf) w = w
      kept fault w = w

      started :
          (r : Res Buffer (Unit {0}))
          → Leaves 4 [] r
          → Writes (htonl type) (
              and_then r (λ _ buf.
                freed_on_error (and_then (Buffer.pack_int type buf) (λ _. pack_body none 0))))
      started (ok _ buf) (ys, s, _) =
          kept (Buffer.pack_int type buf) (pack_int-Writes type buf [] ys s)
      started (err e buf) l = l
      started fault l = l

  pub pack_uid-Packs :
      (u : ℕ) (msg : Message) (type : ℕ) (xs : List ℕ)
      → IsPacked msg type xs
      → Packs type (xs ++ htonl (to_int u)) (pack_uid u msg)
  unfolding pack_uid Buffer.pack_uid
  pack_uid-Packs u msg type xs (e, (ys, s)) =
      with_type-Packs type msg.type _ _ e (pack_int-Writes (to_int u) msg.buffer xs ys s)
