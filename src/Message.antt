-- ===== src/Message.antt =====
-- src/api/auks/auks_message.c: a request or a reply is a buffer that begins with its type.
pub mod Packing
pub mod Unpacking
use auks.Base.{ℕ, Bool, true, false, Option, none, some, List, length, ◌==◌, if◌then◌else◌}
use auks.Base.Words.{to_int, add_size, sub_size}
use auks.Base.Results.{
  Res, ok, err, fault, Act, and_then, ◌>>=◌, ◌>>◌, pure, opt_then, or_fault, message_malloc,
}
use auks.Base.Memory.{Allocator, read_at}
use auks.Buffer
use auks.Buffer.{Buffer}

-- `enum AUKS_MESSAGE_TYPE`
abbrev pub ping_request : ℕ
ping_request = 0

abbrev pub list_request : ℕ
list_request = 1

abbrev pub add_request : ℕ
add_request = 2

abbrev pub get_request : ℕ
get_request = 3

abbrev pub remove_request : ℕ
remove_request = 4

abbrev pub close_request : ℕ
close_request = 5

abbrev pub dump_request : ℕ
dump_request = 6

abbrev pub ping_reply : ℕ
ping_reply = 20

abbrev pub error_reply : ℕ
error_reply = 21

abbrev pub add_reply : ℕ
add_reply = 23

abbrev pub get_reply : ℕ
get_reply = 24

abbrev pub remove_reply : ℕ
remove_reply = 25

abbrev pub dump_reply : ℕ
dump_reply = 26

-- `auks_message_t`
pub record Message : Type 0 where
  pub type : ℕ
  pub buffer : Buffer

-- A call on `&msg->buffer`.
abbrev pub with_type : {A : Type 0} → ℕ → Res Buffer A → Res Message A
with_type type (ok a buf) = ok a (record { type = type; buffer = buf })
with_type type (err e buf) = err e (record { type = type; buffer = buf })
with_type type fault = fault

abbrev pub on_buffer : {A : Type 0} → Act Buffer A → Act Message A
on_buffer call msg = with_type msg.type (call msg.buffer)

-- `auks_message_free_contents`
pub free_contents : Act Message (Unit {0})
free_contents msg = with_type ping_request (Buffer.free_contents msg.buffer)

-- The label `buf_exit`: what has failed is freed.
abbrev pub freed_on_error : {A : Type 0} → Res Buffer A → Res Buffer A
freed_on_error (ok a buf) = ok a buf
freed_on_error (err e buf) = and_then (Buffer.free_contents buf) (λ _. err e)
freed_on_error fault = fault

-- The end of `auks_message_load`: the type was unpacked, or the buffer is freed.
abbrev pub loaded : Message → Res Buffer ℕ → Res Message (Unit {0})
loaded msg (ok type buf) = ok tt (record { type = type; buffer = buf })
loaded msg (err e buf) = with_type msg.type (freed_on_error (err e buf))
loaded msg fault = fault

module _ ⦃mem : Allocator⦄ where
  -- The body of a message, where there is one, behind its length.
  pub pack_body : Option (List ℕ) → ℕ → Act Buffer (Unit {0})
  pack_body none size = pure tt
  pack_body (some bytes) size =
      if size == 0 then pure tt else Buffer.pack_int (to_int size) >> Buffer.pack_data bytes

  -- `auks_message_init`; a body is the `size` bytes that `buffer` points to.
  pub init : ℕ → Option (List ℕ) → ℕ → Res Message (Unit {0})
  unfolding pack_body
  init type body size = with_type type (
      and_then (Buffer.init (add_size 4 size))
        λ _ buf. freed_on_error ((Buffer.pack_int type >> pack_body body size) buf))

  -- `auks_message_load`
  pub load : List ℕ → Res Message (Unit {0})
  load bytes =
      and_then (with_type ping_request (Buffer.load bytes))
        λ _ msg. loaded msg (Buffer.unpack_int msg.buffer)

  -- `auks_message_marshall`: a copy of the packed bytes.
  pub marshall : Act Message (List ℕ)
  marshall msg = elim (mem.malloc msg.buffer.processed) [
    | none ↦ err message_malloc msg
    | some _ ↦ or_fault (opt_then msg.buffer.bytes (λ old. read_at old 0 msg.buffer.processed)) msg
  ]

  -- `auks_message_pack_int`, `auks_message_pack_uid`, `auks_message_pack_data`
  pub pack_int : ℕ → Act Message (Unit {0})
  pack_int i = on_buffer (Buffer.pack_int i)

  pub pack_uid : ℕ → Act Message (Unit {0})
  pack_uid u = on_buffer (Buffer.pack_uid u)

  pub pack_data : List ℕ → Act Message (Unit {0})
  pack_data bytes = on_buffer (Buffer.pack_data bytes)

-- `auks_message_packed`
pub packed : Message → ℕ
packed msg = msg.buffer.processed

-- `auks_message_unpacked`
pub unpacked : Message → ℕ
unpacked msg = sub_size msg.buffer.length msg.buffer.processed

-- The bytes at `auks_message_data (msg)`, as many as are packed: what is sent.
pub packed_bytes : Message → Option (List ℕ)
unfolding packed
packed_bytes msg = opt_then msg.buffer.bytes (λ old. read_at old 0 (packed msg))

-- `auks_message_unpack_int`, `auks_message_unpack_uid`, `auks_message_unpack_data`
pub unpack_int : Act Message ℕ
unpack_int = on_buffer Buffer.unpack_int

pub unpack_uid : Act Message ℕ
unpack_uid = on_buffer Buffer.unpack_uid

pub unpack_data : ℕ → Act Message (List ℕ)
unpack_data size = on_buffer (Buffer.unpack_data size)
