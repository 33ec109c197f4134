-- ===== src/Buffer.antt =====
-- src/api/auks/auks_buffer.c: a byte buffer with a position up to which it is filled or read.
pub mod View
pub mod Expand
pub mod Pack
pub mod Unpack
pub mod Room
use auks.Base.{
  ℕ, ◌*◌, ◌%◌, ◌^◌, Bool, true, false, Option, none, some, List, length, replicate, ltb, leb, ◌==◌,
  if◌then◌else◌,
}
use auks.Base.Words.{to_int, to_size, add_size, sub_size, div_int, htonl, ntohl}
use auks.Base.Results.{
  Res, ok, err, fault, Act, and_then, ◌>>=◌, ◌>>◌, pure, opt_then, or_fault, error, buffer_malloc,
  buffer_realloc,
}
use auks.Base.Memory.{Allocator, write_at, read_at}

-- `auks_buffer_t`; `bytes` is what `data` points to, `none` for NULL.
pub record Buffer : Type 0 where
  pub bytes : Option (List ℕ)
  pub length : ℕ
  pub processed : ℕ

abbrev pub block_size : ℕ
block_size = 1024

-- `BLOCK_SIZE * ((int) length / BLOCK_SIZE)`, and one block more for a remainder.
grown_length : ℕ → ℕ → ℕ
grown_length old length =
    let whole = add_size old (to_size (block_size * div_int (to_int length) block_size % 2 ^ 32)) in
    if length % block_size == 0 then whole else add_size whole block_size

-- `buf->data` after a write; `none` is a write out of bounds or through NULL.
written : Option (List ℕ) → Act Buffer (Unit {0})
written none buf = fault
written (some new) buf = ok tt (record buf { bytes = some new })

-- `memcpy (buf->data + offset, bytes, length bytes)`
store : ℕ → List ℕ → Act Buffer (Unit {0})
unfolding written
store offset bytes buf = written (opt_then buf.bytes (λ old. write_at old offset bytes)) buf

-- `memset (buf->data + offset, 0, buf->length - offset)`
clear_from : ℕ → Act Buffer (Unit {0})
clear_from offset buf = store offset (replicate (sub_size buf.length offset) 0) buf

-- `buf->processed += size`
advance : ℕ → Act Buffer (Unit {0})
advance size buf = ok tt (record buf { processed = add_size buf.processed size })

-- `memcpy (buf->data + buf->processed, bytes, …)`, and `processed` moves behind it.
store_next : List ℕ → Act Buffer (Unit {0})
store_next bytes buf = (store buf.processed bytes >> advance (length bytes)) buf

-- `memcpy (…, buf->data + buf->processed, size)`, and `processed` moves behind it.
fetch_next : ℕ → Act Buffer (List ℕ)
fetch_next size buf =
    and_then (or_fault (opt_then buf.bytes (λ old. read_at old buf.processed size)) buf)
      λ bytes. advance size >> pure bytes

-- `buf->data` after `realloc` and after `malloc`, each with its error code.
reallocated : Option (List ℕ) → Act Buffer (Unit {0})
reallocated none buf = err buffer_realloc (record buf { bytes = none })
reallocated (some new) buf = ok tt (record buf { bytes = some new })

allocated : Option (List ℕ) → Act Buffer (Unit {0})
allocated none buf = err buffer_malloc (record buf { bytes = none })
allocated (some new) buf = ok tt (record buf { bytes = some new })

module _ ⦃mem : Allocator⦄ where
  -- The last part of `_auks_buffer_expand`: `realloc`, `malloc` or nothing.
  allocate : Bool → Option (List ℕ) → Act Buffer (Unit {0})
  allocate true (some old) buf = reallocated (mem.realloc old buf.length) buf
  allocate false (some old) buf = ok tt buf
  allocate _ none buf = allocated (mem.malloc buf.length) buf

  -- `_auks_buffer_expand`
  pub expand : ℕ → Act Buffer (Unit {0})
  expand length buf =
      if ltb (sub_size buf.length buf.processed) length
      then allocate true buf.bytes (record buf { length = grown_length buf.length length })
      else allocate false buf.bytes buf

  -- `auks_buffer_init`: what the structure held before is not read.
  pub init : ℕ → Res Buffer (Unit {0})
  init length = expand length (record { bytes = none; length = block_size; processed = 0 })

  -- `auks_buffer_load`: copy the data to the front and zero the rest.
  pub load : List ℕ → Res Buffer (Unit {0})
  unfolding init
  load bytes = and_then (init (length bytes)) λ _. store 0 bytes >> clear_from (length bytes)

  -- `auks_buffer_pack_data`
  pub pack_data : List ℕ → Act Buffer (Unit {0})
  pack_data bytes = expand (length bytes) >> store_next bytes

  -- `auks_buffer_pack_int`
  pub pack_int : ℕ → Act Buffer (Unit {0})
  pack_int i = expand 4 >> store_next (htonl i)

  -- `auks_buffer_pack_uid`
  unfoldable pub pack_uid : ℕ → Act Buffer (Unit {0})
  pack_uid u = pack_int (to_int u)

-- `auks_buffer_free_contents`
unfoldable pub free_contents : Act Buffer (Unit {0})
free_contents buf = ok tt (record { bytes = none; length = 0; processed = 0 })

-- `auks_buffer_unpack_data`
pub unpack_data : ℕ → Act Buffer (List ℕ)
unpack_data size buf =
    if leb (add_size buf.processed size) buf.length then fetch_next size buf else err error buf

-- `auks_buffer_unpack_int`
pub unpack_int : Act Buffer ℕ
unpack_int buf =
    if leb (add_size buf.processed 4) buf.length
    then (fetch_next 4 >>= λ bytes. pure (ntohl bytes)) buf
    else err error buf

-- `auks_buffer_unpack_uid`
unfoldable pub unpack_uid : Act Buffer ℕ
unpack_uid = unpack_int
