-- ===== src/Cred/Wrap.antt =====
-- A hole in the bounds tests of `auks_cred_unpack` (auks_cred.c) and `auks_buffer_unpack_data`
-- (auks_buffer.c): a negative maximal length.
use auks.Base.{
  ℕ, ◌+◌, ◌-◌, ◌≤◌, ◌<◌, ◌^◌, ◌≡◌, refl, ◌∙◌, List, ◌++◌, arith, length, length-append, false,
  le→ltb_false,
}
use auks.Base.Words.{htonl, to_size, lt_int, length-htonl}
use auks.Base.Results.{fault, Res}
use auks.Buffer.View.{Split}
use auks.Message.{Message}
use auks.Message.Unpacking.{unpack_data_wraps}
use auks.Cred.{Cred, CredInfo, unpack, unpack_contents}
use auks.Cred.Wire.{Fits, wire_info, length-wire_info}
use auks.Cred.Read.{int_then, read_info}

abbrev Faults : Res Message Cred → Type 0
Faults r = r ≡ fault

unpack_contents_wraps :
    (info : CredInfo) (i size : ℕ) (msg : Message) (type : ℕ) (xs ys : List ℕ)
    → 2 ^ 31 ≤ i
    → i < 2 ^ 32
    → 2 ^ 32 ≤ i + length xs + 8
    → size ≤ 32768
    → msg.type ≡ type
    → Split msg.buffer xs (htonl i ++ (htonl size ++ ys))
    → Faults (unpack_contents info msg)
unfolding unpack_contents
unpack_contents_wraps info i size msg type xs ys neg small back ok_size t s =
    let passes : lt_int 32768 i ≡ false = ground arith in
    let wide : to_size i ≡ i + (2 ^ 64 - 2 ^ 32) = ground arith in
    let read = xs ++ htonl i ++ htonl size in
    let far : 2 ^ 64 ≤ length read + (i + (2 ^ 64 - 2 ^ 32)) = omega (
      arith,
      length-append (xs ++ htonl i) (htonl size),
      length-append xs (htonl i),
      length-htonl i,
      length-htonl size,
    ) in
    int_then Faults _ i msg type xs _ small t s λ m t s. rw passes (
      int_then Faults _ size m type _ ys (omega arith) t s λ m t s. rw (
        le→ltb_false 32768 size ok_size,
        wide,
        unpack_data_wraps (i + (2 ^ 64 - 2 ^ 32)) m read ys (omega arith) far s,
      ))

-- A credential on the wire whose maximal length is a negative number of at most as many bytes as
-- stand before it and with it, and whose length is allowed, passes every test of auks_cred_unpack
-- and makes it copy out of bounds.
pub unpack_negative :
    (info : CredInfo) (i size : ℕ) (msg : Message) (xs ys : List ℕ)
    → Fits info
    → i < 2 ^ 32
    → 2 ^ 32 ≤ i + length xs + 165
    → length xs < 2 ^ 30
    → size ≤ 32768
    → Split msg.buffer xs (wire_info info ++ (htonl i ++ (htonl size ++ ys)))
    → unpack msg ≡ fault
unpack_negative info i size msg xs ys v small back short ok_size s =
    let (m, e, t, s) = read_info info msg msg.type xs _ v refl s in
    let before = length-append xs (wire_info info) in
    e
    ∙ unpack_contents_wraps info i size m msg.type _ ys (omega arith) small
        (omega (arith, before, length-wire_info info v)) ok_size t s
