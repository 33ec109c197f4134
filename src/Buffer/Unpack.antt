-- ===== src/Buffer/Unpack.antt =====
-- `auks_buffer_unpack_int` and `auks_buffer_unpack_data` of auks_buffer.c: what they read, and
-- when they refuse.
use auks.Base.{
  ℕ, ◌+◌, ◌≤◌, ◌<◌, ◌^◌, ◌≡◌, refl, sym, List, ◌++◌, arith, length, take, drop, length-append,
  length-take, take-append-drop, leb, Bool-cases, inl, inr, le→leb, lt→leb_false,
}
use auks.Base.Words.{add_size, htonl, ntohl-htonl}
use auks.Base.Results.{Res, ok, err, fault, error}
use auks.Base.Memory.{read_at-append, read_at_over}
use auks.Buffer.{Buffer, advance, fetch_next, unpack_data, unpack_int}
use auks.Buffer.View.{Split}
use auks.Buffer.Pack.{advance-Split}

-- A call that reads hands out the bytes `bytes` and moves over them.
abbrev pub Reads : {A : Type 0} → A → List ℕ → List ℕ → Res Buffer A → Type 0
Reads a xs ys (ok b buf) = (b ≡ a) × Split buf xs ys
Reads a xs ys (err e buf) = ⊥
Reads a xs ys fault = ⊥

fetch_next_lem :
    (buf : Buffer) (xs bytes ys : List ℕ) (n : ℕ)
    → Split buf xs (bytes ++ ys)
    → n ≡ length bytes
    → fetch_next n buf ≡ ok bytes (record buf { processed = add_size buf.processed (length bytes) })
unfolding fetch_next advance
fetch_next_lem buf xs bytes ys n s h = simp (s.contents, s.done, h, read_at-append xs bytes ys)

-- What is asked for is there: it is read.
pub unpack_data_lem :
    (buf : Buffer) (xs bytes ys : List ℕ) (n : ℕ)
    → Split buf xs (bytes ++ ys)
    → n ≡ length bytes
    → Reads bytes (xs ++ bytes) ys (unpack_data n buf)
unfolding unpack_data
unpack_data_lem buf xs bytes ys n s h =
    let fits : add_size buf.processed n ≤ buf.length =
      omega (arith, s.done, s.size, s.bounded, h, length-append bytes ys) in
    rw (le→leb _ _ fits, fetch_next_lem buf xs bytes ys n s h)
      (refl, advance-Split bytes buf xs ys s)

pub unpack_int_lem :
    (buf : Buffer) (xs ys : List ℕ) (i : ℕ)
    → i < 2 ^ 32
    → Split buf xs (htonl i ++ ys)
    → Reads i (xs ++ htonl i) ys (unpack_int buf)
unfolding unpack_int htonl
unpack_int_lem buf xs ys i small s =
    let fits : add_size buf.processed 4 ≤ buf.length = omega (arith, s.done, s.size, s.bounded) in
    rw (le→leb _ _ fits, fetch_next_lem buf xs (htonl i) ys 4 s refl, ntohl-htonl i small)
      (refl, advance-Split (htonl i) buf xs ys s)

-- What `unpack_data (n)` does on a buffer with `ys` behind `processed`.
abbrev pub ReadsUpTo : ℕ → List ℕ → List ℕ → Buffer → Res Buffer (List ℕ) → Type 0
ReadsUpTo n xs ys buf (ok bytes new) =
    (bytes ≡ take n ys) × (n ≤ length ys) × Split new (xs ++ take n ys) (drop n ys)
ReadsUpTo n xs ys buf (err e new) = (e ≡ error) × (new ≡ buf) × (length ys < n)
ReadsUpTo n xs ys buf fault = ⊥

-- For a size below half of the address space, auks_buffer_unpack_data reads the next bytes where
-- there are as many, and else reports an error and changes nothing; it never reads out of bounds.
pub unpack_data_total :
    (n : ℕ) (buf : Buffer) (xs ys : List ℕ)
    → n < 2 ^ 63
    → Split buf xs ys
    → ReadsUpTo n xs ys buf (unpack_data n buf)
unfolding unpack_data
unpack_data_total n buf xs ys h s = elim (Bool-cases (leb n (length ys))) [
  | inl enough ↦
      let room : n ≤ length ys = ground arith in
      let whole : Split buf xs (take n ys ++ drop n ys) = rw (take-append-drop n ys) s in
      reads (unpack_data n buf) room
        (unpack_data_lem buf xs (take n ys) (drop n ys) n whole (sym (length-take n ys room)))
  | inr short ↦ rw (refuses (ground arith)) (refl, refl, ground arith)
]
  where
    reads :
        (r : Res Buffer (List ℕ))
        → n ≤ length ys
        → Reads (take n ys) (xs ++ take n ys) (drop n ys) r
        → ReadsUpTo n xs ys buf r
    reads (ok b new) room (same, split) = (same, room, split)
    reads (err e new) room r = absurd r
    reads fault room r = absurd r

    refuses : length ys < n → unpack_data n buf ≡ err error buf
    refuses short =
        let over : buf.length < add_size buf.processed n =
          omega (arith, s.done, s.size, s.bounded) in
        rw (lt→leb_false _ _ over)

-- A size that makes `processed + size` wrap passes the test, and the copy runs out of bounds.
pub unpack_data_wraps :
    (n : ℕ) (buf : Buffer) (xs ys : List ℕ)
    → n < 2 ^ 64
    → 2 ^ 64 ≤ length xs + n
    → Split buf xs ys
    → unpack_data n buf ≡ fault
unfolding unpack_data fetch_next
unpack_data_wraps n buf xs ys small over s =
    let passes : add_size buf.processed n ≤ buf.length = omega (arith, s.done, s.size, s.bounded) in
    let beyond : length (xs ++ ys) < buf.processed + n =
      omega (arith, s.done, s.bounded, length-append xs ys) in
    rw (le→leb _ _ passes) (simp (s.contents, read_at_over (xs ++ ys) buf.processed n beyond))
