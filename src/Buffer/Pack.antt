-- ===== src/Buffer/Pack.antt =====
-- `auks_buffer_pack_int`, `auks_buffer_pack_data` and `auks_buffer_load` of auks_buffer.c write
-- behind what is there, and nowhere else.
use auks.Base.{
  ℕ, ◌≤◌, ◌<◌, ◌^◌, ◌≡◌, refl, sym, ap, ◌∙◌, ◌⊎◌, some, List, [], ◌++◌, append_assoc, append-nil,
  arith, length, drop, replicate, length-append, length-drop, length-replicate, drop_all,
}
use auks.Base.Words.{add_size, sub_size, htonl}
use auks.Base.Results.{Res, ok, err, fault, and_then, buffer_malloc, buffer_realloc}
use auks.Base.Memory.{Allocator, write_at-append}
use auks.Buffer.{Buffer, store, clear_from, advance, store_next, init, load, pack_data, pack_int}
use auks.Buffer.View.{Split, Writes, Leaves}
use auks.Buffer.Expand.{expand-Leaves, init-Leaves}

-- Bytes that fit are written at the end of `xs`.
store_lem :
    (offset : ℕ) (bytes : List ℕ) (buf : Buffer) (xs ys : List ℕ)
    → buf.bytes ≡ some (xs ++ ys)
    → offset ≡ length xs
    → length bytes ≤ length ys
    → store offset bytes buf
      ≡ ok tt (record buf { bytes = some (xs ++ (bytes ++ drop (length bytes) ys)) })
unfolding store
store_lem offset bytes buf xs ys e at h = simp (e, at, write_at-append xs ys bytes h)

length-overwrite :
    (bytes ys : List ℕ)
    → length bytes ≤ length ys
    → length (bytes ++ drop (length bytes) ys) ≡ length ys
length-overwrite bytes ys h =
    length-append bytes (drop (length bytes) ys) ∙ omega (arith, length-drop (length bytes) ys)

-- The same where `xs` is what stands before `processed`.
store-Split :
    (bytes : List ℕ) (buf : Buffer) (xs ys : List ℕ)
    → Split buf xs ys
    → length bytes ≤ length ys
    → Split
        (record buf { bytes = some (xs ++ (bytes ++ drop (length bytes) ys)) })
        xs
        (bytes ++ drop (length bytes) ys)
store-Split bytes buf xs ys s h = record {
  contents = refl;
  done = s.done;
  size = omega (arith, s.size, length-overwrite bytes ys h);
  bounded = omega (arith, s.bounded, length-overwrite bytes ys h);
}

-- Where `processed` moves over `bytes`, they go from one side to the other.
pub advance-Split :
    (bytes : List ℕ) (buf : Buffer) (xs ys : List ℕ)
    → Split buf xs (bytes ++ ys)
    → Split (record buf { processed = add_size buf.processed (length bytes) }) (xs ++ bytes) ys
advance-Split bytes buf xs ys s = record {
  contents = s.contents ∙ ap some (sym (append_assoc xs bytes ys));
  done = omega (arith, s.done, s.bounded, length-append xs bytes, length-append bytes ys);
  size = omega (arith, s.size, length-append xs bytes, length-append bytes ys);
  bounded = omega (arith, s.bounded, length-append xs bytes, length-append bytes ys);
}

store_next-Writes :
    (bytes : List ℕ) (buf : Buffer) (xs ys : List ℕ)
    → Split buf xs ys
    → length bytes ≤ length ys
    → Writes (xs ++ bytes) (store_next bytes buf)
unfolding store_next advance
store_next-Writes bytes buf xs ys s h =
    rw (store_lem buf.processed bytes buf xs ys s.contents s.done h)
      (_, advance-Split bytes _ xs _ (store-Split bytes buf xs ys s h))

-- A write of bytes that follows a call which has made room for them.
Leaves-Writes :
    (bytes : List ℕ) (r : Res Buffer (Unit {0})) (xs : List ℕ)
    → Leaves (length bytes) xs r
    → Writes (xs ++ bytes) (and_then r (λ _. store_next bytes))
Leaves-Writes bytes (ok _ buf) xs (ys, s, h) = store_next-Writes bytes buf xs ys s h
Leaves-Writes bytes (err e buf) xs h = h
Leaves-Writes bytes fault xs h = h

module _ ⦃mem : Allocator⦄ where
  -- auks_buffer_pack_data appends less than 2 ^ 31 bytes of data to what the buffer holds, or
  -- reports that memory ran out; it never writes out of bounds.
  pub pack_data-Writes :
      (bytes : List ℕ) (buf : Buffer) (xs ys : List ℕ)
      → length bytes < 2 ^ 31
      → Split buf xs ys
      → Writes (xs ++ bytes) (pack_data bytes buf)
  unfolding pack_data
  pack_data-Writes bytes buf xs ys h s =
      Leaves-Writes bytes _ xs (expand-Leaves (length bytes) buf xs ys h s)

  -- The same of an integer, in network order.
  pub pack_int-Writes :
      (i : ℕ) (buf : Buffer) (xs ys : List ℕ)
      → Split buf xs ys
      → Writes (xs ++ htonl i) (pack_int i buf)
  unfolding pack_int htonl
  pack_int-Writes i buf xs ys s =
      Leaves-Writes (htonl i) _ xs (expand-Leaves 4 buf xs ys (omega arith) s)

  -- What `load` leaves: the data, and zeros up to the end of the block.
  abbrev pub Loads : List ℕ → Res Buffer (Unit {0}) → Type 0
  Loads bytes (ok _ buf) = (n : ℕ) × Split buf [] (bytes ++ replicate n 0)
  Loads bytes (err e buf) = (e ≡ buffer_malloc) ⊎ (e ≡ buffer_realloc)
  Loads bytes fault = ⊥

  clear_from-Loads :
      (bytes : List ℕ) (buf : Buffer) (ys : List ℕ)
      → Split buf [] (bytes ++ ys)
      → Loads bytes (clear_from (length bytes) buf)
  unfolding clear_from
  clear_from-Loads bytes buf ys s =
      let zeros : List ℕ = replicate (length ys) 0 in
      let rest : sub_size buf.length (length bytes) ≡ length ys =
        omega (arith, s.size, s.bounded, length-append bytes ys) in
      let all : length zeros ≡ length ys = length-replicate (length ys) 0 in
      let none_left : zeros ++ drop (length zeros) ys ≡ zeros =
        ap (λ k. zeros ++ k) (drop_all (length zeros) ys (omega arith)) ∙ append-nil zeros in
      rw
        (rest, store_lem (length bytes) zeros buf bytes ys s.contents refl (omega arith), none_left)
        (
          length ys,
          record {
            contents = refl;
            done = s.done;
            size = omega (arith, s.size, length-append bytes ys, length-append bytes zeros);
            bounded = omega (arith, s.bounded, length-append bytes ys, length-append bytes zeros);
          },
        )

  -- A buffer that is loaded with less than 2 ^ 31 bytes holds the data followed by zeros, with
  -- nothing read yet, or memory ran out.
  pub load-Loads : (bytes : List ℕ) → length bytes < 2 ^ 31 → Loads bytes (load bytes)
  unfolding load
  load-Loads bytes h = go (init (length bytes)) (init-Leaves (length bytes) h)
    where
      go :
          (r : Res Buffer (Unit {0}))
          → Leaves (length bytes) [] r
          → Loads bytes
              (and_then r (λ _ buf. and_then (store 0 bytes buf) (λ _. clear_from (length bytes))))
      go (ok _ buf) (ys, s, room) =
          rw (store_lem 0 bytes buf [] ys s.contents refl room)
            (clear_from-Loads bytes _ _ (store-Split bytes buf [] ys s room))
      go (err e buf) l = l
      go fault l = l
