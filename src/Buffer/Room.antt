-- ===== src/Buffer/Room.antt =====
-- `auks_buffer_pack_int` of auks_buffer.c where there is room: it needs no memory and does not fail.
use auks.Base.{ℕ, ◌≤◌, ◌≡◌, false, Option, none, some, List, ◌++◌, arith, length, ltb}
use auks.Base.Words.{htonl, sub_size}
use auks.Base.Results.{err, Error, and_then, opt_then}
use auks.Base.Memory.{Allocator, write_at}
use auks.Buffer.{Buffer, expand, allocate, written, store, store_next, advance, pack_int}
use auks.Buffer.View.{Split}

store_next-ne-err :
    (bytes : List ℕ) (buf new : Buffer) (e : Error) → store_next bytes buf ≡ err e new → ⊥
unfolding store_next store written advance
store_next-ne-err bytes buf new e =
    go (opt_then buf.bytes (λ old. write_at old buf.processed bytes))
  where
    go :
        (o : Option (List ℕ))
        → and_then (written o buf) (λ _. advance (length bytes)) ≡ err e new
        → ⊥
    go none h = cc
    go (some block) h = cc

module _ ⦃mem : Allocator⦄ where
  pub pack_int-ne-err :
      (i : ℕ) (buf new : Buffer) (xs ys : List ℕ) (e : Error)
      → Split buf xs ys
      → 4 ≤ length ys
      → pack_int i buf ≡ err e new
      → ⊥
  unfolding pack_int expand allocate
  pack_int-ne-err i buf new xs ys e s room h =
      let enough : ltb (sub_size buf.length buf.processed) 4 ≡ false =
        ground (arith, s.done, s.size, s.bounded) in
      let h' = rw (enough, s.contents) at h in
      store_next-ne-err (htonl i) (record buf { bytes = some (xs ++ ys) }) new e h'
