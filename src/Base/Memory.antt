-- ===== src/Base/Memory.antt =====
-- The C heap and `memcpy`. An allocated block is its list of bytes.
use Prim.Native.Nat.{ℕ, ◌+◌, ◌≤◌, ◌<◌, ◌^◌}
use mathlib.Core.Path.{◌≡◌, refl}
use mathlib.Core.Bool.{Bool, true, false}
use mathlib.Core.Option.{Option, none, some}
use mathlib.Core.List.{List, ◌++◌}
use native.Mathlib.Omega.{arith}
use auks.Base.Tests.{leb, if◌then◌else◌, le→leb, lt→leb_false}
use auks.Base.Lists.{
  length, take, drop, length-append, take-length-append, drop-length-append, drop-length_add-append,
}

-- `malloc` and `realloc` of the C library. They may return NULL (`none`); a block has the size
-- that was asked for, at most PTRDIFF_MAX, its first bytes are those of the old block, and
-- nothing is said of the others.
pub record Allocator : Type 0 where
  pub malloc : ℕ → Option (List ℕ)
  pub realloc : List ℕ → ℕ → Option (List ℕ)
  pub malloc_size :
      (n : ℕ) (block : List ℕ) → malloc n ≡ some block → (length block ≡ n) × (n < 2 ^ 63)
  pub realloc_size :
      (old : List ℕ) (n : ℕ) (block : List ℕ)
      → realloc old n ≡ some block
      → (length block ≡ n) × (n < 2 ^ 63)
  pub realloc_keeps :
      (old : List ℕ) (n : ℕ) (block : List ℕ)
      → realloc old n ≡ some block
      → length old ≤ n
      → take (length old) block ≡ old

-- `malloc (n)` does not return NULL.
unfoldable pub has_memory : ⦃mem : Allocator⦄ → ℕ → Bool
has_memory ⦃mem⦄ n = elim (mem.malloc n) [ none ↦ false | some _ ↦ true ]

-- `memcpy (block + offset, bytes, length bytes)`; `none` is a write out of bounds.
unfoldable pub write_at : List ℕ → ℕ → List ℕ → Option (List ℕ)
write_at block offset bytes =
    if leb (offset + length bytes) (length block)
    then some (take offset block ++ (bytes ++ drop (offset + length bytes) block))
    else none

-- `memcpy (…, block + offset, n)`; `none` is a read out of bounds.
unfoldable pub read_at : List ℕ → ℕ → ℕ → Option (List ℕ)
read_at block offset n =
    if leb (offset + n) (length block) then some (take n (drop offset block)) else none

pub write_at-append :
    (xs ys bytes : List ℕ)
    → length bytes ≤ length ys
    → write_at (xs ++ ys) (length xs) bytes ≡ some (xs ++ (bytes ++ drop (length bytes) ys))
unfolding write_at
write_at-append xs ys bytes h =
    let fits : length xs + length bytes ≤ length (xs ++ ys) = omega (arith, length-append xs ys) in
    rw (le→leb _ _ fits, take-length-append xs ys, drop-length_add-append xs ys (length bytes))

pub read_at-append :
    (xs bytes rest : List ℕ)
    → read_at (xs ++ (bytes ++ rest)) (length xs) (length bytes) ≡ some bytes
unfolding read_at
read_at-append xs bytes rest =
    let fits : length xs + length bytes ≤ length (xs ++ (bytes ++ rest)) =
      omega (arith, length-append xs (bytes ++ rest), length-append bytes rest) in
    rw (le→leb _ _ fits, drop-length-append xs (bytes ++ rest), take-length-append bytes rest)

pub read_at_over :
    (block : List ℕ) (offset n : ℕ) → length block < offset + n → read_at block offset n ≡ none
unfolding read_at
read_at_over block offset n h = rw (lt→leb_false _ _ h)

pub has_memory_lem :
    ⦃mem : Allocator⦄ (n : ℕ) (block : List ℕ) → mem.malloc n ≡ some block → has_memory n ≡ true
unfolding has_memory
has_memory_lem n block e = rw (has_memory, e) refl
