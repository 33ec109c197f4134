-- ===== src/Buffer/View.antt =====
-- What a buffer of auks_buffer.c holds: the bytes before `processed`, and those behind it.
use auks.Base.{ℕ, ◌+◌, ◌≤◌, ◌<◌, ◌^◌, ◌≡◌, ◌⊎◌, some, List, ◌++◌, length}
use auks.Base.Results.{Res, ok, err, fault, buffer_malloc, buffer_realloc}
use auks.Buffer.{Buffer}

-- The allocated block is `xs ++ ys` and `processed` stands between the two.
pub record Split (buf : Buffer) (xs ys : List ℕ) : Type 0 where
  pub contents : buf.bytes ≡ some (xs ++ ys)
  pub done : buf.processed ≡ length xs
  pub size : buf.length ≡ length xs + length ys
  pub bounded : length xs + length ys < 2 ^ 63

-- A call that writes ends with `zs` before `processed`, or it could not get memory. It never
-- accesses memory that is not its own.
abbrev pub Writes : List ℕ → Res Buffer (Unit {0}) → Type 0
Writes zs (ok _ buf) = (ys : List ℕ) × Split buf zs ys
Writes zs (err e buf) = (e ≡ buffer_malloc) ⊎ (e ≡ buffer_realloc)
Writes zs fault = ⊥

-- The same of a call that leaves at least `room` bytes behind `processed`.
abbrev pub Leaves : ℕ → List ℕ → Res Buffer (Unit {0}) → Type 0
Leaves room zs (ok _ buf) = (ys : List ℕ) × Split buf zs ys × (room ≤ length ys)
Leaves room zs (err e buf) = (e ≡ buffer_malloc) ⊎ (e ≡ buffer_realloc)
Leaves room zs fault = ⊥
