-- ===== src/Base/Strtol.antt =====
-- `strtol` of the C library: the decimal number that a text begins with.
use Prim.Native.Nat.{ℕ, ◌+◌, ◌-◌, ◌*◌, ◌%◌, ◌^◌}
use mathlib.Core.Bool.{Bool, ◌&&◌, ◌||◌}
use mathlib.Core.List.{List, [], ◌∷◌}
use auks.Base.Tests.{ltb, leb, ◌==◌, if◌then◌else◌}

-- `strtol (s, NULL, 10)`: white space, a sign, and digits up to the first other byte.
is_space : ℕ → Bool
is_space c = c == 32 || leb 9 c && leb c 13

skip_space : List ℕ → List ℕ
unfolding is_space
skip_space [] = []
skip_space (c ∷ cs) = if is_space c then skip_space cs else c ∷ cs

digits_from : ℕ → List ℕ → ℕ
digits_from n [] = n
digits_from n (c ∷ cs) = if leb 48 c && leb c 57 then digits_from (n * 10 + (c - 48)) cs else n

-- The 64-bit pattern of the number; the default in place of LONG_MIN and LONG_MAX, which `strtol`
-- also returns for a number out of range.
negative_or : ℕ → ℕ → ℕ
negative_or default n = if ltb n (2 ^ 63) then (2 ^ 64 - n) % 2 ^ 64 else default

positive_or : ℕ → ℕ → ℕ
positive_or default n = if ltb (n + 1) (2 ^ 63) then n else default

signed_or : ℕ → List ℕ → ℕ
unfolding negative_or positive_or digits_from
signed_or default [] = 0
signed_or default (c ∷ cs) =
    if c == 45
    then negative_or default (digits_from 0 cs)
    else positive_or default (digits_from 0 (if c == 43 then cs else c ∷ cs))

pub strtol_or : ℕ → List ℕ → ℕ
unfolding signed_or skip_space
strtol_or default s = signed_or default (skip_space s)
