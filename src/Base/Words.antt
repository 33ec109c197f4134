-- ===== src/Base/Words.antt =====
-- C integers as native numbers. An `int` and a `uint32_t` are the 32-bit pattern, a `size_t` is
-- below 2 ^ 64 (an LP64 host).
use Prim.Native.Nat.{ℕ, ◌+◌, ◌-◌, ◌*◌, ◌/◌, ◌%◌, ◌^◌, ◌<◌}
use mathlib.Core.Path.{◌≡◌, refl}
use mathlib.Core.Bool.{Bool}
use mathlib.Core.List.{List, [], ◌∷◌}
use native.Mathlib.Omega.{arith}
use auks.Base.Tests.{ltb, if◌then◌else◌}
use auks.Base.Lists.{length}

-- `(int) n` and `(unsigned int) n`: the low 32 bits.
abbrev pub to_int : ℕ → ℕ
to_int n = n % 2 ^ 32

-- `(size_t) i` of an `int`: its sign is extended.
abbrev pub to_size : ℕ → ℕ
to_size i = if ltb i (2 ^ 31) then i else i + (2 ^ 64 - 2 ^ 32)

-- `a < b` on `int`s.
abbrev pub lt_int : ℕ → ℕ → Bool
lt_int a b = ltb ((a + 2 ^ 31) % 2 ^ 32) ((b + 2 ^ 31) % 2 ^ 32)

-- `a < b` on `time_t`s, 64-bit patterns.
abbrev pub lt_time : ℕ → ℕ → Bool
lt_time a b = ltb ((a + 2 ^ 63) % 2 ^ 64) ((b + 2 ^ 63) % 2 ^ 64)

-- `a - b` on `int`s, in two's complement.
abbrev pub sub_int : ℕ → ℕ → ℕ
sub_int a b = (a + 2 ^ 32 - b) % 2 ^ 32

-- `+` and `-` on `size_t`.
abbrev pub add_size : ℕ → ℕ → ℕ
add_size a b = (a + b) % 2 ^ 64

abbrev pub sub_size : ℕ → ℕ → ℕ
sub_size a b = (a + 2 ^ 64 - b) % 2 ^ 64

-- `i / k` on an `int`, which rounds towards zero.
abbrev pub div_int : ℕ → ℕ → ℕ
div_int i k = if ltb i (2 ^ 31) then i / k else (2 ^ 32 - (2 ^ 32 - i) / k) % 2 ^ 32

-- The four bytes of `htonl (i)` in memory.
unfoldable pub htonl : ℕ → List ℕ
htonl i = (i / 2 ^ 24 % 256) ∷ (i / 2 ^ 16 % 256) ∷ (i / 2 ^ 8 % 256) ∷ (i % 256) ∷ []

-- `ntohl` of the four bytes in memory.
unfoldable pub ntohl : List ℕ → ℕ
ntohl (a ∷ b ∷ c ∷ d ∷ _) = a * 2 ^ 24 + b * 2 ^ 16 + c * 2 ^ 8 + d
ntohl _ = 0

pub ntohl-htonl : (i : ℕ) → i < 2 ^ 32 → ntohl (htonl i) ≡ i
unfolding ntohl htonl
ntohl-htonl i h = omega arith

pub length-htonl : (i : ℕ) → length (htonl i) ≡ 4
unfolding htonl
length-htonl i = refl
