-- ===== src/Base/Text.antt =====
-- C strings: arrays of bytes, read up to the first NUL. The end of a list reads as NUL.
use Prim.Native.Nat.{ℕ, zero, suc, ◌+◌, ◌<◌}
use mathlib.Core.Path.{◌≡◌, refl}
use mathlib.Core.Logic.{◌↔◌, ◌≢◌}
use mathlib.Core.Bool.{Bool, true, false, ◌&&◌}
use mathlib.Core.List.{List, [], ◌∷◌, map}
use native.Mathlib.Omega.{arith}
use auks.Base.Tests.{◌==◌, leb, if◌then◌else◌}
use auks.Base.Lists.{length, All}
use Prim.Native.Char.{code}
use Prim.Native.String.{String}

-- The bytes of an ASCII literal.
abbrev pub codes : String → List ℕ
codes String.[] = []
codes (String.◌∷◌ c s) = code c ∷ codes s

-- The text of an array: the bytes before the first NUL.
unfoldable pub c_str : List ℕ → List ℕ
c_str [] = []
c_str (x ∷ xs) = if x == 0 then [] else x ∷ c_str xs

-- `strncmp (a, b, n) == 0`
unfoldable pub strncmp_eq : ℕ → List ℕ → List ℕ → Bool
strncmp_eq zero a b = true
strncmp_eq (suc n) [] [] = true
strncmp_eq (suc n) [] (y ∷ ys) = y == 0
strncmp_eq (suc n) (x ∷ xs) [] = x == 0
strncmp_eq (suc n) (x ∷ xs) (y ∷ ys) =
    if x == y then (if x == 0 then true else strncmp_eq n xs ys) else false

-- `tolower` in the C locale.
unfoldable pub to_lower : ℕ → ℕ
to_lower c = if leb 65 c && leb c 90 then c + 32 else c

-- `strncasecmp (a, b, n) == 0`
unfoldable pub strncasecmp_eq : ℕ → List ℕ → List ℕ → Bool
unfolding strncmp_eq to_lower
strncasecmp_eq n a b = strncmp_eq n (map to_lower a) (map to_lower b)

-- A text: an array with no NUL in it.
abbrev pub IsText : List ℕ → Type 0
IsText s = All (λ c. c ≢ 0) s

-- Where `n` reaches past the end of one of two texts, `strncmp` compares them whole.
pub strncmp_eq_iff :
    (n : ℕ) (a b : List ℕ)
    → IsText a
    → IsText b
    → length a < n
    → (strncmp_eq n a b ≡ true) ↔ (a ≡ b)
unfolding strncmp_eq
strncmp_eq_iff zero a b ha hb h = elim h [ ]
strncmp_eq_iff (suc n) [] [] ha hb h = (λ _. refl, λ _. refl)
strncmp_eq_iff (suc n) [] (y ∷ ys) ha hb h = (λ e. ground arith, λ e. cc)
strncmp_eq_iff (suc n) (x ∷ xs) [] ha hb h = (λ e. ground arith, λ e. cc)
strncmp_eq_iff (suc n) (x ∷ xs) (y ∷ ys) ha hb h =
    let ih = strncmp_eq_iff n xs ys ha.1 hb.1 (omega arith) in
    (λ e. ground (arith, ih.0), λ e. ground (arith, ih.1))

pub strncmp_eq_iff_right :
    (n : ℕ) (a b : List ℕ)
    → IsText a
    → IsText b
    → length b < n
    → (strncmp_eq n a b ≡ true) ↔ (a ≡ b)
unfolding strncmp_eq
strncmp_eq_iff_right zero a b ha hb h = elim h [ ]
strncmp_eq_iff_right (suc n) [] [] ha hb h = (λ _. refl, λ _. refl)
strncmp_eq_iff_right (suc n) [] (y ∷ ys) ha hb h = (λ e. ground arith, λ e. cc)
strncmp_eq_iff_right (suc n) (x ∷ xs) [] ha hb h = (λ e. ground arith, λ e. cc)
strncmp_eq_iff_right (suc n) (x ∷ xs) (y ∷ ys) ha hb h =
    let ih = strncmp_eq_iff_right n xs ys ha.1 hb.1 (omega arith) in
    (λ e. ground (arith, ih.0), λ e. ground (arith, ih.1))
