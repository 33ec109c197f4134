-- ===== src/Base/Decimal.antt =====
-- What `printf` writes for a number: "%u" and "%d" of a 32-bit integer.
use Prim.Native.Nat.{ℕ, zero, suc, ◌+◌, ◌-◌, ◌*◌, ◌/◌, ◌%◌, ◌^◌, ◌≤◌, ◌<◌}
use mathlib.Core.Path.{◌≡◌, refl, sym, ap, ◌∙◌}
use mathlib.Core.Logic.{inl, inr}
use mathlib.Core.List.{List, [], ◌∷◌}
use native.Mathlib.Omega.{arith}
use auks.Base.Tests.{ltb, if◌then◌else◌, Bool-cases}
use auks.Base.Lists.{length}
use auks.Base.Text.{IsText}

-- At most so many digits of `n`, before `acc`.
digits : ℕ → ℕ → List ℕ → List ℕ
digits zero n acc = acc
digits (suc k) n acc =
    let more = digits k (n / 10) ((48 + n % 10) ∷ acc) in if ltb n 10 then (48 + n) ∷ acc else more

-- "%u": ten digits are enough for 32 bits.
pub decimal : ℕ → List ℕ
unfolding digits
decimal n = digits 10 n []

-- "%d" of a 32-bit pattern.
pub decimal_int : ℕ → List ℕ
decimal_int i = if ltb i (2 ^ 31) then decimal i else 45 ∷ decimal (2 ^ 32 - i)

number_from : ℕ → List ℕ → ℕ
number_from v [] = v
number_from v (c ∷ cs) = number_from (v * 10 + (c - 48)) cs

-- How many numbers have at most so many digits.
bound : ℕ → ℕ
bound zero = 1
bound (suc k) = 10 * bound k

number-digits :
    (k n : ℕ) (acc : List ℕ) → n < bound k → number_from 0 (digits k n acc) ≡ number_from n acc
unfolding digits number_from bound
number-digits zero n acc h = let z : n ≡ 0 = omega arith in rw z refl
number-digits (suc k) n acc h = elim (Bool-cases (ltb n 10)) [
  | inl one ↦ let e : 0 + (48 + n - 48) ≡ n = omega arith in rw one (ap (λ v. number_from v acc) e)
  | inr more ↦
      let e : n / 10 * 10 + (48 + n % 10 - 48) ≡ n = omega arith in
      let rest = number-digits k (n / 10) ((48 + n % 10) ∷ acc) (omega arith) in
      rw more (rest ∙ ap (λ v. number_from v acc) e)
]

digits-IsText : (k n : ℕ) (acc : List ℕ) → IsText acc → IsText (digits k n acc)
unfolding digits
digits-IsText zero n acc t = t
digits-IsText (suc k) n acc t = elim (Bool-cases (ltb n 10)) [
  | inl one ↦ rw one ((λ e. omega arith), t)
  | inr more ↦ rw more (digits-IsText k (n / 10) ((48 + n % 10) ∷ acc) ((λ e. omega arith), t))
]

length-digits : (k n : ℕ) (acc : List ℕ) → length (digits k n acc) ≤ k + length acc
unfolding digits
length-digits zero n acc = omega arith
length-digits (suc k) n acc = elim (Bool-cases (ltb n 10)) [
  | inl one ↦ rw one (omega arith)
  | inr more ↦ rw more (omega (arith, length-digits k (n / 10) ((48 + n % 10) ∷ acc)))
]

pub decimal-IsText : (n : ℕ) → IsText (decimal n)
unfolding decimal
decimal-IsText n = digits-IsText 10 n [] tt

pub length-decimal : (n : ℕ) → length (decimal n) ≤ 10
unfolding decimal
length-decimal n = omega (arith, length-digits 10 n [])

-- Different numbers are written differently.
pub decimal_injective : (m n : ℕ) → m < 2 ^ 32 → n < 2 ^ 32 → decimal m ≡ decimal n → m ≡ n
unfolding decimal number_from bound
decimal_injective m n hm hn e =
    sym (number-digits 10 m [] (omega arith))
    ∙ ap (number_from 0) e
    ∙ number-digits 10 n [] (omega arith)
