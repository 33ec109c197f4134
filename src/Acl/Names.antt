-- ===== src/Acl/Names.antt =====
-- The names of the roles in a configuration file of auks_acl.c.
use auks.Base.{
  ℕ, suc, ◌≡◌, refl, Bool, true, false, Option, some, none, List, [], ◌∷◌, length, arith,
  Bool-cases, inl, inr, ◌==◌, if◌then◌else◌,
}
use auks.Base.Text.{codes, c_str, strncmp_eq, IsText}
use auks.Acl.{Role, admin, user, guest, role_of}

-- Two texts are the same; one begins with the other.
unfoldable pub same_text : List ℕ → List ℕ → Bool
same_text [] [] = true
same_text [] (y ∷ ys) = false
same_text (x ∷ xs) [] = false
same_text (x ∷ xs) (y ∷ ys) = if x == y then same_text xs ys else false

unfoldable pub begins_with : List ℕ → List ℕ → Bool
begins_with [] text = true
begins_with (x ∷ xs) [] = false
begins_with (x ∷ xs) (y ∷ ys) = if x == y then begins_with xs ys else false

-- The role that a text gives: `user` and `admin` by their whole names, and `guest` by every text that
-- begins so.
unfoldable pub role_named : List ℕ → Option Role
role_named text =
    if same_text (codes "user") text
    then some user
    else if same_text (codes "admin") text
    then some admin
    else if begins_with (codes "guest") text
    then some guest
    else none

strncmp_eq-same_text :
    (w s : List ℕ) → IsText w → strncmp_eq (suc (length w)) w s ≡ same_text w (c_str s)
unfolding strncmp_eq same_text c_str
strncmp_eq-same_text [] [] t = refl
strncmp_eq-same_text [] (y ∷ ys) t = elim (Bool-cases (y == 0)) [
  | inl end ↦ rw end refl
  | inr more ↦ rw more refl
]
strncmp_eq-same_text (x ∷ xs) [] (h, t) = let more : (x == 0) ≡ false = ground arith in rw more refl
strncmp_eq-same_text (x ∷ xs) (y ∷ ys) (h, t) =
    let more : (x == 0) ≡ false = ground arith in
    elim (Bool-cases (y == 0)) [
      | inl end ↦ let other : (x == y) ≡ false = ground arith in rw (end, other) refl
      | inr going ↦ elim (Bool-cases (x == y)) [
        | inl e ↦ rw (going, e, more) (strncmp_eq-same_text xs ys t)
        | inr e ↦ rw (going, e) refl
      ]
    ]

strncmp_eq-begins_with :
    (w s : List ℕ) → IsText w → strncmp_eq (length w) w s ≡ begins_with w (c_str s)
unfolding strncmp_eq begins_with c_str
strncmp_eq-begins_with [] s t = refl
strncmp_eq-begins_with (x ∷ xs) [] (h, t) =
    let more : (x == 0) ≡ false = ground arith in rw more refl
strncmp_eq-begins_with (x ∷ xs) (y ∷ ys) (h, t) =
    let more : (x == 0) ≡ false = ground arith in
    elim (Bool-cases (y == 0)) [
      | inl end ↦ let other : (x == y) ≡ false = ground arith in rw (end, other) refl
      | inr going ↦ elim (Bool-cases (x == y)) [
        | inl e ↦ rw (going, e, more) (strncmp_eq-begins_with xs ys t)
        | inr e ↦ rw (going, e) refl
      ]
    ]

pub role_of-role_named : (s : List ℕ) → role_of s ≡ role_named (c_str s)
unfolding role_of role_named
role_of-role_named s =
    let u : strncmp_eq 5 (codes "user") s ≡ same_text (codes "user") (c_str s) =
      strncmp_eq-same_text (codes "user") s (
        (λ e. omega arith),
        ((λ e. omega arith), ((λ e. omega arith), ((λ e. omega arith), tt))),
      ) in
    let a : strncmp_eq 6 (codes "admin") s ≡ same_text (codes "admin") (c_str s) =
      strncmp_eq-same_text (codes "admin") s (
        (λ e. omega arith),
        ((λ e. omega arith), ((λ e. omega arith), ((λ e. omega arith), ((λ e. omega arith), tt)))),
      ) in
    let g : strncmp_eq 5 (codes "guest") s ≡ begins_with (codes "guest") (c_str s) =
      strncmp_eq-begins_with (codes "guest") s (
        (λ e. omega arith),
        ((λ e. omega arith), ((λ e. omega arith), ((λ e. omega arith), ((λ e. omega arith), tt)))),
      ) in
    rw (u, a, g) refl
