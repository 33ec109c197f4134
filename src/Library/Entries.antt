-- ===== src/Library/Entries.antt =====
-- The tree of xlibrary.c, searched by reference.
use auks.Base.{
  ℕ, ◌<◌, ◌≡◌, ◌≢◌, ◌⊎◌, inl, inr, refl, sym, ap, ◌∙◌, subst, true, false, none, some, List, [],
  ◌∷◌, length, Bool-cases, true-false, some_injective,
}
use auks.Base.Text.{IsText, strncmp_eq, strncmp_eq_iff}
use auks.Library.{Entry, find, delete, insert, strncmp_lt}

-- A reference that is a text and fits its field.
abbrev pub IsKey : List ℕ → Type 0
IsKey r = IsText r × (length r < 128)

same_test : (r : List ℕ) → IsKey r → strncmp_eq 128 r r ≡ true
same_test r (t, h) = (strncmp_eq_iff 128 r r t t h).1 refl

other_test : (a b : List ℕ) → IsKey a → IsKey b → a ≢ b → strncmp_eq 128 a b ≡ false
other_test a b (s, h) (t, _) other = elim (Bool-cases (strncmp_eq 128 a b)) [
  | inl e ↦ absurd (other ((strncmp_eq_iff 128 a b s t h).0 e))
  | inr e ↦ e
]

pub key_cases : (a b : List ℕ) → IsKey a → IsKey b → (a ≡ b) ⊎ (a ≢ b)
key_cases a b (s, h) (t, k) = elim (Bool-cases (strncmp_eq 128 a b)) [
  | inl e ↦ inl ((strncmp_eq_iff 128 a b s t h).0 e)
  | inr e ↦ inr (λ same. true-false (sym ((strncmp_eq_iff 128 a b s t h).1 same) ∙ e))
]

module _ {A : Type 0} where
  -- Each entry has a key, and no two have the same.
  unfoldable pub IsKeyed : List (Entry A) → Type 0
  IsKeyed [] = Unit
  IsKeyed (e ∷ es) = IsKey e.reference × (find e.reference es ≡ none) × IsKeyed es

  pub find-here :
      (r : List ℕ) (e : Entry A) (es : List (Entry A))
      → IsKey r
      → r ≡ e.reference
      → find r (e ∷ es) ≡ some e
  unfolding find
  find-here r e es k same =
      let t : strncmp_eq 128 r e.reference ≡ true =
        subst (λ q. strncmp_eq 128 r q ≡ true) same (same_test r k) in
      rw t

  pub find-there :
      (r : List ℕ) (e : Entry A) (es : List (Entry A))
      → IsKey r
      → IsKey e.reference
      → r ≢ e.reference
      → find r (e ∷ es) ≡ find r es
  unfolding find
  find-there r e es k l other = rw (other_test r e.reference k l other)

  -- What is found under a reference has that reference.
  pub find-reference :
      (r : List ℕ) (es : List (Entry A)) (e : Entry A)
      → IsKeyed es
      → IsKey r
      → find r es ≡ some e
      → r ≡ e.reference
  unfolding IsKeyed find
  find-reference r [] e v k f = cc
  find-reference r (x ∷ es) e (l, absent, v) k f = elim (key_cases r x.reference k l) [
    | inl same ↦
        let here : some x ≡ some e = sym (find-here r x es k same) ∙ f in
        same ∙ ap (λ e. e.reference) (some_injective here)
    | inr other ↦ find-reference r es e v k (sym (find-there r x es k l other) ∙ f)
  ]

  delete-here :
      (r : List ℕ) (e : Entry A) (es : List (Entry A))
      → IsKey r
      → r ≡ e.reference
      → delete r (e ∷ es) ≡ es
  unfolding delete
  delete-here r e es k same =
      let t : strncmp_eq 128 r e.reference ≡ true =
        subst (λ q. strncmp_eq 128 r q ≡ true) same (same_test r k) in
      rw t

  delete-there :
      (r : List ℕ) (e : Entry A) (es : List (Entry A))
      → IsKey r
      → IsKey e.reference
      → r ≢ e.reference
      → delete r (e ∷ es) ≡ e ∷ delete r es
  unfolding delete
  delete-there r e es k l other = rw (other_test r e.reference k l other)

  pub find-delete :
      (r : List ℕ) (es : List (Entry A)) → IsKeyed es → IsKey r → find r (delete r es) ≡ none
  unfolding IsKeyed delete find
  find-delete r [] v k = refl
  find-delete r (e ∷ es) (l, absent, v) k = elim (key_cases r e.reference k l) [
    | inl same ↦
        ap (find r) (delete-here r e es k same) ∙ subst (λ q. find q es ≡ none) (sym same) absent
    | inr other ↦
        ap (find r) (delete-there r e es k l other)
        ∙ find-there r e (delete r es) k l other
        ∙ find-delete r es v k
  ]

  pub find-delete_other :
      (r q : List ℕ) (es : List (Entry A))
      → IsKeyed es
      → IsKey r
      → IsKey q
      → r ≢ q
      → find q (delete r es) ≡ find q es
  unfolding IsKeyed delete
  find-delete_other r q [] v k m h = refl
  find-delete_other r q (e ∷ es) (l, absent, v) k m h = elim (key_cases r e.reference k l) [
    | inl same ↦
        ap (find q) (delete-here r e es k same)
        ∙ sym (find-there q e es m l (λ t. h (same ∙ sym t)))
    | inr other ↦ ap (find q) (delete-there r e es k l other) ∙ elim (key_cases q e.reference m l) [
      | inl here ↦ find-here q e (delete r es) m here ∙ sym (find-here q e es m here)
      | inr there ↦
          find-there q e (delete r es) m l there
          ∙ find-delete_other r q es v k m h
          ∙ sym (find-there q e es m l there)
    ]
  ]

  pub delete-IsKeyed :
      (r : List ℕ) (es : List (Entry A)) → IsKeyed es → IsKey r → IsKeyed (delete r es)
  unfolding IsKeyed delete
  delete-IsKeyed r [] v k = v
  delete-IsKeyed r (e ∷ es) (l, absent, v) k = elim (key_cases r e.reference k l) [
    | inl same ↦ subst IsKeyed (sym (delete-here r e es k same)) v
    | inr other ↦
        subst IsKeyed (sym (delete-there r e es k l other))
          (l, find-delete_other r e.reference es v k l other ∙ absent, delete-IsKeyed r es v k)
  ]

  insert_cases :
      (x e : Entry A) (es : List (Entry A))
      → (insert x (e ∷ es) ≡ x ∷ e ∷ es) ⊎ (insert x (e ∷ es) ≡ e ∷ insert x es)
  unfolding insert
  insert_cases x e es = elim (Bool-cases (strncmp_lt 128 x.reference e.reference)) [
    | inl less ↦ inl (rw less)
    | inr more ↦ inr (rw more)
  ]

  -- An entry that is not found is not the first one.
  absent_other :
      (r : List ℕ) (e : Entry A) (es : List (Entry A))
      → IsKey r
      → IsKey e.reference
      → find r (e ∷ es) ≡ none
      → (r ≢ e.reference) × (find r es ≡ none)
  absent_other r e es k l f =
      let other : r ≢ e.reference = λ same. none_some (sym f ∙ find-here r e es k same) in
      (other, sym (find-there r e es k l other) ∙ f)
    where
      none_some : {a : Entry A} → none ≡ some a → ⊥
      none_some e = cc

  pub find-insert :
      (x : Entry A) (es : List (Entry A))
      → IsKeyed es
      → IsKey x.reference
      → find x.reference es ≡ none
      → find x.reference (insert x es) ≡ some x
  unfolding IsKeyed insert
  find-insert x [] v k f = find-here x.reference x [] k refl
  find-insert x (e ∷ es) (l, _, v) k f =
      let (other, f') = absent_other x.reference e es k l f in
      elim (insert_cases x e es) [
        | inl first ↦ ap (find x.reference) first ∙ find-here x.reference x (e ∷ es) k refl
        | inr later ↦
            ap (find x.reference) later
            ∙ find-there x.reference e (insert x es) k l other
            ∙ find-insert x es v k f'
      ]

  pub find-insert_other :
      (x : Entry A) (q : List ℕ) (es : List (Entry A))
      → IsKeyed es
      → IsKey x.reference
      → IsKey q
      → x.reference ≢ q
      → find q (insert x es) ≡ find q es
  unfolding IsKeyed insert
  find-insert_other x q [] v k m h = find-there q x [] m k (λ e. h (sym e))
  find-insert_other x q (e ∷ es) (l, _, v) k m h = elim (insert_cases x e es) [
    | inl first ↦ ap (find q) first ∙ find-there q x (e ∷ es) m k (λ e. h (sym e))
    | inr later ↦ ap (find q) later ∙ elim (key_cases q e.reference m l) [
      | inl here ↦ find-here q e (insert x es) m here ∙ sym (find-here q e es m here)
      | inr there ↦
          find-there q e (insert x es) m l there
          ∙ find-insert_other x q es v k m h
          ∙ sym (find-there q e es m l there)
    ]
  ]

  pub insert-IsKeyed :
      (x : Entry A) (es : List (Entry A))
      → IsKeyed es
      → IsKey x.reference
      → find x.reference es ≡ none
      → IsKeyed (insert x es)
  unfolding IsKeyed insert
  insert-IsKeyed x [] v k f = (k, f, tt)
  insert-IsKeyed x (e ∷ es) (l, absent, v) k f =
      let (other, f') = absent_other x.reference e es k l f in
      elim (insert_cases x e es) [
        | inl first ↦ subst IsKeyed (sym first) (k, f, (l, absent, v))
        | inr later ↦
            subst IsKeyed (sym later) (
              l,
              find-insert_other x e.reference es v k l other ∙ absent,
              insert-IsKeyed x es v k f',
            )
      ]
