-- ===== src/Daemon/Rights.antt =====
-- Who may do what: `_auksd_check_rw_right` and the checks of `_auksd_add_req` in auksd_req.c.
use auks.Base.{
  ℕ, ◌≡◌, ◌≢◌, ◌⊎◌, refl, sym, true, Option, none, some, List, Bool-cases, inl, inr, true-false,
  ◌==◌, arith,
}
use auks.Base.Results.{
  Error, daemon_principals_mismatch, daemon_not_authorized, daemon_addressful_cred,
}
use auks.Cred.{Cred}
use auks.Acl.{Role, admin, user, guest, unknown}
use auks.Daemon.{same_principal, check_rw_right, check_add_right, add_owner}

-- An administrator may use any credential, a user their own, nobody else any.
abbrev pub MayUse : List ℕ → Role → Cred → Type 0
MayUse principal role cred =
    (role ≡ admin) ⊎ ((role ≡ user) × (same_principal cred principal ≡ true))

-- An administrator may add any credential, every client their own; and only one without addresses.
abbrev pub MayAdd : List ℕ → Role → Cred → Type 0
MayAdd principal role cred =
    (cred.info.addressless ≢ 0) × ((role ≡ admin) ⊎ (same_principal cred principal ≡ true))

abbrev pub IsRefusal : Error → Type 0
IsRefusal e =
    (e ≡ daemon_principals_mismatch) ⊎ (e ≡ daemon_not_authorized) ⊎ (e ≡ daemon_addressful_cred)

-- A check passes and there is the right, or it reports a refusal and there is not.
abbrev pub Decides : Type 0 → Option Error → Type 0
Decides Right none = Right
Decides Right (some e) = (¬ Right) × IsRefusal e

user_admin : user ≡ admin → ⊥
user_admin e = cc

guest_admin : guest ≡ admin → ⊥
guest_admin e = cc

guest_user : guest ≡ user → ⊥
guest_user e = cc

unknown_admin : unknown ≡ admin → ⊥
unknown_admin e = cc

unknown_user : unknown ≡ user → ⊥
unknown_user e = cc

pub check_rw_right-Decides :
    (principal : List ℕ) (role : Role) (cred : Cred)
    → Decides (MayUse principal role cred) (check_rw_right principal role cred)
unfolding check_rw_right
check_rw_right-Decides principal admin cred = inl refl
check_rw_right-Decides principal user cred = elim (Bool-cases (same_principal cred principal)) [
  | inl own ↦ rw own (inr (refl, refl))
  | inr other ↦
      rw other (λ m. elim m [ inl e ↦ user_admin e | inr (_, e) ↦ true-false (sym e) ], inl refl)
]
check_rw_right-Decides principal guest cred =
    (λ m. elim m [ inl e ↦ guest_admin e | inr (e, _) ↦ guest_user e ], inr (inl refl))
check_rw_right-Decides principal unknown cred =
    (λ m. elim m [ inl e ↦ unknown_admin e | inr (e, _) ↦ unknown_user e ], inr (inl refl))

owner-Decides :
    (principal : List ℕ) (role : Role) (cred : Cred)
    → Decides
        ((role ≡ admin) ⊎ (same_principal cred principal ≡ true))
        (add_owner principal role cred)
unfolding add_owner
owner-Decides principal admin cred = inl refl
owner-Decides principal user cred = elim (Bool-cases (same_principal cred principal)) [
  | inl own ↦ rw own (inr refl)
  | inr other ↦
      rw other (λ m. elim m [ inl e ↦ user_admin e | inr e ↦ true-false (sym e) ], inl refl)
]
owner-Decides principal guest cred = elim (Bool-cases (same_principal cred principal)) [
  | inl own ↦ rw own (inr refl)
  | inr other ↦
      rw other (λ m. elim m [ inl e ↦ guest_admin e | inr e ↦ true-false (sym e) ], inl refl)
]
owner-Decides principal unknown cred = elim (Bool-cases (same_principal cred principal)) [
  | inl own ↦ rw own (inr refl)
  | inr other ↦
      rw other (λ m. elim m [ inl e ↦ unknown_admin e | inr e ↦ true-false (sym e) ], inl refl)
]

pub check_add_right-Decides :
    (principal : List ℕ) (role : Role) (cred : Cred)
    → Decides (MayAdd principal role cred) (check_add_right principal role cred)
unfolding check_add_right
check_add_right-Decides principal role cred = elim (Bool-cases (cred.info.addressless == 0)) [
  | inl bound ↦ rw bound (λ m. m.0 (ground arith), inr (inr refl))
  | inr free ↦
      rw free
        (go (add_owner principal role cred) (owner-Decides principal role cred) (λ z. ground arith))
]
  where
    go :
        (o : Option Error)
        → Decides ((role ≡ admin) ⊎ (same_principal cred principal ≡ true)) o
        → cred.info.addressless ≢ 0
        → Decides (MayAdd principal role cred) o
    go none right free = (free, right)
    go (some e) (no_right, refusal) free = (λ m. no_right m.1, refusal)
