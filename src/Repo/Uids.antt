-- ===== src/Repo/Uids.antt =====
-- The references of auks_cred_repo.c: each uid has one, and no two have the same.
use auks.Base.{
  ℕ, ◌<◌, ◌^◌, ◌≡◌, ◌≢◌, refl, sym, ◌∙◌, some, some_injective, arith, length, lt→leb_false,
}
use auks.Base.Decimal.{decimal, decimal_injective, decimal-IsText, length-decimal}
use auks.Library.Entries.{IsKey}
use auks.Repo.{uid_str}

pub uid_str_lem : (uid : ℕ) → uid_str uid ≡ some (decimal uid)
unfolding uid_str
uid_str_lem uid =
    let short : length (decimal uid) < 32 = omega (arith, length-decimal uid) in
    rw (lt→leb_false 32 _ short) refl

pub decimal-IsKey : (uid : ℕ) → IsKey (decimal uid)
decimal-IsKey uid = (decimal-IsText uid, omega (arith, length-decimal uid))

pub decimal_other : (a b : ℕ) → a < 2 ^ 32 → b < 2 ^ 32 → a ≢ b → decimal a ≢ decimal b
decimal_other a b ha hb h e = h (decimal_injective a b ha hb e)

-- Two users with the same reference have the same uid, of 32 bits.
pub uid_str_injective : (a b : ℕ) → a < 2 ^ 32 → b < 2 ^ 32 → uid_str a ≡ uid_str b → a ≡ b
uid_str_injective a b ha hb e =
    decimal_injective a b ha hb (some_injective (sym (uid_str_lem a) ∙ e ∙ uid_str_lem b))
