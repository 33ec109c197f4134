-- ===== src/Engine/Settings/Needed.antt =====
-- The texts that `auks_engine_init` of src/api/auks/auks_engine.c needs, and the copies of them.
use auks.Base.{
  ℕ, ◌+◌, ◌≡◌, ◌⊎◌, refl, sym, true, false, Option, none, some, List, [], ◌∷◌, length, Bool-cases,
  inl, inr,
}
use auks.Base.Lists.{All}
use auks.Base.Memory.{Allocator, has_memory}
use auks.Base.Text.{c_str}
use auks.Engine.{Server, Common, Client, Renewer, is_some, init_strdup}
use auks.Engine.Settings.Given.{Given, IsCommonGiven, AreLogsGiven}
use auks.Engine.Settings.Filled.{address_or_host}

module _ ⦃mem : Allocator⦄ where
  -- The texts that an engine needs.
  abbrev pub needed : Common → Client → Renewer → List (Option (List ℕ))
  needed common api renewer =
      common.primary.host
      ∷ address_or_host common.primary
      ∷ common.primary.port
      ∷ common.primary.principal
      ∷ common.secondary.host
      ∷ address_or_host common.secondary
      ∷ common.secondary.port
      ∷ common.secondary.principal
      ∷ common.realm
      ∷ api.logs.log_file
      ∷ api.logs.debug_file
      ∷ renewer.logs.log_file
      ∷ renewer.logs.debug_file
      ∷ []

  -- One of these texts cannot be copied for want of memory.
  abbrev pub Among : Option (List ℕ) → List (Option (List ℕ)) → Type 0
  Among o [] = ⊥
  Among o (x ∷ xs) = (o ≡ x) ⊎ Among o xs

  abbrev pub IsShort : List (Option (List ℕ)) → Type 0
  IsShort os = (t : List ℕ) × Among (some t) os × (has_memory (length (c_str t) + 1) ≡ false)

  pub copied_or_IsShort :
      (os : List (Option (List ℕ)))
      → All Given os
      → All (λ o. is_some (init_strdup o) ≡ true) os ⊎ IsShort os
  unfolding init_strdup
  copied_or_IsShort [] g = inl tt
  copied_or_IsShort (o ∷ os) ((t, e), g) = elim (copied_or_IsShort os g) [
    | inr (u, among, short) ↦ inr (u, inr among, short)
    | inl all ↦ elim (Bool-cases (has_memory (length (c_str t) + 1))) [
      | inr short ↦ inr (t, inl (sym e), short)
      | inl room ↦ inl (rw e (rw room refl), all)
    ]
  ]

  address-Given : (s : Server) → Given s.host → Given (address_or_host s)
  unfolding address_or_host
  address-Given s g = go s.address refl
    where
      go : (o : Option (List ℕ)) → s.address ≡ o → Given (address_or_host s)
      go none e = rw e g
      go (some a) e = rw e (a, refl)

  pub needed-Given :
      (common : Common) (api : Client) (renewer : Renewer)
      → IsCommonGiven common
      → AreLogsGiven api.logs
      → AreLogsGiven renewer.logs
      → All Given (needed common api renewer)
  needed-Given common api renewer c a r = (
    c.primary.host,
    (
      address-Given common.primary c.primary.host,
      (
        c.primary.port,
        (
          c.primary.principal,
          (
            c.secondary.host,
            (
              address-Given common.secondary c.secondary.host,
              (
                c.secondary.port,
                (
                  c.secondary.principal,
                  (c.realm, (a.log_file, (a.debug_file, (r.log_file, (r.debug_file, tt))))),
                ),
              ),
            ),
          ),
        ),
      ),
    ),
  )
