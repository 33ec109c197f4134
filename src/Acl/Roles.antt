-- ===== src/Acl/Roles.antt =====
-- `auks_acl_get_role` of auks_acl.c: the first rule that matches decides.
use auks.Base.{
  All, or_iff, and_iff, ◌+◌, subst, true-false, some_injective, if_true_iff, ℕ, ◌≡◌, ◌↔◌, ◌⊎◌, refl,
  sym, ◌∙◌, Bool, true, ◌&&◌, ◌||◌, Option, some, none, List, [], ◌∷◌, arith, length, Bool-cases,
  inl, inr,
}
use auks.Base.Text.{IsText, strncmp_eq, strncmp_eq_iff, strncmp_eq_iff_right}
use auks.Acl.{
  Role, unknown, Rule, Acl, System, star, matches, any_address, dns_matches, check_principal,
  check_host, first_role, get_role,
}

-- `host` is one of the addresses.
pub data IsAddress (host : List ℕ) : List (List ℕ) → Type 0 where
  here : (rest : List (List ℕ)) → IsAddress host (host ∷ rest)
  there : (a : List ℕ) (rest : List (List ℕ)) → IsAddress host rest → IsAddress host (a ∷ rest)

pub record IsTextRule (r : Rule) : Type 0 where
  pub principal_text : IsText r.principal
  pub host_text : IsText r.host

IsAddress-inv :
    {host a : List ℕ} {rest : List (List ℕ)}
    → IsAddress host (a ∷ rest)
    → (host ≡ a) ⊎ IsAddress host rest
IsAddress-inv (here rest) = inl refl
IsAddress-inv (there a rest m) = inr m

any_address_iff :
    (host : List ℕ) (addresses : List (List ℕ))
    → IsText host
    → All IsText addresses
    → (any_address host addresses ≡ true) ↔ IsAddress host addresses
unfolding any_address
any_address_iff host [] h hs = (λ e. cc, λ m. elim m [ ])
any_address_iff host (a ∷ rest) h hs =
    let same = strncmp_eq_iff (length host + 1) host a h hs.0 (omega arith) in
    let split = or_iff (strncmp_eq (length host + 1) host a) (any_address host rest) in
    let ih = any_address_iff host rest h hs.1 in
    (
      λ e. elim (split.0 e) [
        | inl eq ↦ rw (same.0 eq) (here rest)
        | inr more ↦ there a rest (ih.0 more)
      ],
      λ m. elim (IsAddress-inv m) [
        | inl eq ↦ split.1 (inl (same.1 eq))
        | inr more ↦ split.1 (inr (ih.1 more))
      ],
    )

module _ (sys : System) where
  -- The rule is for every principal, or its expression compiles and matches this one.
  abbrev pub MatchesPrincipal : Rule → List ℕ → Type 0
  MatchesPrincipal rule principal =
      (rule.principal ≡ star)
      ⊎ ((regexec : List ℕ → Bool) × (sys.compile rule.principal ≡ some regexec)
          × (regexec principal ≡ true))

  -- The rule is for every host, for this very name, or for a name that has this address.
  abbrev pub MatchesHost : Rule → List ℕ → Type 0
  MatchesHost rule host =
      (rule.host ≡ star)
      ⊎ (host ≡ rule.host)
      ⊎ ((addresses : List (List ℕ)) × (sys.resolve rule.host ≡ some addresses)
          × IsAddress host addresses)

  abbrev pub Matches : Rule → List ℕ → List ℕ → Type 0
  Matches rule principal host = MatchesPrincipal rule principal × MatchesHost rule host

  -- The role that a list of rules gives: the first rule that matches gives its role, and a list
  -- with no rule that matches gives `unknown`.
  pub data Grants (principal host : List ℕ) : List Rule → Role → Type 0 where
    nobody : Grants principal host [] unknown
    first :
        (r : Rule) (rules : List Rule) (role : Role)
        → r.role ≡ role
        → Matches r principal host
        → Grants principal host (r ∷ rules) role
    later :
        (r : Rule) (rules : List Rule) (role : Role)
        → ¬ Matches r principal host
        → Grants principal host rules role
        → Grants principal host (r ∷ rules) role

  -- Addresses are texts, as `inet_ntoa` writes them.
  abbrev pub IsSound : Type 0
  IsSound =
      (name : List ℕ) (addresses : List (List ℕ))
      → sys.resolve name ≡ some addresses
      → All IsText addresses

  regex_iff :
      (o : Option (List ℕ → Bool)) (principal : List ℕ)
      → (matches o principal ≡ true)
        ↔ ((regexec : List ℕ → Bool) × (o ≡ some regexec) × (regexec principal ≡ true))
  unfolding matches
  regex_iff none principal = (λ e. cc, λ (re, same, e). cc same)
  regex_iff (some re) principal = (λ e. (re, refl, e), λ (re', same, e). rw (some_injective same) e)

  check_principal_iff :
      (r : Rule) (principal : List ℕ)
      → IsText r.principal
      → (check_principal sys r principal ≡ true) ↔ MatchesPrincipal r principal
  unfolding check_principal
  check_principal_iff r principal h =
      let any = strncmp_eq_iff_right 2 r.principal star h (omega arith) (omega arith) in
      let regex = regex_iff (sys.compile r.principal) principal in
      let split =
        if_true_iff (strncmp_eq 2 r.principal star) (matches (sys.compile r.principal) principal) in
      (
        λ e. elim (split.0 e) [ inl a ↦ inl (any.0 a) | inr b ↦ inr (regex.0 b) ],
        λ m. split.1 (elim m [ inl a ↦ inl (any.1 a) | inr b ↦ inr (regex.1 b) ]),
      )

  dns_iff :
      (o : Option (List (List ℕ))) (host : List ℕ)
      → IsText host
      → ((as' : List (List ℕ)) → o ≡ some as' → All IsText as')
      → (dns_matches host o ≡ true) ↔ ((as' : List (List ℕ)) × (o ≡ some as') × IsAddress host as')
  unfolding dns_matches
  dns_iff none host h sound = (λ e. cc, λ (as', same, m). cc same)
  dns_iff (some as') host h sound =
      let here_iff = any_address_iff host as' h (sound as' refl) in
      (
        λ e. (as', refl, here_iff.0 e),
        λ (bs, same, m). here_iff.1 (subst (IsAddress host) (sym (some_injective same)) m),
      )

  check_host_iff :
      (r : Rule) (host : List ℕ)
      → IsSound
      → IsText r.host
      → IsText host
      → (check_host sys r host ≡ true) ↔ MatchesHost r host
  unfolding check_host
  check_host_iff r host sound hr h =
      let any = strncmp_eq_iff_right 2 r.host star hr (omega arith) (omega arith) in
      let name = strncmp_eq_iff (length host + 1) host r.host h hr (omega arith) in
      let dns = dns_iff (sys.resolve r.host) host h (sound r.host) in
      let by_name = strncmp_eq (length host + 1) host r.host in
      let by_dns = dns_matches host (sys.resolve r.host) in
      let split = if_true_iff (strncmp_eq 2 r.host star) (by_name || by_dns) in
      let either = or_iff by_name by_dns in
      (
        λ e. elim (split.0 e) [
          | inl a ↦ inl (any.0 a)
          | inr b ↦ inr (elim (either.0 b) [ inl c ↦ inl (name.0 c) | inr d ↦ inr (dns.0 d) ])
        ],
        λ m. split.1 (elim m [
          | inl a ↦ inl (any.1 a)
          | inr b ↦ inr (either.1 (elim b [ inl c ↦ inl (name.1 c) | inr d ↦ inr (dns.1 d) ]))
        ]),
      )

  Matches-iff :
      (r : Rule) (principal host : List ℕ)
      → IsSound
      → IsTextRule r
      → IsText host
      → ((check_principal sys r principal && check_host sys r host) ≡ true)
        ↔ Matches r principal host
  Matches-iff r principal host sound hr h =
      let p = check_principal_iff r principal hr.principal_text in
      let q = check_host_iff r host sound hr.host_text h in
      let both = and_iff (check_principal sys r principal) (check_host sys r host) in
      (λ e. let (a, b) = both.0 e in (p.0 a, q.0 b), λ (a, b). both.1 (p.1 a, q.1 b))

  first_role-Grants :
      (rules : List Rule) (principal host : List ℕ)
      → IsSound
      → All IsTextRule rules
      → IsText host
      → Grants principal host rules (first_role sys rules principal host)
  unfolding first_role
  first_role-Grants [] principal host sound hr h = nobody
  first_role-Grants (r ∷ rules) principal host sound (hr, hrs) h =
      let m = Matches-iff r principal host sound hr h in
      let test = check_principal sys r principal && check_host sys r host in
      elim (Bool-cases test) [
        | inl e ↦ rw e (first r rules r.role refl (m.0 e))
        | inr e ↦ rw e (
            later r rules _ (λ y. true-false (sym (m.1 y) ∙ e))
              (first_role-Grants rules principal host sound hrs h))
      ]

  Grants-nobody :
      {principal host : List ℕ} {role : Role} → Grants principal host [] role → role ≡ unknown
  Grants-nobody nobody = refl

  Grants-inv :
      {principal host : List ℕ} {r : Rule} {rules : List Rule} {role : Role}
      → Grants principal host (r ∷ rules) role
      → (Matches r principal host × (r.role ≡ role))
        ⊎ ((¬ Matches r principal host) × Grants principal host rules role)
  Grants-inv (first r rules role e m) = inl (m, e)
  Grants-inv (later r rules role m g) = inr (m, g)

  Grants-unique :
      (rules : List Rule) {principal host : List ℕ} {a b : Role}
      → Grants principal host rules a
      → Grants principal host rules b
      → a ≡ b
  Grants-unique [] g g' = Grants-nobody g ∙ sym (Grants-nobody g')
  Grants-unique (r ∷ rules) g g' = elim (Grants-inv g) [
    | inl (m, e) ↦ elim (Grants-inv g') [ inl (m', e') ↦ sym e ∙ e' | inr (m', _) ↦ absurd (m' m) ]
    | inr (m, h) ↦ elim (Grants-inv g') [
      | inl (m', _) ↦ absurd (m m')
      | inr (_, h') ↦ Grants-unique rules h h'
    ]
  ]

  -- The role that auks_acl_get_role gives is exactly the one that the list of rules grants: of the
  -- first rule whose principal and host match, or unknown. Rules, host and addresses are C
  -- strings.
  pub get_role_iff :
      (acl : Acl) (principal host : List ℕ) (role : Role)
      → IsSound
      → All IsTextRule acl.rules
      → IsText host
      → (get_role sys acl principal host ≡ role) ↔ Grants principal host acl.rules role
  unfolding get_role
  get_role_iff acl principal host role sound hr h =
      let g = first_role-Grants acl.rules principal host sound hr h in
      (λ e. subst (Grants principal host acl.rules) e g, λ g'. Grants-unique acl.rules g g')
