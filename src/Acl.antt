-- ===== src/Acl.antt =====
-- src/api/auks/auks_acl.c: the access control list, which gives a principal its role.
pub mod Roles
pub mod Names
pub mod Reading
pub mod Load
use auks.Base.{
  ℕ, zero, suc, ◌+◌, ◌*◌, Bool, true, false, ◌&&◌, ◌||◌, Option, none, some, List, [], ◌∷◌, ◌++◌,
  length, ltb, leb, ◌==◌, if◌then◌else◌,
}
use auks.Base.Results.{
  Res, Error, ok, err, fault, Act, and_then, ◌>>=◌, pure, error, acl_init, acl_parsing, acl_is_full,
  acl_file_is_empty, acl_file_is_invalid, acl_rule_is_invalid,
}
use auks.Base.Text.{codes, strncmp_eq}
use auks.Config
use auks.Config.{Config}

-- `enum AUKS_ACL_ROLE`
pub data Role : Type 0 where
  unknown guest user admin : Role

-- `auks_acl_rule_t`
pub record Rule : Type 0 where
  pub principal : List ℕ
  pub host : List ℕ
  pub role : Role

-- `auks_acl_t`; `rules` are the first `rules_nb` elements of `rules_array`.
pub record Acl : Type 0 where
  pub rules : List Rule
  pub rules_nb_max : ℕ

-- What the functions use of the C library: POSIX regular expressions (`compile` is `regcomp` with
-- REG_EXTENDED and then `regexec`), the addresses of a host in dotted form (`getaddrinfo`,
-- `inet_ntoa`), and whether `malloc` and `strdup` have memory for so many bytes.
pub record System : Type 0 where
  pub compile : List ℕ → Option (List ℕ → Bool)
  pub resolve : List ℕ → Option (List (List ℕ))
  pub has_memory : ℕ → Bool

abbrev pub star : List ℕ
star = codes "*"

matches : Option (List ℕ → Bool) → List ℕ → Bool
matches none principal = false
matches (some regexec) principal = regexec principal

any_address : List ℕ → List (List ℕ) → Bool
any_address host [] = false
any_address host (a ∷ rest) = strncmp_eq (length host + 1) host a || any_address host rest

dns_matches : List ℕ → Option (List (List ℕ)) → Bool
unfolding any_address
dns_matches host none = false
dns_matches host (some addresses) = any_address host addresses

-- A rule has three sizes: two `strdup`s.
copies : System → List ℕ → List ℕ → Bool
copies sys principal host =
    sys.has_memory (length principal + 1) && sys.has_memory (length host + 1)

module _ (sys : System) where
  -- `_auks_acl_rule_check_principal`
  pub check_principal : Rule → List ℕ → Bool
  unfolding matches
  check_principal rule principal =
      if strncmp_eq 2 rule.principal star
      then true
      else matches (sys.compile rule.principal) principal

  -- `_auks_acl_rule_check_host`: any host, the very name, or one of its addresses.
  pub check_host : Rule → List ℕ → Bool
  unfolding dns_matches
  check_host rule host =
      if strncmp_eq 2 rule.host star
      then true
      else (strncmp_eq (length host + 1) host rule.host || dns_matches host (sys.resolve rule.host))

  -- The loop of `auks_acl_get_role`.
  pub first_role : List Rule → List ℕ → List ℕ → Role
  first_role [] principal host = unknown
  first_role (r ∷ rules) principal host =
      if check_principal r principal && check_host r host
      then r.role
      else first_role rules principal host

  -- `auks_acl_get_role`, which never fails.
  pub get_role : Acl → List ℕ → List ℕ → Role
  get_role acl principal host = first_role acl.rules principal host

  -- `auks_acl_init`: room for so many rules of 24 bytes.
  pub init : ℕ → Res Acl (Unit {0})
  init max_rules_nb =
      let acl : Acl = record { rules = []; rules_nb_max = max_rules_nb } in
      if sys.has_memory (24 * max_rules_nb) then ok tt acl else err acl_init acl

  -- `auks_acl_add_rule` and `_auks_acl_rule_init`; `none` is NULL.
  pub add_rule : Option (List ℕ) → Option (List ℕ) → Role → Act Acl (Unit {0})
  unfolding copies
  add_rule (some principal) (some host) role acl =
      if leb acl.rules_nb_max (length acl.rules)
      then err acl_is_full acl
      else if copies sys principal host
      then ok tt (record acl {
        rules = acl.rules ++ (record { principal = principal; host = host; role = role } ∷ []);
      })
      else err acl_rule_is_invalid acl
  add_rule _ none role acl = err error acl
  add_rule none (some host) role acl = err error acl

-- `auks_acl_free_contents`
pub free_contents : Act Acl (Unit {0})
free_contents acl = ok tt (record { rules = []; rules_nb_max = 0 })

-- The role of a rule in the configuration file, by three calls of `strncmp`.
pub role_of : List ℕ → Option Role
role_of role_string =
    if strncmp_eq 5 (codes "user") role_string
    then some user
    else if strncmp_eq 6 (codes "admin") role_string
    then some admin
    else if strncmp_eq 5 (codes "guest") role_string
    then some guest
    else none

-- The configuration file and the list while it is built, with the count of errors.
pub record Loading : Type 0 where
  pub config : Config
  pub acl : Acl
  pub errors : ℕ

-- A call of the configuration reader.
abbrev query : {A : Type 0} → Loading → Res Config A → Res Loading A
query l (ok a c) = ok a (record l { config = c })
query l (err e c) = err e (record l { config = c })
query l fault = fault

abbrev ask : {A : Type 0} → Act Config A → Act Loading A
ask call l = query l (call l.config)

count_error : Act Loading (Unit {0})
count_error l = ok tt (record l { errors = l.errors + 1 })

added : Loading → Res Acl (Unit {0}) → Res Loading (Unit {0})
unfolding count_error
added l (ok _ acl) = ok tt (record l { acl = acl })
added l (err _ acl) = count_error (record l { acl = acl })
added l fault = fault

-- A block whose name is not "rule" is passed over; `none` is a read through NULL.
is_rule : Option (List ℕ) → Option Bool
is_rule none = none
is_rule (some name) = some (strncmp_eq 7 (codes "rule") name)

module _ (sys : System) where
  -- One rule of the file, from its role on.
  add_with_role : Option Role → Option (List ℕ) → Option (List ℕ) → Act Loading (Unit {0})
  unfolding added
  add_with_role none principal host l = count_error l
  add_with_role (some role) principal host l = added l (add_rule sys principal host role l.acl)

  -- A rule with no role is passed over, and is no error.
  pub add_with_string : Option (List ℕ) → Option (List ℕ) → Option (List ℕ) → Act Loading (Unit {0})
  unfolding add_with_role
  add_with_string none principal host l = ok tt l
  add_with_string (some role_string) principal host l =
      add_with_role (role_of role_string) principal host l

  add_block : Option Bool → ℕ → Act Loading (Unit {0})
  add_block none i l = fault
  add_block (some false) i l = ok tt l
  add_block (some true) i l =
      (do
        role_string ← ask (Config.get_key_value_by_name i (codes "role"))
        principal ← ask (Config.get_key_value_by_name i (codes "principal"))
        host ← ask (Config.get_key_value_by_name i (codes "host"))
        add_with_string role_string principal host)
        l

  -- The body of the loop of `auks_acl_init_from_config_file`.
  load_block : ℕ → Act Loading (Unit {0})
  load_block i = do name ← ask (Config.get_block_name i); add_block (is_rule name) i

  -- The loop, with the number of rounds that are left.
  load_blocks : ℕ → ℕ → Act Loading (Unit {0})
  load_blocks zero i l = ok tt l
  load_blocks (suc n) i l = and_then (load_block i l) (λ _. load_blocks n (i + 1))

  -- What comes of it: with an error the list is freed again.
  finished : Acl → Res Loading (Unit {0}) → Res Acl (Unit {0})
  unfolding free_contents
  finished before (ok _ l) =
      if l.errors == 0
      then ok tt l.acl
      else and_then (free_contents l.acl) (λ _. err acl_file_is_invalid)
  finished before (err e l) = err e before
  finished before fault = fault

  with_room : Config → Acl → ℕ → Res Acl (Unit {0}) → Res Acl (Unit {0})
  unfolding finished
  with_room config before block_nb (ok _ acl) =
      finished before (load_blocks block_nb 0 (record { config = config; acl = acl; errors = 0 }))
  with_room config before block_nb (err e acl) = err acl_init before
  with_room config before block_nb fault = fault

  with_count : Acl → Res Config ℕ → Res Acl (Unit {0})
  unfolding with_room
  with_count before (ok block_nb config) =
      if block_nb == 0
      then err acl_file_is_empty before
      else with_room config before block_nb (init sys block_nb)
  with_count before (err e config) = err e before
  with_count before fault = fault

  -- `auks_acl_init_from_config_file` on what `config_ParseFile` returns.
  pub init_from_config_file : Option Config → Act Acl (Unit {0})
  unfolding with_count
  init_from_config_file none before = err acl_parsing before
  init_from_config_file (some config) before = with_count before (Config.get_nb_blocks config)
