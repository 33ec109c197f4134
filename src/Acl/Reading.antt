-- ===== src/Acl/Reading.antt =====
-- One block of the configuration file, as `auks_acl_init_from_config_file` of auks_acl.c reads it.
use auks.Base.{
  ℕ, ◌+◌, ◌≤◌, ◌<◌, ◌≡◌, refl, Bool, true, false, Option, some, none, List, [], ◌∷◌, ◌++◌,
  append-nil, arith, length, lt→leb_false,
}
use auks.Base.Results.{Res, ok, err, fault, and_then, Act}
use auks.Base.Text.{codes, c_str, strncmp_eq}
use auks.Acl.Names.{role_named, role_of-role_named}
use native.Mathlib.Nat.{add-zero}
use auks.Config
use auks.Config.{Config, Block}
use auks.Config.Cache.{IsCached, Answers}
use auks.Acl.{
  Role, Rule, System, role_of, add_rule, Loading, query, count_error, added, add_with_role,
  add_with_string,
}

-- What a block of the file means.
pub data Reading : Type 0 where
  pass : Reading
  bad : Reading
  grant : Rule → Reading

-- A role that is known, with a principal and a host, makes a rule.
abbrev pub read_rule : Option Role → Option (List ℕ) → Option (List ℕ) → Reading
read_rule (some role) (some principal) (some host) =
    grant (record { principal = principal; host = host; role = role })
read_rule none principal host = bad
read_rule (some role) none host = bad
read_rule (some role) (some principal) none = bad

-- A block of another name, and a rule with no role, are passed over.
abbrev pub read_keys : Bool → Option (List ℕ) → Option (List ℕ) → Option (List ℕ) → Reading
read_keys false role principal host = pass
read_keys true none principal host = pass
read_keys true (some role_string) principal host =
    read_rule (role_named (c_str role_string)) principal host

unfoldable pub read_block : Block → Reading
read_block b =
    read_keys (strncmp_eq 7 (codes "rule") b.name) (Config.find_key (codes "role") b.list_def)
      (Config.find_key (codes "principal") b.list_def) (Config.find_key (codes "host") b.list_def)

abbrev pub rule_of : Reading → List Rule
rule_of pass = []
rule_of bad = []
rule_of (grant r) = r ∷ []

abbrev pub errors_of : Reading → ℕ
errors_of pass = 0
errors_of bad = 1
errors_of (grant r) = 0

-- The rules of the file in its order, and the number of its bad blocks.
unfoldable pub rules_of : List Block → List Rule
rules_of [] = []
rules_of (b ∷ bs) = rule_of (read_block b) ++ rules_of bs

unfoldable pub bad_blocks : List Block → ℕ
bad_blocks [] = 0
bad_blocks (b ∷ bs) = errors_of (read_block b) + bad_blocks bs

-- The loop with this list and this number of errors.
abbrev pub state : Config → List Rule → ℕ → ℕ → Loading
state c rules room errors = record {
  config = c;
  acl = record { rules = rules; rules_nb_max = room };
  errors = errors;
}

-- It has gone on to such a state.
abbrev pub Advances : List Block → List Rule → ℕ → ℕ → Res Loading (Unit {0}) → Type 0
Advances blocks rules room errors (ok _ l) =
    (c : Config) × (l ≡ state c rules room errors) × IsCached blocks c
Advances blocks rules room errors (err e l) = ⊥
Advances blocks rules room errors fault = ⊥

pub asked :
    {A : Type 0} (P : Res Loading (Unit {0}) → Type 0) (blocks : List Block) (a : A) (l : Loading)
    (r : Res Config A) (f : A → Act Loading (Unit {0}))
    → Answers blocks a r
    → ((c : Config) → IsCached blocks c → P (f a (record l { config = c })))
    → P (and_then (query l r) f)
asked P blocks a l (ok b c) f (e, v) next = rw e (next c v)
asked P blocks a l (err e c) f d next = absurd d
asked P blocks a l fault f d next = absurd d

pub advance_then :
    (P : Res Loading (Unit {0}) → Type 0) (blocks : List Block) (rules : List Rule)
    (room errors : ℕ) (r : Res Loading (Unit {0})) (f : Act Loading (Unit {0}))
    → Advances blocks rules room errors r
    → ((c : Config) → IsCached blocks c → P (f (state c rules room errors)))
    → P (and_then r (λ _. f))
advance_then P blocks rules room errors (ok _ l) f (c, e, v) next = rw e (next c v)
advance_then P blocks rules room errors (err e l) f d next = absurd d
advance_then P blocks rules room errors fault f d next = absurd d

pub rule_of_short : (r : Reading) → length (rule_of r) ≤ 1
rule_of_short pass = omega arith
rule_of_short bad = omega arith
rule_of_short (grant r) = omega arith

-- Everything that is asked for fits in memory.
abbrev pub HasMemory : System → Type 0
HasMemory sys = (n : ℕ) → sys.has_memory n ≡ true

module _ (sys : System) (memory : HasMemory sys) (blocks : List Block) where
  counted-Advances :
      (rules : List Rule) (room n m : ℕ) (c : Config)
      → m ≡ n + 1
      → IsCached blocks c
      → Advances blocks (rules ++ []) room m (count_error (state c rules room n))
  unfolding count_error
  counted-Advances rules room n m c e v = rw (append-nil rules, e) (c, refl, v)

  pub kept-Advances :
      (rules : List Rule) (room n : ℕ) (c : Config)
      → IsCached blocks c
      → Advances blocks (rules ++ []) room (n + 0) (ok tt (state c rules room n))
  kept-Advances rules room n c v = rw (append-nil rules, add-zero n) (c, refl, v)

  added-Advances :
      (rules : List Rule) (room n : ℕ) (c : Config) (r : Rule)
      → length rules < room
      → IsCached blocks c
      → Advances blocks (rules ++ (r ∷ [])) room (n + 0) (
          added (state c rules room n) (
            add_rule sys
              (some r.principal)
              (some r.host)
              r.role
              (record { rules = rules; rules_nb_max = room })))
  unfolding added add_rule
  added-Advances rules room n c r h v =
      rw (lt→leb_false room (length rules) h, memory, memory, add-zero n) (c, refl, v)

  add_with_role-Advances :
      (role : Option Role) (principal host : Option (List ℕ)) (rules : List Rule) (room n : ℕ)
      (c : Config)
      → length rules < room
      → IsCached blocks c
      → Advances blocks
          (rules ++ rule_of (read_rule role principal host))
          room
          (n + errors_of (read_rule role principal host))
          (add_with_role sys role principal host (state c rules room n))
  unfolding add_with_role add_rule
  add_with_role-Advances none principal host rules room n c h v =
      counted-Advances rules room n _ c refl v
  add_with_role-Advances (some role) none none rules room n c h v =
      counted-Advances rules room n _ c refl v
  add_with_role-Advances (some role) none (some host) rules room n c h v =
      counted-Advances rules room n _ c refl v
  add_with_role-Advances (some role) (some principal) none rules room n c h v =
      counted-Advances rules room n _ c refl v
  add_with_role-Advances (some role) (some principal) (some host) rules room n c h v =
      added-Advances rules room n c (record { principal = principal; host = host; role = role }) h v

  pub add_with_string-Advances :
      (role principal host : Option (List ℕ)) (rules : List Rule) (room n : ℕ) (c : Config)
      → length rules < room
      → IsCached blocks c
      → Advances blocks
          (rules ++ rule_of (read_keys true role principal host))
          room
          (n + errors_of (read_keys true role principal host))
          (add_with_string sys role principal host (state c rules room n))
  unfolding add_with_string
  add_with_string-Advances none principal host rules room n c h v = kept-Advances rules room n c v
  add_with_string-Advances (some role) principal host rules room n c h v =
      rw (← role_of-role_named role)
        (add_with_role-Advances (role_of role) principal host rules room n c h v)
