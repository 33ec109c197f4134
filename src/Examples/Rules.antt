-- ===== src/Examples/Rules.antt =====
-- A configuration file with rules, and a list of rules.
use auks.Base.{ℕ, ◌≡◌, ◌↔◌, refl, true, none, some, List, [], ◌∷◌, arith}
use auks.Base.Text.{codes, IsText}
use auks.Config.{Block, Affect, parsed, get_key_value_by_name, get_block_index_by_name}
use auks.Config.Cache.{parsed-IsCached}
use auks.Config.Keys.{Looks, get_key_value_by_name-Looks}
use auks.Config.Names.{Searched, get_block_index_by_name-Searched}
use auks.Acl.{Acl, Rule, System, user, get_role, init_from_config_file}
use auks.Acl.Roles.{IsTextRule, Grants, get_role_iff}
use auks.Acl.Load.{Loaded, init_from_config_file-Loaded}

abbrev line : List ℕ → List ℕ → Affect
line name value = record { varname = name; varvalue = value }

abbrev block : Block
block = record {
  name = codes "rule";
  list_def =
      line (codes "principal") (codes "root@R")
      ∷ line (codes "host") (codes "*")
      ∷ line (codes "Role") (codes "admin")
      ∷ [];
}

abbrev other : Block
other = record { name = codes "common"; list_def = [] }

-- No expression compiles, and no name is resolved.
abbrev system : System
system = record { compile = λ text. none; resolve = λ name. none; has_memory = λ n. true }

abbrev no_acl : Acl
no_acl = record { rules = []; rules_nb_max = 0 }

abbrev rule : Rule
rule = record { principal = codes "*"; host = codes "h"; role = user }

abbrev acl : Acl
acl = record { rules = rule ∷ []; rules_nb_max = 1 }

get_key_value_by_name-Looks_example :
    Looks
      (other ∷ block ∷ [])
      1
      (codes "role")
      (get_key_value_by_name 1 (codes "role") (parsed (some (other ∷ block ∷ []))))
get_key_value_by_name-Looks_example =
    get_key_value_by_name-Looks other (block ∷ []) 1 (codes "role")
      (parsed (some (other ∷ block ∷ []))) (parsed-IsCached (other ∷ block ∷ []))

get_block_index_by_name-Searched_example :
    Searched
      (codes "RULE")
      (other ∷ block ∷ [])
      (get_block_index_by_name (codes "RULE") (parsed (some (other ∷ block ∷ []))))
get_block_index_by_name-Searched_example =
    get_block_index_by_name-Searched (codes "RULE") other (block ∷ [])
      (parsed (some (other ∷ block ∷ []))) (parsed-IsCached (other ∷ block ∷ []))

rule-IsTextRule : IsTextRule rule
rule-IsTextRule = record {
  principal_text = ((λ e. omega arith), tt);
  host_text = ((λ e. omega arith), tt);
}

host-IsText : IsText (codes "h")
host-IsText = ((λ e. omega arith), tt)

get_role_iff_example :
    (get_role system acl (codes "u@R") (codes "h") ≡ user)
    ↔ Grants system (codes "u@R") (codes "h") (rule ∷ []) user
get_role_iff_example =
    get_role_iff system acl (codes "u@R") (codes "h") user
      (λ name addresses e. absurd (none_some e)) (rule-IsTextRule, tt) host-IsText
  where
    none_some : {xs : List (List ℕ)} → none ≡ some xs → ⊥
    none_some e = cc

init_from_config_file-Loaded_example :
    Loaded system
      (λ n. refl)
      other
      (block ∷ [])
      (init_from_config_file system (some (parsed (some (other ∷ block ∷ [])))) no_acl)
init_from_config_file-Loaded_example =
    init_from_config_file-Loaded system (λ n. refl) other (block ∷ []) no_acl
