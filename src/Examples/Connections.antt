-- ===== src/Examples/Connections.antt =====
-- A client whom no rule knows, and a request of an unknown type.
use auks.Base.{ℕ, ◌≡◌, true, none, some, List, [], ◌∷◌, arith, inl, inr}
use auks.Base.Text.{codes}
use auks.Base.Results.{err}
use auks.Cred.Init.{Krb, missing}
use auks.Acl.{Acl, Rule, System, admin, unknown}
use auks.Acl.Roles.{IsTextRule, Grants, nobody, later}
use auks.Daemon.Serve.{Connection, lost, sends, process_req}
use auks.Daemon.Serve.Access.{drop_error, with_session, process_req-drop_error}
use auks.Base.Results.{error, krb5}
use auks.Examples.Values.{heap, cred, one_cred, host}

abbrev krb : Krb
krb = record {
  init_context = true;
  auth_con_init = true;
  rd_cred = λ bytes. none;
  unparse = λ client. none;
  aname_to_localname = λ client. none;
  getpwnam = λ name. missing;
}

abbrev system : System
system = record { compile = λ text. none; resolve = λ name. none; has_memory = λ n. true }

-- The administrator is known on every host.
abbrev rule : Rule
rule = record { principal = codes "root"; host = codes "*"; role = admin }

abbrev acl : Acl
acl = record { rules = rule ∷ []; rules_nb_max = 1 }

-- A ping request, and then nothing.
abbrev connection : Connection
connection = record {
  srv_init = none;
  authenticate = none;
  get_rprinc = none;
  principal = codes "u@R";
  session = sends (0 ∷ 0 ∷ 0 ∷ 0 ∷ []) true (lost error);
}

rule-IsTextRule : IsTextRule rule
rule-IsTextRule = record {
  principal_text =
      ((λ e. omega arith), ((λ e. omega arith), ((λ e. omega arith), ((λ e. omega arith), tt))));
  host_text = ((λ e. omega arith), tt);
}

nobody_else : Grants system (codes "u@R") (codes "*") (rule ∷ []) unknown
nobody_else =
    later rule [] unknown
      (λ m. elim m.0 [ inl e ↦ cc e | inr (regexec, e, t) ↦ absurd (none_some e) ]) nobody
  where
    none_some : {A : Type 0} {a : A} → none ≡ some a → ⊥
    none_some e = cc

process_req-drop_error_example :
    process_req host krb cred system acl true
      (with_session (sends (0 ∷ 0 ∷ 0 ∷ 0 ∷ []) true (lost krb5)) connection)
      one_cred
    ≡ err (drop_error true connection) one_cred
process_req-drop_error_example =
    process_req-drop_error host krb cred system acl true connection one_cred
      (λ name addresses e. absurd (none_some e)) (rule-IsTextRule, tt) nobody_else
      (sends (0 ∷ 0 ∷ 0 ∷ 0 ∷ []) true (lost krb5))
  where
    none_some : {xs : List (List ℕ)} → none ≡ some xs → ⊥
    none_some e = cc
