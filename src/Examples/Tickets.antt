-- ===== src/Examples/Tickets.antt =====
-- The data of one ticket.
use auks.Base.{◌≡◌, true, false, some, [], ◌∷◌, arith}
use auks.Base.Text.{codes}
use auks.Cred.Init.{Krb, KrbCred, entry, init}
use auks.Cred.Init.Accepted.{HasArrays, Accepts, init-Accepts}
use auks.Examples.Values.{cred, cred-IsValid}

abbrev pub ticket : KrbCred
ticket = record {
  client = codes "u@R";
  starttime = 1000;
  endtime = 5000;
  renew_till = 9000;
  has_addresses = false;
}

abbrev pub tickets : Krb
tickets = record {
  init_context = true;
  auth_con_init = true;
  rd_cred = λ bytes. some (ticket ∷ []);
  unparse = λ client. some client;
  aname_to_localname = λ client. some (codes "u");
  getpwnam = λ name. entry 1000;
}

cred-HasArrays : HasArrays cred
cred-HasArrays = record {
  principal_size = cred-IsValid.principal_size;
  contents_size = cred-IsValid.contents_size;
}

not_empty : some (ticket ∷ []) ≡ some [] → ⊥
not_empty e = cc

init-Accepts_example :
    Accepts tickets (1 ∷ 2 ∷ 3 ∷ []) (init tickets (some (some (1 ∷ 2 ∷ 3 ∷ []))) 3 cred)
init-Accepts_example =
    init-Accepts tickets (1 ∷ 2 ∷ 3 ∷ []) cred (omega arith) not_empty cred-HasArrays
