-- ===== src/Examples/Requests.antt =====
-- Requests of a user for their own credential, and of a guest.
use auks.Base.{◌≡◌, refl, sym, ◌∙◌, subst, true, none, some, [], ◌++◌, arith, some_injective}
use auks.Base.Text.{codes}
use auks.Base.Words.{htonl}
use auks.Base.Results.{ok}
use auks.Buffer.View.{Split}
use auks.Message.{Message}
use auks.Cred.{Cred}
use auks.Cred.Wire.{IsValid}
use auks.Cred.Init.{Krb, missing}
use auks.Acl.{user, guest}
use auks.Daemon.{get_req, remove_req, add_cred}
use auks.Daemon.Answers.{
  GetAnswers, RemoveAnswers, AddAnswers, get_req-Answers, remove_req-Answers, add_cred-Answers,
}
use auks.Daemon.Serve.{process_msg}
use auks.Daemon.Serve.Gets.{Processes, process_msg-Processes}
use auks.Repo.Contents.{cred_of}
use auks.Examples.Values.{
  heap, heap-HasMemory, cred, cred-IsValid, one_cred, one_cred-Holds, one_cred-IsSound, host,
}

abbrev pub krb : Krb
krb = record {
  init_context = true;
  auth_con_init = true;
  rd_cred = λ bytes. none;
  unparse = λ client. none;
  aname_to_localname = λ client. none;
  getpwnam = λ name. missing;
}

-- A request about the user 1000, of which the type is read.
abbrev request : Message
request = record {
  type = 3;
  buffer = record { bytes = some (htonl 3 ++ (htonl 1000 ++ [])); length = 8; processed = 4 };
}

request-Split : Split request.buffer (htonl 3) (htonl 1000 ++ [])
unfolding htonl
request-Split = record { contents = refl; done = refl; size = refl; bounded = omega arith }

pub valid : (c : Cred) → cred_of 1000 one_cred ≡ some c → IsValid c
valid c e = subst IsValid (some_injective (sym one_cred-Holds.here ∙ e)) cred-IsValid

get_req-Answers_example :
    GetAnswers host krb cred
      (codes "u@R")
      user
      one_cred
      (cred_of 1000 one_cred)
      (get_req host krb cred (codes "u@R") user request one_cred)
get_req-Answers_example =
    get_req-Answers host krb cred (codes "u@R") user refl heap-HasMemory 1000 request (htonl 3) []
      one_cred (omega arith) request-Split one_cred-IsSound valid

remove_req-Answers_example :
    RemoveAnswers host krb cred
      (codes "u@R")
      guest
      1000
      one_cred
      (cred_of 1000 one_cred)
      (remove_req host krb cred (codes "u@R") guest request one_cred)
remove_req-Answers_example =
    remove_req-Answers host krb cred (codes "u@R") guest refl heap-HasMemory 1000 request (htonl 3)
      [] one_cred (omega arith) request-Split one_cred-IsSound

add_cred-Answers_example :
    AddAnswers host krb cred
      (codes "u@R")
      guest
      cred
      one_cred
      (add_cred host krb cred (codes "u@R") guest (ok tt cred) one_cred)
add_cred-Answers_example =
    add_cred-Answers host krb cred (codes "u@R") guest refl heap-HasMemory cred one_cred refl
      (omega arith) one_cred-IsSound

process_msg-Processes_example :
    Processes host krb cred
      (codes "u@R")
      user
      1000
      one_cred
      (process_msg host krb cred (codes "u@R") user (htonl 3 ++ htonl 1000) true one_cred)
process_msg-Processes_example =
    process_msg-Processes host krb cred (codes "u@R") user refl heap-HasMemory 1000 one_cred
      (omega arith) one_cred-IsSound valid
