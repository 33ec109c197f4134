-- ===== src/Api/Renew.antt =====
-- `auks_api_renew_cred` of auks_api.c: the loop that keeps the credential of a cache alive.
pub mod Loop
pub mod Life
use auks.Base.{ℕ, Bool, true, false, Option, none, some, List, [], ◌∷◌, ◌==◌, if◌then◌else◌}
use auks.Base.Results.{
  Res, ok, err, fault, Act, Error, and_then, error, cred_still_valid, api_reply_processing,
}
use auks.Base.Memory.{Allocator}
use auks.Cred.{Cred, renew_test}
use auks.Cred.Init.{Krb}
use auks.Cred.Update
use auks.Cred.Update.{Kdc}
use auks.Api.{Engine, Network, Trace, sleeping}
use auks.Api.Calls.{get_auks_cred}

-- `AUKS_API_RENEW_ONCE`
abbrev pub renew_once : ℕ
renew_once = 0

-- What becomes of the process of a helper script.
pub data Helper : Type 0 where
  fork_failed waitpid_failed killed : Helper
  exited : ℕ → Helper

-- `auks_api_run_helper`; no script is no failure, and neither is one that a signal ends.
pub run_helper : Option (List ℕ) → Helper → Option Error
run_helper none helper = none
run_helper (some script) fork_failed = some error
run_helper (some script) waitpid_failed = some error
run_helper (some script) killed = none
run_helper (some script) (exited code) = if code == 0 then none else some error

-- The surroundings of one turn of the loop: the cache and the distribution centre, the time, the
-- servers, and the helper.
pub record Turn : Type 0 where
  pub kdc : Kdc
  pub now : ℕ
  pub net : Network
  pub helper : Helper

-- After a turn: the next one, or the end of the loop with a status.
pub data Next : Type 0 where
  again : Next
  ended : Option Error → Next

pub is_still_valid : Error → Bool
is_still_valid cred_still_valid = true
is_still_valid _ = false

module _ ⦃mem : Allocator⦄ (krb : Krb) (stack : Cred) (engine : Engine)
    (ccache : Option (List ℕ)) where
  by_kdc : Res Cred (Unit {0}) → Act Trace Cred
  by_kdc (ok _ cred) t = ok cred t
  by_kdc (err e cred) t = err e t
  by_kdc fault t = fault

  renewed : Turn → Cred → Res Trace Cred → Res Trace Cred
  unfolding by_kdc
  renewed turn cred2r (ok cred t) = ok cred t
  renewed turn cred2r (err e t) = by_kdc (Update.renew krb turn.kdc 1 cred2r) t
  renewed turn cred2r fault = fault

  -- `auks_api_renew_auks_cred`: the credential of the daemon, or else one of the distribution centre.
  pub renew_auks_cred : Turn → Cred → Act Trace Cred
  unfolding renewed
  renew_auks_cred turn cred2r t =
      renewed turn cred2r (get_auks_cred turn.net engine cred2r.info.uid t)

  -- The label `sleep`: a loop goes on.
  slept : Bool → Option Error → Act Trace Next
  slept true status t = ok again (sleeping engine.renewer_delay ∷ t)
  slept false status t = ok (ended status) t

  stored : Bool → Turn → Option Error → Act Trace Next
  unfolding slept
  stored loop turn (some e) t = ok (ended (some api_reply_processing)) t
  stored loop turn none t = slept loop (run_helper engine.helper_script turn.helper) t

  kept : Bool → Turn → Res Trace Cred → Res Trace Next
  unfolding stored
  kept loop turn (ok cred t) = and_then (Update.store krb turn.kdc ccache cred t) (stored loop turn)
  kept loop turn (err e t) = ok (ended (some e)) t
  kept loop turn fault = fault

  tested : Bool → Turn → Cred → Option Error → Act Trace Next
  unfolding kept
  tested loop turn cred none t = kept loop turn (renew_auks_cred turn cred t)
  tested loop turn cred (some e) t =
      if is_still_valid e then slept loop (some e) t else ok (ended (some e)) t

  extracted : Bool → Turn → Res Cred (Unit {0}) → Act Trace Next
  unfolding tested
  extracted loop turn (ok _ cred) t =
      tested loop turn cred (renew_test cred engine.renewer_minlifetime turn.now) t
  extracted loop turn (err e cred) t = ok (ended (some e)) t
  extracted loop turn fault t = fault

  -- One turn; `loop` is the flag that the mode "once" clears.
  pub take_turn : Bool → Turn → Act Trace Next
  unfolding extracted
  take_turn loop turn t = extracted loop turn (Update.extract krb turn.kdc ccache stack) t

  turns : Bool → List Turn → Act Trace (Option (Option Error))
  turns loop [] t = ok none t
  turns loop (turn ∷ rest) t =
      and_then (take_turn loop turn t)
        λ next t. elim next [ again ↦ turns loop rest t | ended status ↦ ok (some status) t ]

  -- `auks_api_renew_cred` in these turns: the status, or `none` where it is still running.
  pub renew_cred : ℕ → List Turn → Act Trace (Option (Option Error))
  unfolding turns
  renew_cred mode all t = turns (if mode == renew_once then false else true) all t
