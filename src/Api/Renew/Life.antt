-- ===== src/Api/Renew/Life.antt =====
-- The loop of `auks_api_renew_cred` of auks_api.c over many turns, and its mode "once".
use auks.Base.{
  ℕ, ◌≡◌, ◌≢◌, ◌⊎◌, refl, sym, true-false, inl, inr, true, false, Option, none, some, List, [], ◌∷◌,
  arith, ◌==◌,
}
use auks.Base.Results.{Res, ok, err, fault, Error, and_then}
use auks.Base.Memory.{Allocator}
use auks.Cred.{Cred}
use auks.Cred.Init.{Krb}
use auks.Api.{Engine, Trace, sleeping}
use auks.Api.Renew.{
  renew_once, run_helper, Turn, Next, again, ended, slept, take_turn, turns, renew_cred,
}
use auks.Api.Renew.Loop.{Renews, Waits, Turns, take_turn-Turns}

module _ ⦃mem : Allocator⦄ (krb : Krb) (stack : Cred) (engine : Engine)
    (ccache : Option (List ℕ)) where
  -- The loop ends in this turn, which neither renews nor waits.
  abbrev Stops : Turn → Trace → Res Trace (Option (Option Error)) → Type 0
  Stops turn t (ok none new) = ⊥
  Stops turn t (ok (some none) new) = ⊥
  Stops turn t (ok (some (some e)) new) =
      (¬ Waits krb stack engine ccache turn)
      × ((mid : Trace) → ¬ Renews krb stack engine ccache turn t mid)
  Stops turn t (err e new) = ⊥
  Stops turn t fault = Unit {0}

  -- What the loop does in these turns: it goes on after a turn that renews or waits, with a sleep,
  -- and it ends with an error in the first other turn.
  abbrev pub Lives : List Turn → Trace → Res Trace (Option (Option Error)) → Type 0
  Lives [] t (ok none new) = new ≡ t
  Lives [] t (ok (some status) new) = ⊥
  Lives [] t (err e new) = ⊥
  Lives [] t fault = ⊥
  Lives (turn ∷ rest) t r =
      ((mid : Trace) × ((Renews krb stack engine ccache turn t mid
            ⊎ ((mid ≡ t) × Waits krb stack engine ccache turn))
          × Lives rest (sleeping engine.renewer_delay ∷ mid) r))
      ⊎ Stops turn t r

  -- What a single turn comes to.
  abbrev pub Once : Turn → Trace → Res Trace (Option (Option Error)) → Type 0
  Once turn t (ok none new) = ⊥
  Once turn t (ok (some none) new) =
      Renews krb stack engine ccache turn t new
      × (run_helper engine.helper_script turn.helper ≡ none)
  Once turn t (ok (some (some e)) new) =
      (mid : Trace)
      → Renews krb stack engine ccache turn t mid
      → run_helper engine.helper_script turn.helper ≡ none
      → ⊥
  Once turn t (err e new) = ⊥
  Once turn t fault = Unit {0}

  turns-Lives :
      (all : List Turn) (t : Trace) → Lives all t (turns krb stack engine ccache true all t)
  unfolding turns
  turns-Lives [] t = refl
  turns-Lives (turn ∷ rest) t =
      go (take_turn krb stack engine ccache true turn t)
        (take_turn-Turns krb stack engine ccache turn t true) (turns-Lives rest)
    where
      go :
          (r : Res Trace Next)
          → Turns krb stack engine ccache true turn t r
          → ((t : Trace) → Lives rest t (turns krb stack engine ccache true rest t))
          → Lives (turn ∷ rest) t (
              and_then r λ next t. elim next [
                | again ↦ turns krb stack engine ccache true rest t
                | ended status ↦ ok (some status) t
              ])
      go (ok again new) (_, (mid, (slept, why))) ih = inl (mid, (why, rw slept (ih _)))
      go (ok (ended none) new) (h, _, _) ih = absurd (true-false h)
      go (ok (ended (some e)) new) h ih = inr h
      go (err e new) h ih = absurd h
      go fault h ih = inr tt

  -- In its other mode than "once" the loop of auks_api_renew_cred goes on, with a sleep, after
  -- each turn that renews the credential and stores it, or finds it valid for longer, whatever the
  -- helper does; it ends only with an error, in the first turn that does neither, or where memory
  -- is accessed out of bounds.
  pub renew_cred-Lives :
      (mode : ℕ) (all : List Turn) (t : Trace)
      → mode ≢ renew_once
      → Lives all t (renew_cred krb stack engine ccache mode all t)
  unfolding renew_cred
  renew_cred-Lives mode all t other =
      let loops : (mode == 0) ≡ false = ground arith in rw loops (turns-Lives all t)

  -- In the mode "once" auks_api_renew_cred is over after one turn, and it succeeds exactly where
  -- the credential is due, a new one is obtained and stored, and the helper does not fail; unless
  -- memory is accessed out of bounds.
  pub renew_cred-Once :
      (turn : Turn) (rest : List Turn) (t : Trace)
      → Once turn t (renew_cred krb stack engine ccache renew_once (turn ∷ rest) t)
  unfolding renew_cred turns
  renew_cred-Once turn rest t =
      go (take_turn krb stack engine ccache false turn t)
        (take_turn-Turns krb stack engine ccache turn t false)
    where
      go :
          (r : Res Trace Next)
          → Turns krb stack engine ccache false turn t r
          → Once turn t (
              and_then r λ next t. elim next [
                | again ↦ turns krb stack engine ccache false rest t
                | ended status ↦ ok (some status) t
              ])
      go (ok again new) (h, _) = absurd (true-false (sym h))
      go (ok (ended none) new) (_, r, helped) = (r, helped)
      go (ok (ended (some e)) new) h = h
      go (err e new) h = absurd h
      go fault h = tt
