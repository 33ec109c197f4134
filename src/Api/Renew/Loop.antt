-- ===== src/Api/Renew/Loop.antt =====
-- When the loop of `auks_api_renew_cred` of auks_api.c ends, and how.
use auks.Base.{
  ℕ, ◌≡◌, ◌≢◌, ◌⊎◌, refl, sym, ◌∙◌, true-false, some_injective, inl, inr, Bool, true, false, Option,
  none, some, List, ◌∷◌, Bool-cases,
}
use auks.Base.Results.{Res, ok, err, fault, Error, and_then}
use auks.Base.Memory.{Allocator}
use auks.Cred.{Cred, renew_test}
use auks.Cred.Init.{Krb}
use auks.Cred.Update
use auks.Api.{Engine, Trace, sleeping}
use auks.Api.Renew.{
  run_helper, Turn, Next, again, ended, is_still_valid, renew_auks_cred, slept, stored, kept,
  tested, extracted, take_turn,
}

module _ ⦃mem : Allocator⦄ (krb : Krb) (stack : Cred) (engine : Engine)
    (ccache : Option (List ℕ)) where
  -- A turn that renews: the credential of the cache is due, a new one is obtained and stored.
  pub record Renews (turn : Turn) (t new : Trace) : Type 0 where
    pub old : Cred
    pub fresh : Cred
    pub extracts : Update.extract krb turn.kdc ccache stack ≡ ok tt old
    pub due : renew_test old engine.renewer_minlifetime turn.now ≡ none
    pub middle : Trace
    pub obtained : renew_auks_cred krb stack engine ccache turn old t ≡ ok fresh middle
    pub stores : Update.store krb turn.kdc ccache fresh middle ≡ ok none new

  -- The credential of the cache is not due yet.
  pub record Waits (turn : Turn) : Type 0 where
    pub old : Cred
    pub extracts : Update.extract krb turn.kdc ccache stack ≡ ok tt old
    pub reason : Error
    pub valid : is_still_valid reason ≡ true
    pub early : renew_test old engine.renewer_minlifetime turn.now ≡ some reason

  -- How a turn ends. A loop goes on exactly where it renews or waits; a single turn ends well exactly
  -- where it renews and the helper does.
  abbrev pub Turns : Bool → Turn → Trace → Res Trace Next → Type 0
  Turns loop turn t (ok again new) =
      (loop ≡ true)
      × ((mid : Trace) × ((new ≡ sleeping engine.renewer_delay ∷ mid)
            × (Renews turn t mid ⊎ ((mid ≡ t) × Waits turn))))
  Turns loop turn t (ok (ended none) new) =
      (loop ≡ false) × Renews turn t new × (run_helper engine.helper_script turn.helper ≡ none)
  Turns true turn t (ok (ended (some e)) new) =
      (¬ Waits turn) × ((mid : Trace) → ¬ Renews turn t mid)
  Turns false turn t (ok (ended (some e)) new) =
      (mid : Trace) → Renews turn t mid → run_helper engine.helper_script turn.helper ≡ none → ⊥
  Turns loop turn t (err e new) = ⊥
  Turns loop turn t fault = Unit {0}

  module _ (turn : Turn) (t : Trace) where
    -- No turn renews or waits that is here.
    fails :
        (loop : Bool) (e : Error) (new : Trace)
        → ¬ Waits turn
        → ((mid : Trace) → ¬ Renews turn t mid)
        → Turns loop turn t (ok (ended (some e)) new)
    fails true e new w r = (w, r)
    fails false e new w r = λ mid renews helped. r mid renews

    some-ne-none : {A : Type 0} {a : A} → some a ≡ none → ⊥
    some-ne-none e = cc

    same_cred :
        {a b : Cred}
        → Update.extract krb turn.kdc ccache stack ≡ ok tt a
        → Update.extract krb turn.kdc ccache stack ≡ ok tt b
        → a ≡ b
    same_cred p q = cc

    not_due :
        {o : Option Error} (cred : Cred)
        → Update.extract krb turn.kdc ccache stack ≡ ok tt cred
        → renew_test cred engine.renewer_minlifetime turn.now ≡ o
        → o ≢ none
        → (mid : Trace) → ¬ Renews turn t mid
    not_due cred got tested' other mid r =
        let same : cred ≡ r.old = same_cred got r.extracts in other (sym tested' ∙ (rw same r.due))

    not_early :
        {o : Option Error} (cred : Cred)
        → Update.extract krb turn.kdc ccache stack ≡ ok tt cred
        → renew_test cred engine.renewer_minlifetime turn.now ≡ o
        → ((e : Error) → o ≡ some e → is_still_valid e ≡ false)
        → ¬ Waits turn
    not_early cred got tested' other w =
        let same : cred ≡ w.old = same_cred got w.extracts in
        let early = sym tested' ∙ (rw same w.early) in
        true-false (sym w.valid ∙ other w.reason early)

    helped-Turns :
        (loop : Bool) (o : Option Error) (mid : Trace)
        → run_helper engine.helper_script turn.helper ≡ o
        → Renews turn t mid
        → Turns loop turn t (slept krb stack engine ccache loop o mid)
    unfolding slept
    helped-Turns true o mid e r = (refl, (mid, (refl, inl r)))
    helped-Turns false none mid e r = (refl, r, e)
    helped-Turns false (some x) mid e r = λ new renews helped. some-ne-none (sym e ∙ helped)

    waited-Turns :
        (loop : Bool) (e : Error)
        → Waits turn
        → ((mid : Trace) → ¬ Renews turn t mid)
        → Turns loop turn t (slept krb stack engine ccache loop (some e) t)
    unfolding slept
    waited-Turns true e w r = (refl, (t, (refl, inr (refl, w))))
    waited-Turns false e w r = λ new renews helped. r new renews

    module _ (loop : Bool) (cred : Cred)
        (got : Update.extract krb turn.kdc ccache stack ≡ ok tt cred) where
      -- The credential that the renewal gives is the one, and so is what storing it returns.
      obtained-store :
          (fresh : Cred) (middle mid : Trace)
          → renew_auks_cred krb stack engine ccache turn cred t ≡ ok fresh middle
          → Renews turn t mid
          → Update.store krb turn.kdc ccache fresh middle ≡ ok none mid
      obtained-store fresh middle mid obtained r =
          let same : cred ≡ r.old = same_cred got r.extracts in
          let other : renew_auks_cred krb stack engine ccache turn cred t ≡ ok r.fresh r.middle =
            rw same r.obtained in
          let fresh_same : fresh ≡ r.fresh = cc in
          let middle_same : middle ≡ r.middle = cc in rw (fresh_same, middle_same) r.stores

      due-not_Waits : renew_test cred engine.renewer_minlifetime turn.now ≡ none → ¬ Waits turn
      due-not_Waits due = not_early cred got due (λ e same. absurd (some-ne-none (sym same)))

      stored-Turns :
          (fresh : Cred) (middle : Trace) (r : Res Trace (Option Error))
          → renew_test cred engine.renewer_minlifetime turn.now ≡ none
          → renew_auks_cred krb stack engine ccache turn cred t ≡ ok fresh middle
          → Update.store krb turn.kdc ccache fresh middle ≡ r
          → ((e : Error) (new : Trace) → r ≡ err e new → ⊥)
          → Turns loop turn t (and_then r (stored krb stack engine ccache loop turn))
      unfolding stored
      stored-Turns fresh middle (ok none new) due obtained e sure =
          helped-Turns loop _ new refl (record {
            old = cred;
            fresh = fresh;
            extracts = got;
            due = due;
            middle = middle;
            obtained = obtained;
            stores = e;
          })
      stored-Turns fresh middle (ok (some x) new) due obtained e sure =
          fails loop _ new (due-not_Waits due)
            λ mid r. let clash = sym e ∙ obtained-store fresh middle mid obtained r in ok_none clash
        where
          ok_none : {a : Trace} {b : Trace} → ok (some x) a ≡ ok none b → ⊥
          ok_none h = cc
      stored-Turns fresh middle (err x new) due obtained e sure = absurd (sure x new refl)
      stored-Turns fresh middle fault due obtained e sure = tt

      kept-Turns :
          (r : Res Trace Cred)
          → renew_test cred engine.renewer_minlifetime turn.now ≡ none
          → renew_auks_cred krb stack engine ccache turn cred t ≡ r
          → Turns loop turn t (kept krb stack engine ccache loop turn r)
      unfolding kept
      kept-Turns (ok fresh middle) due obtained =
          stored-Turns fresh middle _ due obtained refl
            (λ e new. Update.store-ne-err krb turn.kdc ccache fresh middle new e)
      kept-Turns (err e new) due obtained = fails loop e new (due-not_Waits due) λ mid r.
          let same : cred ≡ r.old = same_cred got r.extracts in
          let other : renew_auks_cred krb stack engine ccache turn cred t ≡ ok r.fresh r.middle =
            rw same r.obtained in
          clash r.fresh r.middle (sym obtained ∙ other)
        where
          clash : (c : Cred) (m : Trace) → err e new ≡ ok c m → ⊥
          clash c m h = cc
      kept-Turns fault due obtained = tt

      tested-Turns :
          (o : Option Error)
          → renew_test cred engine.renewer_minlifetime turn.now ≡ o
          → Turns loop turn t (tested krb stack engine ccache loop turn cred o t)
      unfolding tested
      tested-Turns none due = kept-Turns _ due refl
      tested-Turns (some e) early = elim (Bool-cases (is_still_valid e)) [
        | inl valid ↦ rw valid (
            waited-Turns loop e
              (record { old = cred; extracts = got; reason = e; valid = valid; early = early })
              (not_due cred got early some-ne-none))
        | inr other ↦ rw other (
            fails loop e t
              (not_early cred got early
                (λ x same. let e_x : e ≡ x = some_injective same in rw (← e_x) other))
              (not_due cred got early some-ne-none))
      ]

    extracted-Turns :
        (loop : Bool) (r : Res Cred (Unit {0}))
        → Update.extract krb turn.kdc ccache stack ≡ r
        → Turns loop turn t (extracted krb stack engine ccache loop turn r t)
    unfolding extracted
    extracted-Turns loop (ok _ cred) e = tested-Turns loop cred e _ refl
    extracted-Turns loop (err x cred) e =
        fails loop x t (λ w. clash w.old (sym e ∙ w.extracts))
          (λ mid r. clash r.old (sym e ∙ r.extracts))
      where
        clash : (c : Cred) → err x cred ≡ ok tt c → ⊥
        clash c h = cc
    extracted-Turns loop fault e = tt

    pub take_turn-Turns :
        (loop : Bool) → Turns loop turn t (take_turn krb stack engine ccache loop turn t)
    unfolding take_turn
    take_turn-Turns loop = extracted-Turns loop _ refl
