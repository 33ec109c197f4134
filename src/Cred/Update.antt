-- ===== src/Cred/Update.antt =====
-- `auks_cred_extract`, `_store`, `_renew`, `_cross_realm` and `_deladdr` of auks_cred.c: a credential
-- that is read from a cache, written to it, or made anew from its data.
use auks.Base.{ℕ, ◌≡◌, Option, none, some, List, ltb, if◌then◌else◌}
use auks.Base.Words.{to_int}
use auks.Base.Results.{ok, err, Act, Error, and_then, or_fault, cred_init_buffer_too_large}
use auks.Base.Memory.{read_at}
use auks.Cred
use auks.Cred.{Cred}
use auks.Cred.Init
use auks.Cred.Init.{Krb}

-- What comes from another side: bytes, or an error.
pub data Answer : Type 0 where
  failed : Error → Answer
  received : List ℕ → Answer

-- The calls auks_krb5_cred_get, _store, _renew_buffer, _cross_realm_buffer and _deladdr_buffer, as
-- they turn out: with the Kerberos library they reach a cache or a key distribution centre.
pub record Kdc : Type 0 where
  pub get : Option (List ℕ) → Answer
  pub store : Option (List ℕ) → List ℕ → Option Error
  pub renew_buffer : List ℕ → ℕ → Answer
  pub cross_realm_buffer : List ℕ → List ℕ → Answer
  pub deladdr_buffer : List ℕ → Answer

-- `data` and `length` of a credential, as they are handed to another function.
pub data_of : {S : Type 0} → Cred → Act S (List ℕ)
data_of cred s = or_fault (read_at cred.contents 0 cred.length) s

module _ (krb : Krb) (kdc : Kdc) where
  -- The end that the three functions share: the new data are read into the cleared credential.
  pub replaced : Answer → Act Cred (Unit {0})
  replaced (failed e) cred = err e cred
  replaced (received rbuf) cred =
      if ltb (to_int cred.max_length) (to_int (auks.Base.length rbuf))
      then err cred_init_buffer_too_large cred
      else Init.init krb (some (some rbuf)) (auks.Base.length rbuf) (Cred.free_contents cred)

  -- `auks_cred_renew`
  pub renew : ℕ → Act Cred (Unit {0})
  unfolding replaced
  renew flags cred = and_then (data_of cred cred) λ bytes. replaced (kdc.renew_buffer bytes flags)

  -- `auks_cred_cross_realm`
  pub cross_realm : List ℕ → Act Cred (Unit {0})
  unfolding replaced
  cross_realm realm cred =
      and_then (data_of cred cred) λ bytes. replaced (kdc.cross_realm_buffer realm bytes)

  -- `auks_cred_deladdr`
  pub deladdr : Act Cred (Unit {0})
  unfolding replaced
  deladdr cred = and_then (data_of cred cred) λ bytes. replaced (kdc.deladdr_buffer bytes)

  extracted : Answer → Act Cred (Unit {0})
  extracted (failed e) cred = err e cred
  extracted (received bytes) cred = Init.init krb (some (some bytes)) (auks.Base.length bytes) cred

  -- `auks_cred_extract`
  pub extract : Option (List ℕ) → Act Cred (Unit {0})
  unfolding extracted
  extract ccache cred = extracted (kdc.get ccache) cred

  -- `auks_cred_store`; `none` is AUKS_SUCCESS.
  pub store : {S : Type 0} → Option (List ℕ) → Cred → Act S (Option Error)
  store ccache cred s = and_then (data_of cred s) λ bytes. ok (kdc.store ccache bytes)

  -- The status of the call is its result, and never an error of the model.
  pub store-ne-err :
      {S : Type 0} (ccache : Option (List ℕ)) (cred : Cred) (s new : S) (e : Error)
      → store ccache cred s ≡ err e new
      → ⊥
  unfolding store data_of
  store-ne-err {S} ccache cred s new e = go (read_at cred.contents 0 cred.length)
    where
      go :
          (o : Option (List ℕ))
          → and_then (or_fault {S = S} o s) (λ bytes. ok (kdc.store ccache bytes)) ≡ err e new
          → ⊥
      go none h = cc
      go (some bytes) h = cc
