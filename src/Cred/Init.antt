-- ===== src/Cred/Init.antt =====
-- `auks_cred_init` of auks_cred.c: a credential from the data of a KRB-CRED message.
pub mod Accepted
use auks.Base.{
  ℕ, ◌+◌, ◌-◌, ◌^◌, Bool, true, false, not, Option, none, some, List, [], ◌∷◌, ◌++◌, ltb,
  if◌then◌else◌,
}
use auks.Base.Words.{to_int, lt_time}
use auks.Base.Results.{
  Res, ok, err, fault, Act, ◌>>=◌, ◌>>◌, and_then, guard, or_fail, or_fault,
  cred_init_buffer_too_large, cred_init_buffer_is_null, cred_init_krb_ctx_init,
  cred_init_krb_auth_ctx_init, cred_init_krb_rd_buffer, cred_init_krb_rd_princ,
  cred_init_krb_princ_too_long, cred_init_krb_princ_to_uname, cred_init_getpwnam,
}
use auks.Base.Memory.{write_at}
use auks.Cred.{
  Cred, CredInfo, principal_max_length, data_max_length, invalid_uid, invalid_time, free_contents,
}

-- A `krb5_creds`: its client, its times (`krb5_timestamp`s, 32-bit patterns), and whether it is
-- bound to addresses.
pub record KrbCred : Type 0 where
  pub client : List ℕ
  pub starttime : ℕ
  pub endtime : ℕ
  pub renew_till : ℕ
  pub has_addresses : Bool

-- What `getpwnam_r` returns: an error, 0 with a NULL result, or 0 with an entry.
pub data Passwd : Type 0 where
  failed missing : Passwd
  entry : ℕ → Passwd

-- The functions of the Kerberos library and of the C library. `rd_cred` is `krb5_rd_cred`, whose
-- array has one credential at least; `unparse` is `krb5_unparse_name_ext`.
pub record Krb : Type 0 where
  pub init_context : Bool
  pub auth_con_init : Bool
  pub rd_cred : List ℕ → Option (List KrbCred)
  pub unparse : List ℕ → Option (List ℕ)
  pub aname_to_localname : List ℕ → Option (List ℕ)
  pub getpwnam : List ℕ → Passwd

-- `(time_t)` of a `krb5_timestamp`: its sign is extended.
to_time : ℕ → ℕ
to_time t = if ltb t (2 ^ 31) then t else t + (2 ^ 64 - 2 ^ 32)

-- The macros `MIN` and `MAX` on `time_t`.
min_time : ℕ → ℕ → ℕ
min_time a b = if lt_time a b then a else b

max_time : ℕ → ℕ → ℕ
max_time a b = if lt_time b a then a else b

-- `memcpy` into `principal` and into `data`.
pub set_principal : List ℕ → Act Cred (Unit {0})
set_principal bytes cred =
    and_then (or_fault (write_at cred.info.principal 0 bytes) cred)
      λ new cred. ok tt (record cred { info = record cred.info { principal = new } })

pub set_contents : ℕ → List ℕ → Act Cred (Unit {0})
set_contents offset bytes cred =
    and_then (or_fault (write_at cred.contents offset bytes) cred)
      λ new cred. ok tt (record cred { contents = new })

-- The values before anything is read; the arrays keep all but one byte.
blank : Act Cred (Unit {0})
unfolding set_principal set_contents
blank cred = (set_principal (0 ∷ []) >> set_contents 1 (0 ∷ [])) (record {
  info = record {
    principal = cred.info.principal;
    uid = invalid_uid;
    starttime = invalid_time;
    endtime = invalid_time;
    renew_till = invalid_time;
    addressless = 1;
    crossrealm = 0;
  };
  contents = cred.contents;
  length = 0;
  max_length = data_max_length;
  status = 0;
})

-- The uid of a user: with no entry, a variable is read that nothing was written to.
uid_of : Passwd → Act Cred ℕ
uid_of failed cred = err cred_init_getpwnam cred
uid_of missing cred = fault
uid_of (entry uid) cred = ok uid cred

-- The loop over the further credentials.
adjust : List KrbCred → CredInfo → CredInfo
unfolding to_time min_time max_time
adjust [] info = info
adjust (c ∷ cs) info = adjust cs (record info {
  crossrealm = 1;
  starttime = min_time info.starttime (to_time c.starttime);
  endtime = min_time info.endtime (to_time c.endtime);
  renew_till = max_time info.renew_till (to_time c.renew_till);
})

-- The fields that are read from the credentials.
info_of : ℕ → KrbCred → List KrbCred → CredInfo → CredInfo
unfolding adjust
info_of uid first rest info =
    let all = adjust rest (record info {
      uid = uid;
      starttime = to_time first.starttime;
      endtime = to_time first.endtime;
      renew_till = to_time first.renew_till;
    }) in
    record all { addressless = if first.has_addresses then 0 else all.addressless }

set_info : ℕ → KrbCred → List KrbCred → ℕ → Act Cred (Unit {0})
unfolding info_of
set_info uid first rest length cred =
    ok tt (record cred { info = info_of uid first rest cred.info; length = to_int length })

-- On a failure the credential is cleared.
freed : Res Cred (Unit {0}) → Res Cred (Unit {0})
freed (ok _ cred) = ok tt cred
freed (err e cred) = err e (free_contents cred)
freed fault = fault

module _ (krb : Krb) where
  -- What follows `krb5_rd_cred`.
  read : List ℕ → ℕ → List KrbCred → Act Cred (Unit {0})
  unfolding set_info uid_of
  read bytes length [] cred = fault
  read bytes length (first ∷ rest) cred =
      (do
        principal ← or_fail (krb.unparse first.client) cred_init_krb_rd_princ
        guard (not (ltb principal_max_length (auks.Base.length principal)))
            cred_init_krb_princ_too_long
        set_principal (principal ++ (0 ∷ []))
        username ← or_fail (krb.aname_to_localname first.client) cred_init_krb_princ_to_uname
        uid ← uid_of (krb.getpwnam username)
        set_info uid first rest length
        set_contents 0 bytes)
        cred

  decode : List ℕ → ℕ → Act Cred (Unit {0})
  unfolding read
  decode bytes length = do
    creds ← or_fail (krb.rd_cred bytes) cred_init_krb_rd_buffer
    read bytes length creds

  -- `auks_cred_init`. `data` is `none` for NULL, and else the `length` bytes behind the pointer, or
  -- `none` where they are not all there.
  pub init : Option (Option (List ℕ)) → ℕ → Act Cred (Unit {0})
  unfolding blank decode freed
  init data' length cred = freed (
      (do
        blank
        guard (not (ltb data_max_length (to_int length))) cred_init_buffer_too_large
        pointer ← or_fail data' cred_init_buffer_is_null
        guard krb.init_context cred_init_krb_ctx_init
        guard krb.auth_con_init cred_init_krb_auth_ctx_init
        bytes ← or_fault pointer
        decode bytes length)
        cred)
