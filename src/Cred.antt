-- ===== src/Cred.antt =====
-- src/api/auks/auks_cred.c: a credential, its lifetime test, and its wire format.
pub mod Wire
pub mod Read
pub mod RoundTrip
pub mod Wrap
pub mod Lifetime
pub mod Init
pub mod Update
use auks.Base.{
  ℕ, ◌+◌, ◌-◌, ◌%◌, ◌^◌, Bool, true, false, not, Option, none, some, List, length, ltb, ◌==◌,
  if◌then◌else◌,
}
use auks.Base.Lists.{replicate}
use auks.Base.Words.{to_int, to_size, lt_int, lt_time, sub_int}
use auks.Base.Results.{
  Act, Error, ◌>>=◌, ◌>>◌, pure, guard, or_fault, error, cred_not_renewable,
  cred_lifetime_too_short, cred_expired, cred_still_valid,
}
use auks.Base.Memory.{Allocator, read_at, write_at}
use auks.Message
use auks.Message.{Message}

abbrev pub principal_max_length : ℕ
principal_max_length = 128

abbrev pub data_max_length : ℕ
data_max_length = 32768

-- `AUKS_CRED_INVALID_UID`, -1 as a `uid_t`
abbrev pub invalid_uid : ℕ
invalid_uid = 2 ^ 32 - 1

-- `AUKS_CRED_INVALID_TIME`
abbrev pub invalid_time : ℕ
invalid_time = 0

-- `auks_cred_info_t`; times are `time_t`s, as 64-bit patterns.
pub record CredInfo : Type 0 where
  pub principal : List ℕ
  pub uid : ℕ
  pub starttime : ℕ
  pub endtime : ℕ
  pub renew_till : ℕ
  pub addressless : ℕ
  pub crossrealm : ℕ

-- `auks_cred_t`; `contents` is the array `data`.
pub record Cred : Type 0 where
  pub info : CredInfo
  pub contents : List ℕ
  pub length : ℕ
  pub max_length : ℕ
  pub status : ℕ

-- `auks_cred_free_contents`; `max_length` keeps its value.
unfoldable pub free_contents : Cred → Cred
free_contents cred = record {
  info = record {
    principal = replicate (principal_max_length + 1) 0;
    uid = invalid_uid;
    starttime = invalid_time;
    endtime = invalid_time;
    renew_till = invalid_time;
    addressless = 1;
    crossrealm = 0;
  };
  contents = replicate data_max_length 0;
  length = 0;
  max_length = cred.max_length;
  status = 0;
}

-- `memset (cred, 0, sizeof (auks_cred_t))`
unfoldable pub zeroed : Cred
zeroed = record {
  info = record {
    principal = replicate (principal_max_length + 1) 0;
    uid = 0;
    starttime = 0;
    endtime = 0;
    renew_till = 0;
    addressless = 0;
    crossrealm = 0;
  };
  contents = replicate data_max_length 0;
  length = 0;
  max_length = 0;
  status = 0;
}

-- `auks_cred_renew_test` at the time `now`; `none` is AUKS_SUCCESS: renew the credential.
unfoldable pub renew_test : Cred → ℕ → ℕ → Option Error
renew_test cred minlifetime now =
    let life = sub_int (to_int cred.info.endtime) (to_int cred.info.starttime) in
    let delay = to_int (cred.info.endtime + 2 ^ 64 - now) in
    if life == 0
    then some cred_not_renewable
    else if not (lt_int minlifetime life)
    then some cred_lifetime_too_short
    else if lt_int delay 0
    then some cred_expired
    else if lt_int minlifetime delay
    then some cred_still_valid
    else none

module _ ⦃mem : Allocator⦄ where
  -- The second half of `auks_cred_pack`, from the data on.
  pack_contents : Cred → Act Message (Unit {0})
  pack_contents cred = do
    Message.pack_int (to_int cred.max_length)
    Message.pack_int (to_int cred.length)
    bytes ← or_fault (read_at cred.contents 0 cred.max_length)
    Message.pack_data bytes
    Message.pack_int cred.status

  -- `auks_cred_pack`: each call is made if the one before succeeded.
  pub pack : Cred → Act Message (Unit {0})
  pack cred = do
    Message.pack_int (principal_max_length + 1)
    Message.pack_data cred.info.principal
    Message.pack_uid cred.info.uid
    Message.pack_int (to_int cred.info.starttime)
    Message.pack_int (to_int cred.info.endtime)
    Message.pack_int (to_int cred.info.renew_till)
    Message.pack_int cred.info.addressless
    Message.pack_int cred.info.crossrealm
    pack_contents cred

-- The data of `auks_cred_unpack`, behind `info`. The test of the maximal length is one of signed
-- numbers, and the number is then taken as a `size_t`.
pub unpack_contents : CredInfo → Act Message Cred
unpack_contents info = do
  i ← Message.unpack_int
  guard (not (lt_int data_max_length i)) error
  size ← Message.unpack_int
  guard (not (ltb data_max_length size)) error
  bytes ← Message.unpack_data (to_size i)
  contents ← or_fault (write_at zeroed.contents 0 bytes)
  status ← Message.unpack_int
  pure (record {
    info = info;
    contents = contents;
    length = size;
    max_length = to_size i;
    status = status;
  })

-- The rest of `auks_cred_unpack`, behind the length of the principal.
unpack_info : Act Message Cred
unpack_info = do
  principal ← Message.unpack_data (principal_max_length + 1)
  uid ← Message.unpack_uid
  starttime ← Message.unpack_int
  endtime ← Message.unpack_int
  renew_till ← Message.unpack_int
  addressless ← Message.unpack_int
  crossrealm ← Message.unpack_int
  unpack_contents (record {
    principal = principal;
    uid = uid;
    starttime = starttime;
    endtime = endtime;
    renew_till = renew_till;
    addressless = addressless;
    crossrealm = crossrealm;
  })

-- `auks_cred_unpack`. Another length of the principal ends the call with AUKS_SUCCESS and a
-- credential of zeros. What a call that fails leaves in the credential is not modelled.
pub unpack : Act Message Cred
unpack = do
  i ← Message.unpack_int
  if i == principal_max_length + 1 then unpack_info else pure zeroed
