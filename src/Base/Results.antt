-- ===== src/Base/Results.antt =====
-- What a C function of the library does to the structure that it is given: it returns
-- AUKS_SUCCESS with its output parameters, or an error code, or it has undefined behaviour.
use mathlib.Core.Bool.{Bool, true, false}
use mathlib.Core.Option.{Option, none, some}

-- src/api/auks/auks_error.h and src/api/xternal/xerror.h: the codes that the modelled functions
-- return.
pub data Error : Type 0 where
  error : Error
  library_init library_uid_not_found library_add library_uid_to_str : Error
  buffer_malloc buffer_realloc : Error
  acl_init acl_parsing acl_is_full acl_file_is_empty acl_file_is_invalid : Error
  acl_rule_is_invalid : Error
  cred_init_buffer_too_large cred_init_buffer_is_null cred_init_krb_ctx_init : Error
  cred_init_krb_auth_ctx_init cred_init_krb_rd_buffer cred_init_krb_rd_princ : Error
  cred_init_krb_princ_too_long cred_init_krb_princ_to_uname cred_init_getpwnam : Error
  cred_not_renewable cred_lifetime_too_short cred_expired cred_still_valid : Error
  cred_repo_ccache_build cred_repo_unlink cred_repo_readonly cred_repo_update_index : Error
  cred_repo_pack cred_repo_get_cred : Error
  message_malloc : Error
  daemon_request_unpack_uid daemon_request_done daemon_unknown_request : Error
  daemon_corrupted_request daemon_processing_request daemon_principals_mismatch : Error
  daemon_not_authorized daemon_addressful_cred daemon_reply_init : Error
  daemon_reply_transmission daemon_not_valid_server : Error
  krb5 : Error
  cred_repo_mutex_lock : Error
  api_request_init api_request_processing api_request_pack_uid api_reply_processing : Error
  api_connection_failed api_empty_request api_invalid_reply api_corrupted_reply : Error
  xerror_stream_setsockopt xerror_stream_timeout xerror_stream_poll_error : Error
  xerror_stream_socket_closed xerror_queue_freelist_extract_item xerror_queue_is_empty : Error
  xerror_memory xerror_mutex_lock xerror_freelist_is_empty xerror_freelist_item_not_found : Error
  xerror_freelist_item_already_free xerror_library_item_not_found xerror_library_add : Error
  xerror_mutex_init xerror_condition_init : Error
  engine_conffile_parsing engine_conffile_invalid engine_conffile_incomplete : Error

pub data Res (S A : Type 0) : Type 0 where
  ok : A → S → Res S A
  err : Error → S → Res S A
  fault : Res S A

-- The next call, made if the one before returned AUKS_SUCCESS.
abbrev pub and_then : {S A B : Type 0} → Res S A → (A → S → Res S B) → Res S B
and_then (ok a s) f = f a s
and_then (err e s) f = err e s
and_then fault f = fault

abbrev pub Act : Type 0 → Type 0 → Type 0
Act S A = S → Res S A

infixl 5 ◌>>=◌ ◌>>◌
abbrev pub ◌>>=◌ : {S A B : Type 0} → Act S A → (A → Act S B) → Act S B
◌>>=◌ m f s = and_then (m s) f

abbrev pub ◌>>◌ : {S A B : Type 0} → Act S A → Act S B → Act S B
◌>>◌ m k s = and_then (m s) (λ _. k)

abbrev pub pure : {S A : Type 0} → A → Act S A
pure a s = ok a s

abbrev pub fail : {S A : Type 0} → Error → Act S A
fail e s = err e s

abbrev pub guard : {S : Type 0} → Bool → Error → Act S (Unit {0})
guard true e s = ok tt s
guard false e s = err e s

-- A value that is computed from another, where both are there.
abbrev pub opt_then : {A B : Type 0} → Option A → (A → Option B) → Option B
opt_then none f = none
opt_then (some a) f = f a

-- An access that is defined where the option holds a value.
abbrev pub or_fault : {S A : Type 0} → Option A → Act S A
or_fault none s = fault
or_fault (some a) s = ok a s

-- The next call, whatever the one before returned.
abbrev pub always : {S A B : Type 0} → Res S A → Act S B → Res S B
always (ok _ s) next = next s
always (err _ s) next = next s
always fault next = fault

-- A call whose own result is dropped, at the end of one whose result is kept.
abbrev pub finally : {S A B : Type 0} → Res S A → Act S B → Res S A
finally (ok a s) last = always (last s) (ok a)
finally (err e s) last = always (last s) (err e)
finally fault last = fault

-- The same where the first call has failed.
abbrev pub on_failure : {S A B : Type 0} → Res S A → Act S B → Res S A
on_failure (ok a s) last = ok a s
on_failure (err e s) last = always (last s) (err e)
on_failure fault last = fault

-- A result that is there, or an error.
abbrev pub or_fail : {S A : Type 0} → Option A → Error → Act S A
or_fail none e s = err e s
or_fail (some a) e s = ok a s
