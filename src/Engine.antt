-- ===== src/Engine.antt =====
-- src/api/auks/auks_engine.c: the settings of a client and of the renewer.
pub mod Settings
use auks.Base.{
  ℕ, ◌+◌, ◌%◌, ◌^◌, Bool, true, false, ◌&&◌, not, Option, none, some, List, length, if◌then◌else◌,
}
use auks.Base.Results.{Res, ok, err, fault, Act, error, engine_conffile_incomplete}
use auks.Base.Memory.{Allocator, has_memory}
use auks.Base.Text.{c_str}

-- `auks_engine_t`. Of a stream it is kept whether it is open. An int is 32 bits, a time_t 64.
pub record Engine : Type 0 where
  pub primary_hostname : Option (List ℕ)
  pub primary_address : Option (List ℕ)
  pub primary_port : Option (List ℕ)
  pub primary_principal : Option (List ℕ)
  pub secondary_hostname : Option (List ℕ)
  pub secondary_address : Option (List ℕ)
  pub secondary_port : Option (List ℕ)
  pub secondary_principal : Option (List ℕ)
  pub cross_realm : Option (List ℕ)
  pub logfile : Option (List ℕ)
  pub loglevel : ℕ
  pub debugfile : Option (List ℕ)
  pub debuglevel : ℕ
  pub retries : ℕ
  pub timeout : ℕ
  pub delay : ℕ
  pub helper_script : Option (List ℕ)
  pub nat_traversal : ℕ
  pub renewer_logfile : Option (List ℕ)
  pub renewer_loglevel : ℕ
  pub renewer_debugfile : Option (List ℕ)
  pub renewer_debuglevel : ℕ
  pub renewer_delay : ℕ
  pub renewer_minlifetime : ℕ
  pub ccache : Option (List ℕ)
  pub logfd : Bool
  pub debugfd : Bool
  pub syslog : Bool

-- A server: host, address, port and principal.
pub record Server : Type 0 where
  pub host : Option (List ℕ)
  pub address : Option (List ℕ)
  pub port : Option (List ℕ)
  pub principal : Option (List ℕ)

-- A log file with its level, and one for debugging. A long is its 64-bit pattern.
pub record Logs : Type 0 where
  pub log_file : Option (List ℕ)
  pub log_level : ℕ
  pub debug_file : Option (List ℕ)
  pub debug_level : ℕ

-- The arguments of `auks_engine_init`, but for `syslog`: those from the block "common", from the
-- block "api" and from the block "renewer".
pub record Common : Type 0 where
  pub primary : Server
  pub secondary : Server
  pub realm : Option (List ℕ)
  pub retry_nb : ℕ
  pub time_out : ℕ
  pub wait : ℕ
  pub nat : ℕ

pub record Client : Type 0 where
  pub logs : Logs
  pub helper : Option (List ℕ)

pub record Renewer : Type 0 where
  pub logs : Logs
  pub wait : ℕ
  pub min_lifetime : ℕ

-- The file system: whether a file can be run by `access (…, X_OK)`, and opened by `fopen (…, "a+")`.
pub record Files : Type 0 where
  pub can_run : List ℕ → Bool
  pub can_open : List ℕ → Bool

-- `auks_engine_free_contents`; it leaves `helper_script` and `syslog` alone.
pub free_contents : Engine → Engine
free_contents engine = record {
  primary_hostname = none;
  primary_address = none;
  primary_port = none;
  primary_principal = none;
  secondary_hostname = none;
  secondary_address = none;
  secondary_port = none;
  secondary_principal = none;
  cross_realm = none;
  logfile = none;
  loglevel = 0;
  debugfile = none;
  debuglevel = 0;
  retries = 3;
  timeout = 10;
  delay = engine.delay;
  helper_script = engine.helper_script;
  nat_traversal = 0;
  renewer_logfile = none;
  renewer_loglevel = 1;
  renewer_debugfile = none;
  renewer_debuglevel = 0;
  renewer_delay = 60;
  renewer_minlifetime = 300;
  ccache = none;
  logfd = false;
  debugfd = false;
  syslog = engine.syslog;
}

-- `fopen` of the log file, where there is one.
pub opens : Files → Option (List ℕ) → Bool
opens files none = false
opens files (some file) = files.can_open file

abbrev is_some : Option (List ℕ) → Bool
is_some none = false
is_some (some s) = true

module _ ⦃mem : Allocator⦄ where
  -- `init_strdup`
  pub init_strdup : Option (List ℕ) → Option (List ℕ)
  init_strdup none = none
  init_strdup (some s) = if has_memory (length (c_str s) + 1) then some (c_str s) else none

  -- An address that is not given is the host.
  pub address_of : Server → Option (List ℕ)
  address_of server = elim server.address [
    | none ↦ init_strdup server.host
    | some a ↦ init_strdup (some a)
  ]

  -- The assignments of `auks_engine_init`.
  pub assigned : Common → Client → Renewer → Bool → Engine
  unfolding address_of
  assigned common api renewer syslog = record {
    primary_hostname = init_strdup common.primary.host;
    primary_address = address_of common.primary;
    primary_port = init_strdup common.primary.port;
    primary_principal = init_strdup common.primary.principal;
    secondary_hostname = init_strdup common.secondary.host;
    secondary_address = address_of common.secondary;
    secondary_port = init_strdup common.secondary.port;
    secondary_principal = init_strdup common.secondary.principal;
    cross_realm = init_strdup common.realm;
    logfile = init_strdup api.logs.log_file;
    loglevel = api.logs.log_level % 2 ^ 32;
    debugfile = init_strdup api.logs.debug_file;
    debuglevel = api.logs.debug_level % 2 ^ 32;
    retries = common.retry_nb % 2 ^ 32;
    timeout = common.time_out;
    delay = common.wait;
    helper_script = init_strdup api.helper;
    nat_traversal = common.nat;
    renewer_logfile = init_strdup renewer.logs.log_file;
    renewer_loglevel = renewer.logs.log_level % 2 ^ 32;
    renewer_debugfile = init_strdup renewer.logs.debug_file;
    renewer_debuglevel = renewer.logs.debug_level % 2 ^ 32;
    renewer_delay = renewer.wait;
    renewer_minlifetime = renewer.min_lifetime;
    ccache = none;
    logfd = false;
    debugfd = false;
    syslog = syslog;
  }

  -- No text is NULL but the name of the helper.
  pub is_complete : Engine → Bool
  is_complete e =
      is_some e.primary_hostname
      && is_some e.primary_address
      && is_some e.primary_port
      && is_some e.primary_principal
      && is_some e.secondary_hostname
      && is_some e.secondary_address
      && is_some e.secondary_port
      && is_some e.secondary_principal
      && is_some e.cross_realm
      && is_some e.logfile
      && is_some e.debugfile
      && is_some e.renewer_logfile
      && is_some e.renewer_debugfile

  -- `auks_engine_init`; what the engine held before is overwritten.
  pub init : Files → Common → Client → Renewer → Bool → Act Engine (Unit {0})
  unfolding assigned is_complete opens
  init files common api renewer syslog engine =
      let new = assigned common api renewer syslog in
      if is_complete new
      then ok tt (record new { logfd = not syslog && opens files new.logfile })
      else err engine_conffile_incomplete (free_contents new)

  -- `auks_engine_set_logfile`
  pub set_logfile : Files → Option (List ℕ) → Act Engine (Unit {0})
  unfolding opens
  set_logfile files none engine = err error engine
  set_logfile files (some logfile) engine =
      let new = record engine { logfile = init_strdup (some logfile) } in
      if is_some new.logfile
      then (if opens files new.logfile
          then ok tt (record new { logfd = true })
          else err error (record new { logfd = false }))
      else err error new

-- `auks_engine_set_loglevel`
pub set_loglevel : ℕ → Act Engine (Unit {0})
set_loglevel loglevel engine = ok tt (record engine { loglevel = loglevel })
