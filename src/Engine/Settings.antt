-- ===== src/Engine/Settings.antt =====
-- `auks_engine_init_from_config_file` of src/api/auks/auks_engine.c.
pub mod Reading
pub mod Loops
pub mod Given
pub mod Filled
pub mod Needed
pub mod Complete
pub mod Configured
use auks.Base.{
  ℕ, zero, suc, ◌+◌, ◌-◌, ◌*◌, ◌%◌, ◌^◌, Bool, true, false, ◌&&◌, ◌||◌, not, Option, none, some,
  List, [], ◌∷◌, length, ltb, leb, ◌==◌, if◌then◌else◌,
}
use auks.Base.Results.{
  Res, ok, err, fault, Act, and_then, or_fault, ◌>>=◌, pure, engine_conffile_parsing,
  engine_conffile_invalid, engine_conffile_incomplete,
}
use auks.Base.Memory.{Allocator}
use auks.Base.Strtol.{strtol_or}
use auks.Base.Text.{codes, c_str, strncmp_eq, strncasecmp_eq}
use auks.Config.{Config, get_nb_blocks, get_block_name, get_key_value_by_name}
use auks.Engine
use auks.Engine.{Engine, Server, Logs, Common, Client, Renewer, Files}

-- A value that the file does not give is the default; a number is also if it is out of range.
pub text_or : Option (List ℕ) → Option (List ℕ) → Option (List ℕ)
text_or default none = default
text_or default (some value) = some value

pub number_or : ℕ → Option (List ℕ) → ℕ
number_or default none = default
number_or default (some value) = strtol_or default value

-- `yes` is compared with its NUL.
pub is_nat : Option (List ℕ) → ℕ
is_nat none = 0
is_nat (some value) = if strncasecmp_eq 4 value (codes "yes") then 1 else 0

-- A helper that cannot be run is none.
pub helper_of : Files → Option (List ℕ) → Option (List ℕ)
helper_of files none = none
helper_of files (some script) =
    if length (c_str script) == 0 then none else if files.can_run script then some script else none

-- `syslog` keeps its value where the key is not there.
pub syslog_of : Option Bool → Option (List ℕ) → Option Bool
syslog_of old none = old
syslog_of old (some value) = some (not (strtol_or 1 value == 0))

-- The variables of the function, and the number of blocks that it has used. Before such a block is
-- read, they are not set.
pub record Sections : Type 0 where
  pub common : Option Common
  pub api : Option Client
  pub syslog : Option Bool
  pub renewer : Renewer
  pub valid_block_nb : ℕ

abbrev pub unread : Sections
unread = record {
  common = none;
  api = none;
  syslog = none;
  renewer = record {
    logs = record {
      log_file = some (codes "/var/log/auksdrenewer.log");
      log_level = 1;
      debug_file = some (codes "/var/log/auksdrenewer.log");
      debug_level = 0;
    };
    wait = 60;
    min_lifetime = 300;
  };
  valid_block_nb = 0;
}

-- A way to read a key of a block.
text : ℕ → List ℕ → Option (List ℕ) → Act Config (Option (List ℕ))
unfolding text_or
text i key default = do value ← get_key_value_by_name i key; pure (text_or default value)

number : ℕ → List ℕ → ℕ → Act Config ℕ
unfolding number_or
number i key default = do value ← get_key_value_by_name i key; pure (number_or default value)

server : ℕ → List ℕ → List ℕ → List ℕ → List ℕ → Act Config Server
unfolding text
server i host_key address_key port_key principal_key = do
  host ← text i host_key (some (codes "localhost"))
  address ← text i address_key none
  port ← text i port_key (some (codes "12345"))
  principal ← text i principal_key (some [])
  pure (record { host = host; address = address; port = port; principal = principal })

logs : ℕ → List ℕ → ℕ → Act Config Logs
unfolding text number
logs i file level = do
  lfile ← text i (codes "LogFile") (some file)
  ll ← number i (codes "LogLevel") level
  dfile ← text i (codes "DebugFile") (some file)
  dl ← number i (codes "DebugLevel") 0
  pure (record { log_file = lfile; log_level = ll; debug_file = dfile; debug_level = dl })

-- The round of the first loop on a block "common".
pub read_common : ℕ → Sections → Act Config Sections
unfolding text number server is_nat
read_common i s = do
  primary ←
      server i (codes "PrimaryHost") (codes "PrimaryAddress") (codes "PrimaryPort")
        (codes "PrimaryPrincipal")
  secondary ←
      server i (codes "SecondaryHost") (codes "SecondaryAddress") (codes "SecondaryPort")
        (codes "SecondaryPrincipal")
  crealm ← text i (codes "CrossRealm") (some [])
  rnb ← number i (codes "Retries") 3
  timeout ← number i (codes "Timeout") 10
  delay ← number i (codes "Delay") 10
  nat ← get_key_value_by_name i (codes "NAT")
  pure (record s {
    common = some (record {
      primary = primary;
      secondary = secondary;
      realm = crealm;
      retry_nb = rnb;
      time_out = timeout;
      wait = delay;
      nat = is_nat nat;
    });
    valid_block_nb = s.valid_block_nb + 1;
  })

-- The round of the second loop on a block "api".
pub read_api : Files → ℕ → Sections → Act Config Sections
unfolding logs helper_of syslog_of
read_api files i s = do
  logs ← logs i (codes "/tmp/auksapi.log") 0
  syslog ← get_key_value_by_name i (codes "UseSyslog")
  helper ← get_key_value_by_name i (codes "HelperScript")
  pure (record s {
    api = some (record { logs = logs; helper = helper_of files helper });
    syslog = syslog_of s.syslog syslog;
    valid_block_nb = s.valid_block_nb + 1;
  })

-- The round of the third loop on a block "renewer".
pub read_renewer : ℕ → Sections → Act Config Sections
unfolding logs number
read_renewer i s = do
  logs ← logs i (codes "/var/log/auksdrenewer.log") 1
  delay ← number i (codes "Delay") 60
  minlifetime ← number i (codes "Minlifetime") 300
  pure (record s { renewer = record { logs = logs; wait = delay; min_lifetime = minlifetime } })

-- A loop over so many blocks from `i` on, whose rounds skip those with another name.
pub read_if : Bool → (Sections → Act Config Sections) → Sections → Act Config Sections
read_if wanted read s = if wanted then read s else ok s

pub read_blocks :
    ℕ → List ℕ → (ℕ → Sections → Act Config Sections) → ℕ → ℕ → Sections → Act Config Sections
unfolding read_if
read_blocks n name read zero i s = pure s
read_blocks n name read (suc left) i s = do
  block_name ← get_block_name i
  block_name ← or_fault block_name
  s ← read_if (strncmp_eq n name block_name) (read i) s
  read_blocks n name read left (suc i) s

-- The three loops.
pub read_sections : Files → ℕ → Act Config Sections
unfolding read_blocks
read_sections files block_nb = do
  s ← read_blocks 6 (codes "common") read_common block_nb 0 unread
  s ← read_blocks 3 (codes "api") (read_api files) block_nb 0 s
  read_blocks 3 (codes "renewer") read_renewer block_nb 0 s

pub read_file : Files → Act Config (Option Sections)
unfolding read_sections
read_file files = get_nb_blocks >>= λ block_nb.
    if block_nb == 0 then pure none else (read_sections files block_nb >>= λ s. pure (some s))

module _ ⦃mem : Allocator⦄ (files : Files) where
  all_set : Option Common → Option Client → Option Bool → Renewer → Act Engine (Unit {0})
  all_set (some common) (some api) (some syslog) renewer engine =
      Engine.init files common api renewer syslog engine
  all_set common api syslog renewer engine = fault

  -- What follows the loops; a variable that was not set must not be read.
  pub finished : Sections → Act Engine (Unit {0})
  unfolding all_set
  finished s engine =
      if s.valid_block_nb == 2
      then all_set s.common s.api s.syslog s.renewer engine
      else err engine_conffile_incomplete engine

  pub engine_of : Res Config (Option Sections) → Act Engine (Unit {0})
  unfolding finished
  engine_of (ok none _) engine = err engine_conffile_invalid engine
  engine_of (ok (some s) _) engine = finished s engine
  engine_of (err e _) engine = fault
  engine_of fault engine = fault

  -- `auks_engine_init_from_config_file`, of what `config_ParseFile` returns.
  pub init_from_config_file : Option Config → Act Engine (Unit {0})
  unfolding engine_of read_file
  init_from_config_file none engine = err engine_conffile_parsing engine
  init_from_config_file (some config) engine = engine_of (read_file files config) engine
