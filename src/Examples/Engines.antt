-- ===== src/Examples/Engines.antt =====
-- A configuration file with a block "common" and a block "api".
use auks.Base.{ℕ, false, none, List, [], ◌∷◌}
use auks.Base.Text.{codes}
use auks.Config.{Block, Affect}
use auks.Engine.{Engine, Files, free_contents}
use auks.Examples.Values.{heap}

abbrev line : List ℕ → List ℕ → Affect
line name value = record { varname = name; varvalue = value }

abbrev common : Block
common = record {
  name = codes "common";
  list_def = line (codes "PrimaryHost") (codes "a") ∷ line (codes "Retries") (codes "5") ∷ [];
}

abbrev api : Block
api = record { name = codes "api"; list_def = line (codes "UseSyslog") (codes "1") ∷ [] }

-- No file can be run or opened.
abbrev no_files : Files
no_files = record { can_run = λ _. false; can_open = λ _. false }

abbrev no_engine : Engine
no_engine = free_contents (record {
  primary_hostname = none;
  primary_address = none;
  primary_port = none;
  primary_principal = none;
  secondary_hostname = none;
  secondary_address = none;
  secondary_port = none;
  secondary_principal = none;
  cross_realm = none;
  logfile = none;
  loglevel = 0;
  debugfile = none;
  debuglevel = 0;
  retries = 0;
  timeout = 0;
  delay = 0;
  helper_script = none;
  nat_traversal = 0;
  renewer_logfile = none;
  renewer_loglevel = 0;
  renewer_debugfile = none;
  renewer_debuglevel = 0;
  renewer_delay = 0;
  renewer_minlifetime = 0;
  ccache = none;
  logfd = false;
  debugfd = false;
  syslog = false;
})
