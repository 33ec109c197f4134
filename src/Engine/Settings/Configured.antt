-- ===== src/Engine/Settings/Configured.antt =====
-- What `auks_engine_init_from_config_file` of src/api/auks/auks_engine.c makes of a file.
use auks.Base.{◌≡◌, ◌≢◌, ◌⊎◌, Bool, none, some}
use auks.Base.Results.{Res, ok, err, fault, engine_conffile_incomplete}
use auks.Base.Memory.{Allocator}
use auks.Config.{Config}
use auks.Engine.{Engine, Common, Client, Files}
use auks.Engine.Settings.{Sections}
use auks.Engine.Settings.Complete.{IsEngine, IsFreed}
use auks.Engine.Settings.Needed.{needed, IsShort}

module _ ⦃mem : Allocator⦄ (files : Files) where
  -- A text that the engine needs cannot be copied for want of memory.
  pub record IsOut (s : Sections) : Type 0 where
    pub common : Common
    pub api : Client
    pub common_eq : s.common ≡ some common
    pub api_eq : s.api ≡ some api
    pub short : IsShort (needed common api s.renewer)

  -- What is left in the engine by the settings `s` of a file.
  abbrev pub Configures : Sections → Engine → Res Engine (Unit {0}) → Type 0
  Configures s engine (ok _ e) =
      (s.valid_block_nb ≡ 2)
      × ((common : Common) × (api : Client) × (syslog : Bool) × (s.common ≡ some common)
          × (s.api ≡ some api)
          × (s.syslog ≡ some syslog)
          × IsEngine files common api s.renewer syslog e)
  Configures s engine (err e new) =
      (e ≡ engine_conffile_incomplete)
      × (((s.valid_block_nb ≢ 2) × (new ≡ engine))
          ⊎ ((s.valid_block_nb ≡ 2) × IsFreed new × IsOut s))
  Configures s engine fault =
      (s.valid_block_nb ≡ 2) × ((s.common ≡ none) ⊎ (s.api ≡ none) ⊎ (s.syslog ≡ none))
