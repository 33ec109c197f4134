-- ===== src/Engine/Settings/Complete.antt =====
-- What `auks_engine_init` of src/api/auks/auks_engine.c leaves in an engine.
use auks.Base.{
  ℕ, ◌+◌, ◌⊎◌, Option, none, some, List, length, ◌%◌, ◌^◌, ◌≡◌, refl, sym, ◌∙◌, subst, Bool, true,
  false, ◌&&◌, not, Bool-cases, inl, inr, true-false,
}
use auks.Base.Results.{Res, ok, err, fault, engine_conffile_incomplete}
use auks.Base.Lists.{All}
use auks.Base.Memory.{Allocator, has_memory}
use auks.Base.Text.{c_str}
use auks.Engine
use auks.Engine.{
  Engine, Server, Logs, Common, Client, Renewer, Files, free_contents, is_some, init_strdup,
  is_complete, address_of, assigned, opens,
}
use auks.Engine.Settings.Given.{Given, IsCommonGiven, AreLogsGiven}
use auks.Engine.Settings.Filled.{
  address_or_host, Copies, IsFilled, init_strdup-Copies, address_of-host, complete-Filled,
  filled_complete,
}
use auks.Engine.Settings.Needed.{needed, IsShort, copied_or_IsShort, needed-Given}

-- An engine that is freed: no text but the helper is left, and no file is open.
pub record IsFreed (e : Engine) : Type 0 where
  pub primary :
      (e.primary_hostname ≡ none)
      × (e.primary_address ≡ none)
      × (e.primary_port ≡ none)
      × (e.primary_principal ≡ none)
  pub secondary :
      (e.secondary_hostname ≡ none)
      × (e.secondary_address ≡ none)
      × (e.secondary_port ≡ none)
      × (e.secondary_principal ≡ none)
  pub cross_realm : e.cross_realm ≡ none
  pub ccache : e.ccache ≡ none
  pub files : (e.logfile ≡ none) × (e.debugfile ≡ none)
  pub renewer_files : (e.renewer_logfile ≡ none) × (e.renewer_debugfile ≡ none)
  pub closed : (e.logfd ≡ false) × (e.debugfd ≡ false)

free_contents-IsFreed : (e : Engine) → IsFreed (free_contents e)
unfolding free_contents
free_contents-IsFreed e = record {
  primary = (refl, refl, refl, refl);
  secondary = (refl, refl, refl, refl);
  cross_realm = refl;
  ccache = refl;
  files = (refl, refl);
  renewer_files = (refl, refl);
  closed = (refl, refl);
}

module _ ⦃mem : Allocator⦄ where
  -- The helper of an engine: none where none is given, else a copy of it, or none for want of memory.
  abbrev pub HelperCopied : Option (List ℕ) → Option (List ℕ) → Type 0
  HelperCopied none copy = copy ≡ none
  HelperCopied (some t) copy =
      (copy ≡ some (c_str t)) ⊎ ((copy ≡ none) × (has_memory (length (c_str t) + 1) ≡ false))

  init_strdup-HelperCopied : (o : Option (List ℕ)) → HelperCopied o (init_strdup o)
  unfolding init_strdup
  init_strdup-HelperCopied none = refl
  init_strdup-HelperCopied (some t) = elim (Bool-cases (has_memory (length (c_str t) + 1))) [
    | inl room ↦ rw room (inl refl)
    | inr full ↦ rw full (inr (refl, refl))
  ]

  -- The engine of these settings.
  pub record IsEngine (files : Files) (common : Common) (api : Client) (renewer : Renewer)
      (syslog : Bool) (e : Engine) : Type 0 where
    pub primary_hostname : Copies common.primary.host e.primary_hostname
    pub primary_address : Copies (address_or_host common.primary) e.primary_address
    pub primary_port : Copies common.primary.port e.primary_port
    pub primary_principal : Copies common.primary.principal e.primary_principal
    pub secondary_hostname : Copies common.secondary.host e.secondary_hostname
    pub secondary_address : Copies (address_or_host common.secondary) e.secondary_address
    pub secondary_port : Copies common.secondary.port e.secondary_port
    pub secondary_principal : Copies common.secondary.principal e.secondary_principal
    pub cross_realm : Copies common.realm e.cross_realm
    pub logfile : Copies api.logs.log_file e.logfile
    pub debugfile : Copies api.logs.debug_file e.debugfile
    pub renewer_logfile : Copies renewer.logs.log_file e.renewer_logfile
    pub renewer_debugfile : Copies renewer.logs.debug_file e.renewer_debugfile
    pub loglevels :
        (e.loglevel ≡ api.logs.log_level % 2 ^ 32)
        × (e.renewer_loglevel ≡ renewer.logs.log_level % 2 ^ 32)
    pub debuglevels :
        (e.debuglevel ≡ api.logs.debug_level % 2 ^ 32)
        × (e.renewer_debuglevel ≡ renewer.logs.debug_level % 2 ^ 32)
    pub helper_script : HelperCopied api.helper e.helper_script
    pub retries : e.retries ≡ common.retry_nb % 2 ^ 32
    pub times : (e.timeout ≡ common.time_out) × (e.delay ≡ common.wait)
    pub renewer_times :
        (e.renewer_delay ≡ renewer.wait) × (e.renewer_minlifetime ≡ renewer.min_lifetime)
    pub nat_traversal : e.nat_traversal ≡ common.nat
    pub streams : (e.syslog ≡ syslog) × (syslog ≡ true → e.logfd ≡ false) × (e.debugfd ≡ false)

  abbrev pub Inits : Files → Common → Client → Renewer → Bool → Res Engine (Unit {0}) → Type 0
  Inits files common api renewer syslog (ok _ e) = IsEngine files common api renewer syslog e
  Inits files common api renewer syslog (err e new) =
      (e ≡ engine_conffile_incomplete) × IsFreed new × IsShort (needed common api renewer)
  Inits files common api renewer syslog fault = ⊥

  assigned-Filled :
      (common : Common) (api : Client) (renewer : Renewer) (syslog : Bool)
      → All (λ o. is_some (init_strdup o) ≡ true) (needed common api renewer)
      → IsFilled (assigned common api renewer syslog)
  unfolding assigned
  assigned-Filled common api renewer syslog
        (a, (b, (c, (d, (f, (g, (h, (i, (j, (k, (l, (m, (n, _))))))))))))) =
      record {
        primary_hostname = a;
        primary_address = rw (address_of-host common.primary) b;
        primary_port = c;
        primary_principal = d;
        secondary_hostname = f;
        secondary_address = rw (address_of-host common.secondary) g;
        secondary_port = h;
        secondary_principal = i;
        cross_realm = j;
        logfile = k;
        debugfile = l;
        renewer_logfile = m;
        renewer_debugfile = n;
      }

  address-Copies :
      (s : Server) → is_some (address_of s) ≡ true → Copies (address_or_host s) (address_of s)
  address-Copies s h =
      let e = address_of-host s in
      rw e (init_strdup-Copies (address_or_host s) (subst (λ o. is_some o ≡ true) e h))

  -- `logfd` is open only without syslog.
  filled-Engine :
      (files : Files) (common : Common) (api : Client) (renewer : Renewer) (syslog : Bool)
      → let new = assigned common api renewer syslog in
        IsFilled new
        → IsEngine files common api renewer syslog
            (record new { logfd = not syslog && opens files new.logfile })
  unfolding assigned
  filled-Engine files common api renewer syslog f = record {
    primary_hostname = init_strdup-Copies _ f.primary_hostname;
    primary_address = address-Copies _ f.primary_address;
    primary_port = init_strdup-Copies _ f.primary_port;
    primary_principal = init_strdup-Copies _ f.primary_principal;
    secondary_hostname = init_strdup-Copies _ f.secondary_hostname;
    secondary_address = address-Copies _ f.secondary_address;
    secondary_port = init_strdup-Copies _ f.secondary_port;
    secondary_principal = init_strdup-Copies _ f.secondary_principal;
    cross_realm = init_strdup-Copies _ f.cross_realm;
    logfile = init_strdup-Copies _ f.logfile;
    debugfile = init_strdup-Copies _ f.debugfile;
    renewer_logfile = init_strdup-Copies _ f.renewer_logfile;
    renewer_debugfile = init_strdup-Copies _ f.renewer_debugfile;
    loglevels = (refl, refl);
    debuglevels = (refl, refl);
    helper_script = init_strdup-HelperCopied api.helper;
    retries = refl;
    times = (refl, refl);
    renewer_times = (refl, refl);
    nat_traversal = refl;
    streams = (refl, (λ e. rw e refl), refl);
  }

  IsShort-complete :
      (common : Common) (api : Client) (renewer : Renewer) (syslog : Bool)
      → All Given (needed common api renewer)
      → is_complete (assigned common api renewer syslog) ≡ false
      → IsShort (needed common api renewer)
  IsShort-complete common api renewer syslog g h =
      elim (copied_or_IsShort (needed common api renewer) g) [
        | inl all ↦
            let full = filled_complete _ (assigned-Filled common api renewer syslog all) in
            absurd (true-false (sym full ∙ h))
        | inr short ↦ short
      ]

  pub init-Inits :
      (files : Files) (common : Common) (api : Client) (renewer : Renewer) (syslog : Bool)
      (engine : Engine)
      → IsCommonGiven common
      → AreLogsGiven api.logs
      → AreLogsGiven renewer.logs
      → Inits files common api renewer syslog (Engine.init files common api renewer syslog engine)
  unfolding Engine.init
  init-Inits files common api renewer syslog engine c a r =
      let new = assigned common api renewer syslog in
      elim (Bool-cases (is_complete new)) [
        | inl full ↦
            rw full (filled-Engine files common api renewer syslog (complete-Filled new full))
        | inr short ↦ rw short (
          refl,
          free_contents-IsFreed new,
          IsShort-complete common api renewer syslog (needed-Given common api renewer c a r) short,
        )
      ]
