-- ===== src/Engine/Settings/Given.antt =====
-- The texts that `auks_engine_init_from_config_file` of src/api/auks/auks_engine.c reads have defaults.
use auks.Base.{
  ℕ, ◌≡◌, refl, subst, Option, none, some, List, [], ◌∷◌, Bool-cases, inl, inr, some_injective,
}
use auks.Base.Text.{codes, strncmp_eq}
use auks.Config.{Block}
use auks.Engine.{Server, Logs, Common, Client, Files}
use auks.Engine.Settings.{Sections, unread}
use auks.Engine.Settings.Reading.{
  given_text, common_of, client_of, renewer_of, with_common, with_api, with_renewer, over_blocks,
  sections_of,
}

-- A text that is there.
abbrev pub Given : Option (List ℕ) → Type 0
Given o = (t : List ℕ) × (o ≡ some t)

pub record IsServerGiven (s : Server) : Type 0 where
  pub host : Given s.host
  pub port : Given s.port
  pub principal : Given s.principal

pub record IsCommonGiven (c : Common) : Type 0 where
  pub primary : IsServerGiven c.primary
  pub secondary : IsServerGiven c.secondary
  pub realm : Given c.realm

pub record AreLogsGiven (l : Logs) : Type 0 where
  pub log_file : Given l.log_file
  pub debug_file : Given l.debug_file

-- The texts that an engine needs are there in all that was read.
pub record IsGiven (s : Sections) : Type 0 where
  pub common : (c : Common) → s.common ≡ some c → IsCommonGiven c
  pub api : (a : Client) → s.api ≡ some a → AreLogsGiven a.logs
  pub renewer : AreLogsGiven s.renewer.logs

given_text-Given : (default : List ℕ) (o : Option (List ℕ)) → Given (given_text (some default) o)
given_text-Given default none = (default, refl)
given_text-Given default (some t) = (t, refl)

common_of-Given : (x : Block) → IsCommonGiven (common_of x)
unfolding common_of
common_of-Given x = record {
  primary = record {
    host = given_text-Given _ _;
    port = given_text-Given _ _;
    principal = given_text-Given _ _;
  };
  secondary = record {
    host = given_text-Given _ _;
    port = given_text-Given _ _;
    principal = given_text-Given _ _;
  };
  realm = given_text-Given _ _;
}

client_of-Given : (files : Files) (x : Block) → AreLogsGiven (client_of files x).logs
unfolding client_of
client_of-Given files x = record {
  log_file = given_text-Given _ _;
  debug_file = given_text-Given _ _;
}

renewer_of-Given : (x : Block) → AreLogsGiven (renewer_of x).logs
unfolding renewer_of
renewer_of-Given x = record { log_file = given_text-Given _ _; debug_file = given_text-Given _ _ }

over_blocks-Given :
    (n : ℕ) (name : List ℕ) (step : Block → Sections → Sections) (blocks : List Block)
    (s : Sections)
    → ((x : Block) (s : Sections) → IsGiven s → IsGiven (step x s))
    → IsGiven s
    → IsGiven (over_blocks n name step blocks s)
unfolding over_blocks
over_blocks-Given n name step [] s h g = g
over_blocks-Given n name step (x ∷ xs) s h g =
    over_blocks-Given n name step xs _ h (elim (Bool-cases (strncmp_eq n name x.name)) [
      | inl wanted ↦ rw wanted (h x s g)
      | inr other ↦ rw other g
    ])

unread-Given : IsGiven unread
unread-Given = record {
  common = λ c e. cc e;
  api = λ a e. cc e;
  renewer = record { log_file = (_, refl); debug_file = (_, refl) };
}

pub sections_of-Given : (files : Files) (blocks : List Block) → IsGiven (sections_of files blocks)
unfolding sections_of
sections_of-Given files blocks =
    over_blocks-Given 3 (codes "renewer") with_renewer blocks _
      (λ x s g. record { common = g.common; api = g.api; renewer = renewer_of-Given x })
      (over_blocks-Given 3 (codes "api") (with_api files) blocks _
        (λ x s g. record {
          common = g.common;
          api =
              λ a e. subst (λ c. AreLogsGiven c.logs) (some_injective e) (client_of-Given files x);
          renewer = g.renewer;
        })
        (over_blocks-Given 6 (codes "common") with_common blocks unread
          (λ x s g. record {
            common = λ c e. subst IsCommonGiven (some_injective e) (common_of-Given x);
            api = g.api;
            renewer = g.renewer;
          })
          unread-Given))
