-- ===== src/Engine/Settings/Reading.antt =====
-- The reading of the blocks by `auks_engine_init_from_config_file` of src/api/auks/auks_engine.c
-- against a reading block by block, with no index and no cache.
use auks.Base.{
  Bool, ◌==◌, length, not, ℕ, ◌+◌, ◌≡◌, refl, sym, subst, Option, none, some, List, [], ◌∷◌,
  get_elem?, if◌then◌else◌,
}
use auks.Base.Results.{Res, ok, err, fault, Act, and_then}
use auks.Base.Strtol.{strtol_or}
use auks.Base.Text.{codes, c_str, strncmp_eq, strncasecmp_eq}
use auks.Config
use auks.Config.{Config, Block}
use auks.Config.Cache.{
  IsCached, Answers, name_of, value_of, get_block_name-Answers, get_key_value_by_name-Answers,
}
use auks.Engine.{Server, Logs, Common, Client, Renewer, Files}
use auks.Engine.Settings.{
  text_or, number_or, is_nat, helper_of, syslog_of, Sections, unread, text, number, read_common,
  server, logs, read_api, read_renewer,
}

-- What a block says of a key.
abbrev pub key : Block → List ℕ → Option (List ℕ)
key x name = Config.find_key name x.list_def

-- The value of a key, or its default: of a text, and of a number.
abbrev pub given_text : Option (List ℕ) → Option (List ℕ) → Option (List ℕ)
given_text default none = default
given_text default (some value) = some value

abbrev given_number : ℕ → Option (List ℕ) → ℕ
given_number default none = default
given_number default (some value) = strtol_or default value

abbrev text_of : Block → List ℕ → Option (List ℕ) → Option (List ℕ)
text_of x name default = given_text default (key x name)

abbrev number_of : Block → List ℕ → ℕ → ℕ
number_of x name default = given_number default (key x name)

-- NAT traversal is on if the value is "yes", in whatever case.
abbrev pub given_nat : Option (List ℕ) → ℕ
given_nat none = 0
given_nat (some value) = if strncasecmp_eq 4 value (codes "yes") then 1 else 0

-- The helper is a file that can be run; and syslog is used if the value is a number but 0.
abbrev pub given_helper : Files → Option (List ℕ) → Option (List ℕ)
given_helper files none = none
given_helper files (some script) =
    if length (c_str script) == 0 then none else if files.can_run script then some script else none

abbrev pub given_syslog : Option Bool → Option (List ℕ) → Option Bool
given_syslog before none = before
given_syslog before (some value) = some (not (strtol_or 1 value == 0))

text_or-given_text : (default o : Option (List ℕ)) → text_or default o ≡ given_text default o
unfolding text_or
text_or-given_text default none = refl
text_or-given_text default (some value) = refl

number_or-given_number :
    (default : ℕ) (o : Option (List ℕ)) → number_or default o ≡ given_number default o
unfolding number_or
number_or-given_number default none = refl
number_or-given_number default (some value) = refl

is_nat-given_nat : (o : Option (List ℕ)) → is_nat o ≡ given_nat o
unfolding is_nat
is_nat-given_nat none = refl
is_nat-given_nat (some value) = refl

helper_of-given_helper :
    (files : Files) (o : Option (List ℕ)) → helper_of files o ≡ given_helper files o
unfolding helper_of
helper_of-given_helper files none = refl
helper_of-given_helper files (some value) = refl

syslog_of-given_syslog :
    (before : Option Bool) (o : Option (List ℕ)) → syslog_of before o ≡ given_syslog before o
unfolding syslog_of
syslog_of-given_syslog before none = refl
syslog_of-given_syslog before (some value) = refl

abbrev logs_of : Block → List ℕ → ℕ → Logs
logs_of x file level = record {
  log_file = text_of x (codes "LogFile") (some file);
  log_level = number_of x (codes "LogLevel") level;
  debug_file = text_of x (codes "DebugFile") (some file);
  debug_level = number_of x (codes "DebugLevel") 0;
}

abbrev server_of : Block → List ℕ → List ℕ → List ℕ → List ℕ → Server
server_of x host_key address_key port_key principal_key = record {
  host = text_of x host_key (some (codes "localhost"));
  address = text_of x address_key none;
  port = text_of x port_key (some (codes "12345"));
  principal = text_of x principal_key (some []);
}

-- The settings that a block "common" gives, and one "api", and one "renewer".
unfoldable pub common_of : Block → Common
common_of x = record {
  primary =
      server_of x (codes "PrimaryHost") (codes "PrimaryAddress") (codes "PrimaryPort")
        (codes "PrimaryPrincipal");
  secondary =
      server_of x (codes "SecondaryHost") (codes "SecondaryAddress") (codes "SecondaryPort")
        (codes "SecondaryPrincipal");
  realm = text_of x (codes "CrossRealm") (some []);
  retry_nb = number_of x (codes "Retries") 3;
  time_out = number_of x (codes "Timeout") 10;
  wait = number_of x (codes "Delay") 10;
  nat = given_nat (key x (codes "NAT"));
}

unfoldable pub client_of : Files → Block → Client
client_of files x = record {
  logs = logs_of x (codes "/tmp/auksapi.log") 0;
  helper = given_helper files (key x (codes "HelperScript"));
}

unfoldable pub renewer_of : Block → Renewer
renewer_of x = record {
  logs = logs_of x (codes "/var/log/auksdrenewer.log") 1;
  wait = number_of x (codes "Delay") 60;
  min_lifetime = number_of x (codes "Minlifetime") 300;
}

abbrev pub with_common : Block → Sections → Sections
with_common x s = record s { common = some (common_of x); valid_block_nb = s.valid_block_nb + 1 }

abbrev pub with_api : Files → Block → Sections → Sections
with_api files x s = record s {
  api = some (client_of files x);
  syslog = given_syslog s.syslog (key x (codes "UseSyslog"));
  valid_block_nb = s.valid_block_nb + 1;
}

abbrev pub with_renewer : Block → Sections → Sections
with_renewer x s = record s { renewer = renewer_of x }

-- The blocks whose names begin so, one after the other.
unfoldable pub over_blocks :
    ℕ → List ℕ → (Block → Sections → Sections) → List Block → Sections → Sections
over_blocks n name step [] s = s
over_blocks n name step (x ∷ xs) s =
    over_blocks n name step xs (if strncmp_eq n name x.name then step x s else s)

unfoldable pub sections_of : Files → List Block → Sections
sections_of files blocks =
    let common = over_blocks 6 (codes "common") with_common blocks unread in
    let api = over_blocks 3 (codes "api") (with_api files) blocks common in
    over_blocks 3 (codes "renewer") with_renewer blocks api

-- An answer, and what is done with it.
pub answered :
    {A B : Type 0} (blocks : List Block) (a : A) (b : B) (r : Res Config A) (f : A → Act Config B)
    → Answers blocks a r
    → ((c : Config) → IsCached blocks c → Answers blocks b (f a c))
    → Answers blocks b (and_then r f)
answered blocks a b (ok a' c) f (e, v) h = subst (λ x. Answers blocks b (f x c)) (sym e) (h c v)
answered blocks a b (err e c) f d h = d
answered blocks a b fault f d h = d

module _ (b : Block) (bs : List Block) (x : Block) (i : ℕ)
    (at : get_elem? (b ∷ bs) i ≡ some x) where
  abbrev blocks : List Block
  blocks = b ∷ bs

  key_answer :
      (name : List ℕ) (c : Config)
      → IsCached blocks c
      → Answers blocks (key x name) (Config.get_key_value_by_name i name c)
  key_answer name c v =
      let same : value_of blocks i name ≡ key x name = rw (at, value_of) in
      rw same at (get_key_value_by_name-Answers b bs i name c v)

  text_answer :
      (name : List ℕ) (default : Option (List ℕ)) (c : Config)
      → IsCached blocks c
      → Answers blocks (text_of x name default) (text i name default c)
  unfolding text
  text_answer name default c v =
      answered blocks (key x name) _ _ _ (key_answer name c v)
        λ c v. (text_or-given_text default _, v)

  number_answer :
      (name : List ℕ) (default : ℕ) (c : Config)
      → IsCached blocks c
      → Answers blocks (number_of x name default) (number i name default c)
  unfolding number
  number_answer name default c v =
      answered blocks (key x name) _ _ _ (key_answer name c v)
        λ c v. (number_or-given_number default _, v)

  server_answer :
      (host_key address_key port_key principal_key : List ℕ) (c : Config)
      → IsCached blocks c
      → Answers blocks
          (server_of x host_key address_key port_key principal_key)
          (server i host_key address_key port_key principal_key c)
  unfolding server
  server_answer host_key address_key port_key principal_key c v =
      answered blocks _ _ _ _ (text_answer _ _ c v) λ c v.
        answered blocks _ _ _ _ (text_answer _ _ c v) λ c v.
          answered blocks _ _ _ _ (text_answer _ _ c v)
            λ c v. answered blocks _ _ _ _ (text_answer _ _ c v) λ c v. (refl, v)

  logs_answer :
      (file : List ℕ) (level : ℕ) (c : Config)
      → IsCached blocks c
      → Answers blocks (logs_of x file level) (logs i file level c)
  unfolding logs
  logs_answer file level c v = answered blocks _ _ _ _ (text_answer _ _ c v) λ c v.
      answered blocks _ _ _ _ (number_answer _ _ c v) λ c v.
        answered blocks _ _ _ _ (text_answer _ _ c v)
          λ c v. answered blocks _ _ _ _ (number_answer _ _ c v) λ c v. (refl, v)

  pub read_common-Answers :
      (s : Sections) (c : Config)
      → IsCached blocks c
      → Answers blocks (with_common x s) (read_common i s c)
  unfolding read_common common_of
  read_common-Answers s c v = answered blocks _ _ _ _ (server_answer _ _ _ _ c v) λ c v.
      answered blocks _ _ _ _ (server_answer _ _ _ _ c v) λ c v.
        answered blocks _ _ _ _ (text_answer _ _ c v) λ c v.
          answered blocks _ _ _ _ (number_answer _ _ c v) λ c v.
            answered blocks _ _ _ _ (number_answer _ _ c v) λ c v.
              answered blocks _ _ _ _ (number_answer _ _ c v) λ c v.
                answered blocks _ _ _ _ (key_answer _ c v)
                  λ c v. rw (is_nat-given_nat (key x (codes "NAT"))) (refl, v)

  pub read_api-Answers :
      (files : Files) (s : Sections) (c : Config)
      → IsCached blocks c
      → Answers blocks (with_api files x s) (read_api files i s c)
  unfolding read_api client_of
  read_api-Answers files s c v = answered blocks _ _ _ _ (logs_answer _ _ c v) λ c v.
      answered blocks _ _ _ _ (key_answer _ c v) λ c v.
        answered blocks _ _ _ _ (key_answer _ c v) λ c v.
          rw
            (
              helper_of-given_helper files (key x (codes "HelperScript")),
              syslog_of-given_syslog s.syslog (key x (codes "UseSyslog")),
            )
            (refl, v)

  pub read_renewer-Answers :
      (s : Sections) (c : Config)
      → IsCached blocks c
      → Answers blocks (with_renewer x s) (read_renewer i s c)
  unfolding read_renewer renewer_of
  read_renewer-Answers s c v = answered blocks _ _ _ _ (logs_answer _ _ c v) λ c v.
      answered blocks _ _ _ _ (number_answer _ _ c v)
        λ c v. answered blocks _ _ _ _ (number_answer _ _ c v) λ c v. (refl, v)

  pub name_answer :
      (c : Config) → IsCached blocks c → Answers blocks (some x.name) (Config.get_block_name i c)
  name_answer c v =
      let same : name_of blocks i ≡ some x.name = rw (at, name_of) in
      rw same at (get_block_name-Answers b bs i c v)
