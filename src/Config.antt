-- ===== src/Config.antt =====
-- src/api/confparse/config_parsing.c: the parsed configuration file, with a cache of the number of
-- blocks and of the block that was used last.
pub mod Cache
pub mod Names
pub mod Keys
use auks.Base.{
  ℕ, zero, suc, Bool, true, false, Option, none, some, List, [], ◌∷◌, length, get_elem?, ltb, ◌==◌,
  if◌then◌else◌,
}
use auks.Base.Results.{Res, ok, fault, Act, ◌>>=◌, pure}
use auks.Base.Text.{strncasecmp_eq}

abbrev pub max_str_len : ℕ
max_str_len = 1024

-- `type_affect`: a key and its value.
pub record Affect : Type 0 where
  pub varname : List ℕ
  pub varvalue : List ℕ

-- `type_block`
pub record Block : Type 0 where
  pub name : List ℕ
  pub list_def : List Affect

-- `config_struct_t`; `none` is -1 in a cached number and NULL in a pointer.
pub record Config : Type 0 where
  pub syntax_tree : Option (List Block)
  pub cache_nb_items : Option ℕ
  pub last_item_ptr : Option Block
  pub last_item_index : Option ℕ

-- The struct that `config_ParseFile` builds around the tree of the parser.
pub parsed : Option (List Block) → Config
parsed tree = record {
  syntax_tree = tree;
  cache_nb_items = none;
  last_item_ptr = none;
  last_item_index = none;
}

-- The count of `config_GetNbBlocks`, with no number in the cache yet. The list is not tested for
-- being empty before its first block is read.
count_blocks : Option (List Block) → Act Config ℕ
count_blocks none c = ok 0 (record c { cache_nb_items = some 0 })
count_blocks (some []) c = fault
count_blocks (some (b ∷ bs)) c =
    let nb = suc (length bs) in
    ok nb (record c { cache_nb_items = some nb; last_item_ptr = some b; last_item_index = some 0 })

cached_or_counted : Option ℕ → Act Config ℕ
cached_or_counted none c = count_blocks c.syntax_tree c
cached_or_counted (some nb) c = ok nb c

-- `config_GetNbBlocks`
pub get_nb_blocks : Act Config ℕ
unfolding cached_or_counted count_blocks
get_nb_blocks c = cached_or_counted c.cache_nb_items c

is_last : Option ℕ → ℕ → Bool
is_last none item_no = false
is_last (some i) item_no = item_no == i

-- The walk to the block, which is then kept in the cache.
remember : ℕ → Option Block → Act Config (Option Block)
remember item_no none c = ok none c
remember item_no (some b) c =
    ok (some b) (record c { last_item_ptr = some b; last_item_index = some item_no })

find_item : ℕ → List Block → Act Config (Option Block)
unfolding is_last remember
find_item item_no blocks c =
    if is_last c.last_item_index item_no
    then ok c.last_item_ptr c
    else remember item_no (get_elem? blocks item_no) c

load_from : Option (List Block) → ℕ → Act Config (Option Block)
unfolding find_item
load_from none item_no = pure none
load_from (some blocks) item_no = do
  nb ← get_nb_blocks
  if ltb item_no nb then find_item item_no blocks else pure none

-- `load_item_into_cache`, and the block that it leaves in the cache; `none` is a failure. An
-- index is not negative.
pub load_item : ℕ → Act Config (Option Block)
unfolding load_from
load_item item_no c = load_from c.syntax_tree item_no c

-- `config_GetBlockName`
pub get_block_name : ℕ → Act Config (Option (List ℕ))
get_block_name block_no = do
  block ← load_item block_no
  pure (elim block [ none ↦ none | some b ↦ some b.name ])

-- `config_GetNbKeys`; `none` is -1.
pub get_nb_keys : ℕ → Act Config (Option ℕ)
get_nb_keys block_no = do
  block ← load_item block_no
  pure (elim block [ none ↦ none | some b ↦ some (length b.list_def) ])

-- `config_GetKeyValue`; `none` is -1.
pub get_key_value : ℕ → ℕ → Act Config (Option Affect)
get_key_value block_no key_no = do
  block ← load_item block_no
  pure (elim block [ none ↦ none | some b ↦ get_elem? b.list_def key_no ])

-- The value of the first key of that name.
unfoldable pub find_key : List ℕ → List Affect → Option (List ℕ)
find_key key_name [] = none
find_key key_name (a ∷ as') =
    if strncasecmp_eq max_str_len a.varname key_name then some a.varvalue else find_key key_name as'

-- `config_GetKeyValueByName`
pub get_key_value_by_name : ℕ → List ℕ → Act Config (Option (List ℕ))
unfolding find_key
get_key_value_by_name block_no key_name = do
  block ← load_item block_no
  pure (elim block [ none ↦ none | some b ↦ find_key key_name b.list_def ])

-- The index of the first block of that name, one more for each block before it.
next_index : Option ℕ → Option ℕ
next_index none = none
next_index (some i) = some (suc i)

has_name : List ℕ → Block → Bool
has_name block_name b = strncasecmp_eq max_str_len b.name block_name

find_index : List ℕ → List Block → Option ℕ
unfolding next_index has_name
find_index block_name [] = none
find_index block_name (b ∷ bs) =
    if has_name block_name b then some 0 else next_index (find_index block_name bs)

remember_index : Option ℕ → List Block → Act Config (Option ℕ)
remember_index none blocks c = ok none c
remember_index (some i) blocks c =
    ok (some i) (record c { last_item_ptr = get_elem? blocks i; last_item_index = some i })

-- The list is not tested for being empty, nor for being there.
search_index : Option (List Block) → List ℕ → Act Config (Option ℕ)
unfolding find_index remember_index
search_index none block_name c = fault
search_index (some []) block_name c = fault
search_index (some (b ∷ bs)) block_name c =
    remember_index (find_index block_name (b ∷ bs)) (b ∷ bs) c

cached_has_name : List ℕ → Option Block → Bool
unfolding has_name
cached_has_name block_name none = false
cached_has_name block_name (some b) = has_name block_name b

-- `config_GetBlockIndexByName`; `none` is -1. The block that was used last is tried first.
pub get_block_index_by_name : List ℕ → Act Config (Option ℕ)
unfolding cached_has_name search_index
get_block_index_by_name block_name c =
    if cached_has_name block_name c.last_item_ptr
    then ok c.last_item_index c
    else search_index c.syntax_tree block_name c
