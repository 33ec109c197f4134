-- ===== src/Config/Keys.antt =====
-- The look-up of a key in a block, in config_parsing.c.
use auks.Base.{
  ℕ, ◌≡◌, refl, true, Option, none, some, List, [], ◌∷◌, ◌++◌, Bool-cases, true-false, inl, inr,
  All, get_elem?, sym, ◌∙◌, ap, subst,
}
use auks.Base.Results.{Res, ok, err, fault}
use auks.Base.Text.{strncasecmp_eq}
use auks.Config.{Affect, Block, Config, find_key, get_key_value_by_name}
use auks.Config.Cache.{IsCached, Answers, value_of, get_key_value_by_name-Answers}

-- The definition is one of that key, in whatever case.
abbrev pub Defines : List ℕ → Affect → Type 0
Defines key a = strncasecmp_eq 1024 a.varname key ≡ true

-- The value is that of the first definition of the key, and there is none only if no definition is
-- one of the key.
abbrev pub IsFirst : List ℕ → List Affect → Option (List ℕ) → Type 0
IsFirst key defs none = All (λ a. ¬ Defines key a) defs
IsFirst key defs (some value) =
    (before : List Affect) × (a : Affect) × (after : List Affect) × (defs ≡ before ++ (a ∷ after))
    × All (λ a. ¬ Defines key a) before
    × Defines key a
    × (a.varvalue ≡ value)

-- The block at that index, if it is there, has this value for the key.
abbrev pub IsValue : List ℕ → Option Block → Option (List ℕ) → Type 0
IsValue key none value = value ≡ none
IsValue key (some b) value = IsFirst key b.list_def value

abbrev pub Looks : List Block → ℕ → List ℕ → Res Config (Option (List ℕ)) → Type 0
Looks blocks i key (ok value c) = IsValue key (get_elem? blocks i) value × IsCached blocks c
Looks blocks i key (err e c) = ⊥
Looks blocks i key fault = ⊥

behind :
    (key : List ℕ) (a : Affect) (defs : List Affect) (value : Option (List ℕ))
    → ¬ Defines key a
    → IsFirst key defs value
    → IsFirst key (a ∷ defs) value
behind key a defs none other h = (other, h)
behind key a defs (some value) other (before, b, after, e, all, d, v) =
    (a ∷ before, b, after, ap {B = List Affect} (λ l. a ∷ l) e, (other, all), d, v)

pub find_key-IsFirst : (key : List ℕ) (defs : List Affect) → IsFirst key defs (find_key key defs)
unfolding find_key
find_key-IsFirst key [] = tt
find_key-IsFirst key (a ∷ defs) = elim (Bool-cases (strncasecmp_eq 1024 a.varname key)) [
  | inl here ↦ rw here ([], a, defs, refl, tt, here, refl)
  | inr there ↦
      rw there (behind key a defs _ (λ d. true-false (sym d ∙ there)) (find_key-IsFirst key defs))
]

value_of-IsValue :
    (blocks : List Block) (i : ℕ) (key : List ℕ)
    → IsValue key (get_elem? blocks i) (value_of blocks i key)
value_of-IsValue blocks i key = go (get_elem? blocks i)
  where
    go :
        (o : Option Block)
        → IsValue key o (elim o [ none ↦ none | some b ↦ find_key key b.list_def ])
    go none = refl
    go (some b) = find_key-IsFirst key b.list_def

-- With a sound cache on a file with a block at least, looking a key up by name answers with the
-- value of the first definition in the block at that index that has that name, in whatever case
-- and over 1024 characters, or with nothing if none has it or there is no such block; the cache
-- stays sound.
pub get_key_value_by_name-Looks :
    (b : Block) (bs : List Block) (i : ℕ) (key : List ℕ) (c : Config)
    → IsCached (b ∷ bs) c
    → Looks (b ∷ bs) i key (get_key_value_by_name i key c)
get_key_value_by_name-Looks b bs i key c v =
    go (get_key_value_by_name i key c) (get_key_value_by_name-Answers b bs i key c v)
  where
    go :
        (r : Res Config (Option (List ℕ)))
        → Answers (b ∷ bs) (value_of (b ∷ bs) i key) r
        → Looks (b ∷ bs) i key r
    go (ok value c) (e, v) =
        (subst (IsValue key (get_elem? (b ∷ bs) i)) (sym e) (value_of-IsValue (b ∷ bs) i key), v)
    go (err e c) d = d
    go fault d = d
