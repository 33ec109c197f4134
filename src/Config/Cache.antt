-- ===== src/Config/Cache.antt =====
-- The cache of config_parsing.c is sound: a call answers as it would without one.
use auks.Base.{
  ℕ, zero, suc, ◌≤◌, ◌<◌, ◌≡◌, refl, Option, none, some, List, [], ◌∷◌, ◌++◌, arith, length,
  get_elem?, ltb, if◌then◌else◌, Bool-cases, inl, inr, ◌==◌, ap, sym, ◌∙◌, subst,
}
use auks.Base.Results.{Res, ok, err, fault, and_then}
use auks.Config.{
  Block, Config, parsed, get_nb_blocks, cached_or_counted, load_item, load_from, find_item, is_last,
  remember, get_block_name, get_key_value_by_name, find_key,
}

-- What is cached is so of the tree.
pub record IsCached (blocks : List Block) (c : Config) : Type 0 where
  pub tree : c.syntax_tree ≡ some blocks
  pub counted : (nb : ℕ) → c.cache_nb_items ≡ some nb → nb ≡ length blocks
  pub indexed :
      (i : ℕ)
      → c.last_item_index ≡ some i
      → (i < length blocks) × (c.last_item_ptr ≡ get_elem? blocks i)
  pub pointed : c.last_item_index ≡ none → c.last_item_ptr ≡ none

-- A call that answers `a` and keeps the cache sound.
abbrev pub Answers : {A : Type 0} → List Block → A → Res Config A → Type 0
Answers blocks a (ok b c) = (b ≡ a) × IsCached blocks c
Answers blocks a (err e c) = ⊥
Answers blocks a fault = ⊥

-- A configuration that was just parsed.
pub parsed-IsCached : (blocks : List Block) → IsCached blocks (parsed (some blocks))
unfolding parsed
parsed-IsCached blocks = record {
  tree = refl;
  counted = λ nb e. cc;
  indexed = λ i e. absurd (none_ne e);
  pointed = λ e. refl;
}
  where
    none_ne : {A : Type 0} {a : A} → none ≡ some a → ⊥
    none_ne e = cc

pub get_nb_blocks-Answers :
    (b : Block) (bs : List Block) (c : Config)
    → IsCached (b ∷ bs) c
    → Answers (b ∷ bs) (suc (length bs)) (get_nb_blocks c)
unfolding get_nb_blocks
get_nb_blocks-Answers b bs c v = go c.cache_nb_items refl
  where
    go :
        (o : Option ℕ)
        → c.cache_nb_items ≡ o
        → Answers (b ∷ bs) (suc (length bs)) (cached_or_counted o c)
    go (some nb) e = (v.counted nb e, v)
    go none e = simp v.tree (
      refl,
      record {
        tree = refl;
        counted = λ nb e. cc e;
        indexed = λ i e. let k : 0 ≡ i = cc e in rw (← k) (omega arith, refl);
        pointed = λ e. cc e;
      },
    )

pub get_elem?-some :
    {A : Type 0} (xs : List A) (i : ℕ) → i < length xs → (a : A) × (get_elem? xs i ≡ some a)
get_elem?-some [] i h = elim h [ ]
get_elem?-some (x ∷ xs) zero h = (x, refl)
get_elem?-some (x ∷ xs) (suc i) h = get_elem?-some xs i (omega arith)

pub get_elem?-length :
    (before rest : List Block) (x : Block)
    → get_elem? (before ++ (x ∷ rest)) (length before) ≡ some x
get_elem?-length [] rest x = refl
get_elem?-length (y ∷ before) rest x = get_elem?-length before rest x

get_elem?-none : {A : Type 0} (xs : List A) (i : ℕ) → length xs ≤ i → get_elem? xs i ≡ none
get_elem?-none [] i h = refl
get_elem?-none (x ∷ xs) zero h = elim h [ ]
get_elem?-none (x ∷ xs) (suc i) h = get_elem?-none xs i (omega arith)

remember-Answers :
    (blocks : List Block) (i : ℕ) (c : Config)
    → IsCached blocks c
    → i < length blocks
    → Answers blocks (get_elem? blocks i) (remember i (get_elem? blocks i) c)
unfolding remember
remember-Answers blocks i c v h =
    let (b, e) = get_elem?-some blocks i h in
    rw e (
      refl,
      record {
        tree = v.tree;
        counted = v.counted;
        indexed = λ j same. let k : i ≡ j = cc same in rw (← k) (h, sym e);
        pointed = λ same. cc same;
      },
    )

find_item-Answers :
    (blocks : List Block) (i : ℕ) (c : Config)
    → IsCached blocks c
    → i < length blocks
    → Answers blocks (get_elem? blocks i) (find_item i blocks c)
unfolding find_item is_last
find_item-Answers blocks i c v h = go c.last_item_index refl
  where
    go :
        (o : Option ℕ)
        → c.last_item_index ≡ o
        → Answers blocks
            (get_elem? blocks i)
            (if is_last o i then ok c.last_item_ptr c else remember i (get_elem? blocks i) c)
    go none e = remember-Answers blocks i c v h
    go (some j) e = elim (Bool-cases (i == j)) [
      | inl same ↦
          let k : i ≡ j = ground arith in
          rw same ((v.indexed j e).1 ∙ ap (get_elem? blocks) (sym k), v)
      | inr other ↦ rw other (remember-Answers blocks i c v h)
    ]

-- Loading a block gives the block at that index, and none past the end, whatever was asked before.
pub load_item-Answers :
    (b : Block) (bs : List Block) (i : ℕ) (c : Config)
    → IsCached (b ∷ bs) c
    → Answers (b ∷ bs) (get_elem? (b ∷ bs) i) (load_item i c)
unfolding load_item load_from
load_item-Answers b bs i c v =
    subst (λ o. Answers (b ∷ bs) (get_elem? (b ∷ bs) i) (load_from o i c)) (sym v.tree)
      (counted (get_nb_blocks c) (get_nb_blocks-Answers b bs c v))
  where
    counted :
        (r : Res Config ℕ)
        → Answers (b ∷ bs) (suc (length bs)) r
        → Answers
            (b ∷ bs)
            (get_elem? (b ∷ bs) i)
            (and_then r (λ nb. if ltb i nb then find_item i (b ∷ bs) else ok none))
    counted (ok nb c') (e, v') = elim (Bool-cases (ltb i nb)) [
      | inl inside ↦ rw inside (find_item-Answers (b ∷ bs) i c' v' (ground arith))
      | inr outside ↦ rw outside (sym (get_elem?-none (b ∷ bs) i (ground arith)), v')
    ]
    counted (err e c') d = absurd d
    counted fault d = absurd d

mapped :
    {A B : Type 0} (blocks : List Block) (f : A → B) (a : A) (r : Res Config A)
    → Answers blocks a r
    → Answers blocks (f a) (and_then r (λ b. ok (f b)))
mapped blocks f a (ok b c) (e, v) = (ap f e, v)
mapped blocks f a (err e c) d = d
mapped blocks f a fault d = d

-- What the tree says of a key, with no cache: the first definition of that name in that block.
abbrev pub value_of : List Block → ℕ → List ℕ → Option (List ℕ)
value_of blocks i key = elim (get_elem? blocks i) [ none ↦ none | some b ↦ find_key key b.list_def ]

abbrev pub name_of : List Block → ℕ → Option (List ℕ)
name_of blocks i = elim (get_elem? blocks i) [ none ↦ none | some b ↦ some b.name ]

-- With a sound cache on a file with a block at least, looking a key up by name answers with the
-- first value that the block at that index defines for it in the tree, or nothing, and the cache
-- stays sound.
pub get_key_value_by_name-Answers :
    (b : Block) (bs : List Block) (i : ℕ) (key : List ℕ) (c : Config)
    → IsCached (b ∷ bs) c
    → Answers (b ∷ bs) (value_of (b ∷ bs) i key) (get_key_value_by_name i key c)
unfolding get_key_value_by_name
get_key_value_by_name-Answers b bs i key c v =
    mapped (b ∷ bs) _ _ (load_item i c) (load_item-Answers b bs i c v)

pub get_block_name-Answers :
    (b : Block) (bs : List Block) (i : ℕ) (c : Config)
    → IsCached (b ∷ bs) c
    → Answers (b ∷ bs) (name_of (b ∷ bs) i) (get_block_name i c)
unfolding get_block_name
get_block_name-Answers b bs i c v =
    mapped (b ∷ bs) _ _ (load_item i c) (load_item-Answers b bs i c v)
