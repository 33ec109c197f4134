-- ===== src/Config/Names.antt =====
-- The search of config_parsing.c for a block by its name.
use auks.Base.{
  ℕ, zero, suc, true, false, ◌<◌, ◌≡◌, refl, Option, none, some, List, [], ◌∷◌, arith, length,
  get_elem?, Bool-cases, inl, inr, sym, ◌∙◌, subst,
}
use auks.Base.Results.{Res, ok, err, fault}
use auks.Base.Text.{strncasecmp_eq}
use auks.Config.{
  Block, Config, get_block_index_by_name, cached_has_name, search_index, find_index, next_index,
  has_name, remember_index, max_str_len,
}
use auks.Config.Cache.{IsCached}

-- An index is that of a block of that name, and there is no index only if no block has it.
abbrev pub Names : List ℕ → List Block → Option ℕ → Type 0
Names block_name blocks (some i) =
    (i < length blocks)
    × ((b : Block) × (get_elem? blocks i ≡ some b)
        × (strncasecmp_eq max_str_len b.name block_name ≡ true))
Names block_name blocks none =
    (i : ℕ) (b : Block)
    → get_elem? blocks i ≡ some b
    → strncasecmp_eq max_str_len b.name block_name ≡ false

abbrev pub Searched : List ℕ → List Block → Res Config (Option ℕ) → Type 0
Searched block_name blocks (ok found c) = Names block_name blocks found × IsCached blocks c
Searched block_name blocks (err e c) = ⊥
Searched block_name blocks fault = ⊥

cons_none :
    (block_name : List ℕ) (b : Block) (bs : List Block)
    → strncasecmp_eq max_str_len b.name block_name ≡ false
    → Names block_name bs none
    → Names block_name (b ∷ bs) none
cons_none block_name b bs other all zero d e = let k : b ≡ d = cc e in rw (← k) other
cons_none block_name b bs other all (suc i) d e = all i d e

next_index-Names :
    (block_name : List ℕ) (b : Block) (bs : List Block) (found : Option ℕ)
    → strncasecmp_eq max_str_len b.name block_name ≡ false
    → Names block_name bs found
    → Names block_name (b ∷ bs) (next_index found)
unfolding next_index
next_index-Names block_name b bs none other all = cons_none block_name b bs other all
next_index-Names block_name b bs (some i) other (h, found) = (omega arith, found)

find_index-Names :
    (block_name : List ℕ) (blocks : List Block)
    → Names block_name blocks (find_index block_name blocks)
unfolding find_index has_name
find_index-Names block_name [] = λ i b e. cc e
find_index-Names block_name (b ∷ bs) =
    elim (Bool-cases (strncasecmp_eq max_str_len b.name block_name)) [
      | inl same ↦ rw same (omega arith, (b, refl, same))
      | inr other ↦ rw other (
          next_index-Names block_name b bs (find_index block_name bs) other
            (find_index-Names block_name bs))
    ]

remember_index-Searched :
    (block_name : List ℕ) (blocks : List Block) (found : Option ℕ) (c : Config)
    → IsCached blocks c
    → Names block_name blocks found
    → Searched block_name blocks (remember_index found blocks c)
unfolding remember_index
remember_index-Searched block_name blocks none c v names = (names, v)
remember_index-Searched block_name blocks (some i) c v names = (
  names,
  record {
    tree = v.tree;
    counted = v.counted;
    indexed = λ j same. let k : i ≡ j = cc same in rw (← k) (names.0, refl);
    pointed = λ same. cc same;
  },
)

cached-Names :
    (block_name : List ℕ) (blocks : List Block) (c : Config)
    → IsCached blocks c
    → cached_has_name block_name c.last_item_ptr ≡ true
    → Names block_name blocks c.last_item_index
unfolding cached_has_name has_name
cached-Names block_name blocks c v h = at_index c.last_item_index c.last_item_ptr refl refl h
  where
    at_index :
        (o : Option ℕ) (p : Option Block)
        → c.last_item_index ≡ o
        → c.last_item_ptr ≡ p
        → cached_has_name block_name p ≡ true
        → Names block_name blocks o
    at_index o none eo ep g = cc g
    at_index none (some b) eo ep g = let gone : none ≡ some b = sym (v.pointed eo) ∙ ep in cc gone
    at_index (some i) (some b) eo ep g =
        let (inside, there) = v.indexed i eo in (inside, (b, sym there ∙ ep, g))

-- With a sound cache on a file with a block at least, looking a block up by name finds the index
-- of a block of that name, the case of letters and what follows 1024 characters left aside, or it
-- finds nothing and no block of the file has the name; the cache stays sound.
pub get_block_index_by_name-Searched :
    (block_name : List ℕ) (b : Block) (bs : List Block) (c : Config)
    → IsCached (b ∷ bs) c
    → Searched block_name (b ∷ bs) (get_block_index_by_name block_name c)
unfolding get_block_index_by_name search_index
get_block_index_by_name-Searched block_name b bs c v =
    elim (Bool-cases (cached_has_name block_name c.last_item_ptr)) [
      | inl cached ↦ rw cached (cached-Names block_name (b ∷ bs) c v cached, v)
      | inr other ↦ rw other (
          subst (λ o. Searched block_name (b ∷ bs) (search_index o block_name c)) (sym v.tree)
            (remember_index-Searched block_name (b ∷ bs) (find_index block_name (b ∷ bs)) c v
              (find_index-Names block_name (b ∷ bs))))
    ]
