-- ===== src/Engine/Settings/Loops.antt =====
-- The loops over the blocks in `auks_engine_init_from_config_file` of src/api/auks/auks_engine.c.
use auks.Base.{
  ℕ, suc, ◌≡◌, refl, sym, ap, ◌∙◌, Bool, true, false, some, List, [], ◌∷◌, ◌++◌, append_assoc,
  arith, length, get_elem?, if◌then◌else◌, length-append, ◌==◌,
}
use auks.Base.Results.{Act}
use auks.Base.Text.{codes, strncmp_eq}
use auks.Config.{Config, Block}
use auks.Config.Cache.{IsCached, Answers, get_nb_blocks-Answers, get_elem?-length}
use auks.Engine.{Files}
use auks.Engine.Settings.{
  Sections, unread, read_common, read_api, read_renewer, read_if, read_blocks, read_sections,
  read_file,
}
use auks.Engine.Settings.Reading.{
  with_common, with_api, with_renewer, over_blocks, sections_of, answered, read_common-Answers,
  read_api-Answers, read_renewer-Answers, name_answer,
}

-- A loop, over the blocks that are left.
module _ (b : Block) (bs : List Block) where
  -- A round that does to the variables what one block does.
  abbrev Steps : (Block → Sections → Sections) → (ℕ → Sections → Act Config Sections) → Type 0
  Steps step read =
      (x : Block) (i : ℕ) (s : Sections) (c : Config)
      → get_elem? (b ∷ bs) i ≡ some x
      → IsCached (b ∷ bs) c
      → Answers (b ∷ bs) (step x s) (read i s c)

  read_blocks-Answers :
      (n : ℕ) (name : List ℕ) (step : Block → Sections → Sections)
      (read : ℕ → Sections → Act Config Sections) (before rest : List Block) (i : ℕ) (s : Sections)
      (c : Config)
      → Steps step read
      → b ∷ bs ≡ before ++ rest
      → i ≡ length before
      → IsCached (b ∷ bs) c
      → Answers
          (b ∷ bs)
          (over_blocks n name step rest s)
          (read_blocks n name read (length rest) i s c)
  unfolding read_blocks over_blocks
  read_blocks-Answers n name step read before [] i s c h e k v = (refl, v)
  read_blocks-Answers n name step read before (x ∷ rest) i s c h e k v =
      let at : get_elem? (b ∷ bs) i ≡ some x =
        ap (λ l. get_elem? l i) e
        ∙ ap (get_elem? (before ++ (x ∷ rest))) k
        ∙ get_elem?-length before rest x in
      answered (b ∷ bs) _ _ _ _ (name_answer b bs x i at c v) λ c v.
        answered (b ∷ bs) (if strncmp_eq n name x.name then step x s else s) _ _ _
          (wanted x at c v (strncmp_eq n name x.name))
          λ c v.
            read_blocks-Answers n name step read (before ++ (x ∷ [])) rest (suc i) _ c h
              (e ∙ sym (append_assoc before (x ∷ []) rest))
              (omega (arith, length-append before (x ∷ []))) v
    where
      wanted :
          (x : Block) (at : get_elem? (b ∷ bs) i ≡ some x) (c : Config) (v : IsCached (b ∷ bs) c)
          (test : Bool)
          → Answers (b ∷ bs) (if test then step x s else s) (read_if test (read i) s c)
      wanted x at c v true = h x i s c at v
      wanted x at c v false = (refl, v)

read_sections-Answers :
    (files : Files) (b : Block) (bs : List Block) (c : Config)
    → IsCached (b ∷ bs) c
    → Answers (b ∷ bs) (sections_of files (b ∷ bs)) (read_sections files (length (b ∷ bs)) c)
unfolding read_sections sections_of
read_sections-Answers files b bs c v =
    answered (b ∷ bs) _ _ _ _
      (read_blocks-Answers b bs 6 (codes "common") with_common read_common [] (b ∷ bs) 0 unread c
        (λ x i s c at v. read_common-Answers b bs x i at s c v) refl refl v)
      λ c v.
        answered (b ∷ bs) _ _ _ _
          (read_blocks-Answers b bs 3 (codes "api") (with_api files) (read_api files) [] (b ∷ bs) 0
            _ c (λ x i s c at v. read_api-Answers b bs x i at files s c v) refl refl v)
          λ c v.
            read_blocks-Answers b bs 3 (codes "renewer") with_renewer read_renewer [] (b ∷ bs) 0 _ c
              (λ x i s c at v. read_renewer-Answers b bs x i at s c v) refl refl v

-- The three loops answer as the reading block by block does.
pub read_file-Answers :
    (files : Files) (b : Block) (bs : List Block) (c : Config)
    → IsCached (b ∷ bs) c
    → Answers (b ∷ bs) (some (sections_of files (b ∷ bs))) (read_file files c)
unfolding read_file
read_file-Answers files b bs c v =
    let all = some (sections_of files (b ∷ bs)) in
    let positive : (suc (length bs) == 0) ≡ false = ground arith in
    answered (b ∷ bs) (suc (length bs)) all _ _ (get_nb_blocks-Answers b bs c v) λ c v.
      rw positive (
        answered (b ∷ bs) (sections_of files (b ∷ bs)) all _ _
          (read_sections-Answers files b bs c v) λ c v. (refl, v))
