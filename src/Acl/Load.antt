-- ===== src/Acl/Load.antt =====
-- `auks_acl_init_from_config_file` of auks_acl.c against a reading of the file block by block.
use auks.Base.{
  ℕ, ◌+◌, ◌≤◌, ◌<◌, ◌≡◌, refl, sym, ap, ◌∙◌, subst, Bool, true, false, Option, some, List, [], ◌∷◌,
  ◌++◌, append-nil, append_assoc, arith, length, length-append, get_elem?, ◌==◌, Bool-cases, inl,
  inr,
}
use auks.Base.Results.{Res, ok, err, fault, acl_file_is_invalid}
use auks.Base.Text.{codes, strncmp_eq}
use native.Mathlib.Nat.{add-zero, add_assoc}
use auks.Config
use auks.Config.{Config, Block}
use auks.Config.Cache.{
  IsCached, Answers, name_of, value_of, get_block_name-Answers, get_key_value_by_name-Answers,
  get_nb_blocks-Answers, parsed-IsCached, get_elem?-length,
}
use auks.Acl.{
  Rule, Acl, System, init, free_contents, Loading, is_rule, add_block, load_block, load_blocks,
  finished, with_room, with_count, init_from_config_file,
}
use auks.Acl.Reading.{
  rule_of, errors_of, read_keys, read_block, rules_of, bad_blocks, state, Advances, asked,
  advance_then, rule_of_short, HasMemory, kept-Advances, add_with_string-Advances,
}

abbrev key : Block → List ℕ → Option (List ℕ)
key x name = Config.find_key name x.list_def

-- One round of the loop, and all of them, over a file with a block at least.
module _ (sys : System) (memory : HasMemory sys) (b : Block) (bs : List Block) where
  key_answer :
      (x : Block) (i : ℕ) (name : List ℕ) (c : Config)
      → get_elem? (b ∷ bs) i ≡ some x
      → IsCached (b ∷ bs) c
      → Answers (b ∷ bs) (key x name) (Config.get_key_value_by_name i name c)
  key_answer x i name c at v =
      let same : value_of (b ∷ bs) i name ≡ key x name = rw (at, value_of) in
      rw same at (get_key_value_by_name-Answers b bs i name c v)

  name_answer :
      (x : Block) (i : ℕ) (c : Config)
      → get_elem? (b ∷ bs) i ≡ some x
      → IsCached (b ∷ bs) c
      → Answers (b ∷ bs) (some x.name) (Config.get_block_name i c)
  name_answer x i c at v =
      let same : name_of (b ∷ bs) i ≡ some x.name = rw (at, name_of) in
      rw same at (get_block_name-Answers b bs i c v)

  rule_block-Advances :
      (x : Block) (i : ℕ) (rules : List Rule) (room n : ℕ) (c : Config) (test : Bool)
      → get_elem? (b ∷ bs) i ≡ some x
      → length rules < room
      → IsCached (b ∷ bs) c
      → let reading =
          read_keys test
            (key x (codes "role"))
            (key x (codes "principal"))
            (key x (codes "host")) in
        Advances
          (b ∷ bs)
          (rules ++ rule_of reading)
          room
          (n + errors_of reading)
          (add_block sys (some test) i (state c rules room n))
  unfolding add_block
  rule_block-Advances x i rules room n c false at h v =
      kept-Advances sys memory (b ∷ bs) rules room n c v
  rule_block-Advances x i rules room n c true at h v =
      let role = key x (codes "role") in
      let principal = key x (codes "principal") in
      let host = key x (codes "host") in
      let reading = read_keys true role principal host in
      let P = Advances (b ∷ bs) (rules ++ rule_of reading) room (n + errors_of reading) in
      asked P (b ∷ bs) role (state c rules room n) _ _ (key_answer x i _ c at v) λ c v.
        asked P (b ∷ bs) principal (state c rules room n) _ _ (key_answer x i _ c at v) λ c v.
          asked P (b ∷ bs) host (state c rules room n) _ _ (key_answer x i _ c at v) λ c v.
            add_with_string-Advances sys memory (b ∷ bs) role principal host rules room n c h v

  load_block-Advances :
      (x : Block) (i : ℕ) (rules : List Rule) (room n : ℕ) (c : Config)
      → get_elem? (b ∷ bs) i ≡ some x
      → length rules < room
      → IsCached (b ∷ bs) c
      → Advances
          (b ∷ bs)
          (rules ++ rule_of (read_block x))
          room
          (n + errors_of (read_block x))
          (load_block sys i (state c rules room n))
  unfolding load_block read_block is_rule
  load_block-Advances x i rules room n c at h v =
      let reading = read_block x in
      let P = Advances (b ∷ bs) (rules ++ rule_of reading) room (n + errors_of reading) in
      asked P (b ∷ bs) (some x.name) (state c rules room n) _ _ (name_answer x i c at v)
        λ c v. rule_block-Advances x i rules room n c (strncmp_eq 7 (codes "rule") x.name) at h v

  -- The rounds for `rest`, which stands behind `before`.
  load_blocks-Advances :
      (rest before : List Block) (rules : List Rule) (room n : ℕ) (c : Config)
      → b ∷ bs ≡ before ++ rest
      → length rules ≤ length before
      → length before + length rest ≤ room
      → IsCached (b ∷ bs) c
      → Advances
          (b ∷ bs)
          (rules ++ rules_of rest)
          room
          (n + bad_blocks rest)
          (load_blocks sys (length rest) (length before) (state c rules room n))
  unfolding load_blocks rules_of bad_blocks
  load_blocks-Advances [] before rules room n c same few fits v =
      rw (append-nil rules, add-zero n) (c, refl, v)
  load_blocks-Advances (x ∷ rest) before rules room n c same few fits v =
      let reading = read_block x in
      let rules' = rules ++ rule_of reading in
      let P =
        Advances (b ∷ bs) (rules ++ (rule_of reading ++ rules_of rest)) room
          (n + (errors_of reading + bad_blocks rest)) in
      let here : get_elem? (b ∷ bs) (length before) ≡ some x =
        rw same (get_elem?-length before rest x) in
      let last : length (before ++ (x ∷ [])) ≡ length before + 1 = length-append before (x ∷ []) in
      let whole : b ∷ bs ≡ (before ++ (x ∷ [])) ++ rest =
        same ∙ sym (append_assoc before (x ∷ []) rest) in
      let short : length rules' ≤ length (before ++ (x ∷ [])) =
        omega (arith, length-append rules (rule_of reading), rule_of_short reading) in
      advance_then P (b ∷ bs) rules' room (n + errors_of reading) _
        (load_blocks sys (length rest) (length before + 1))
        (load_block-Advances x (length before) rules room n c here (omega arith) v)
        λ c v.
          rw
            (
              ← last,
              ← append_assoc rules (rule_of reading) (rules_of rest),
              ← add_assoc n (errors_of reading) (bad_blocks rest),
            )
            (load_blocks-Advances rest (before ++ (x ∷ [])) rules' room (n + errors_of reading) c
              whole short (omega arith) v)

  -- What the file comes to: its rules, if it has no bad block.
  abbrev pub Loaded : Res Acl (Unit {0}) → Type 0
  Loaded (ok _ acl) =
      (bad_blocks (b ∷ bs) ≡ 0)
      × (acl.rules ≡ rules_of (b ∷ bs))
      × (acl.rules_nb_max ≡ length (b ∷ bs))
  Loaded (err e acl) = (e ≡ acl_file_is_invalid) × (0 < bad_blocks (b ∷ bs)) × (acl.rules ≡ [])
  Loaded fault = ⊥

  finished-Loaded :
      (before : Acl) (r : Res Loading (Unit {0}))
      → Advances (b ∷ bs) (rules_of (b ∷ bs)) (length (b ∷ bs)) (bad_blocks (b ∷ bs)) r
      → Loaded (finished sys before r)
  unfolding finished free_contents
  finished-Loaded before (ok _ l) (c, e, v) =
      let errors : l.errors ≡ bad_blocks (b ∷ bs) = ap (λ l. l.errors) e in
      let rules : l.acl.rules ≡ rules_of (b ∷ bs) = ap (λ l. l.acl.rules) e in
      let room : l.acl.rules_nb_max ≡ length (b ∷ bs) = ap (λ l. l.acl.rules_nb_max) e in
      elim (Bool-cases (l.errors == 0)) [
        | inl good ↦
            let zero_errors : l.errors ≡ 0 = ground arith in
            rw good (sym errors ∙ zero_errors, rules, room)
        | inr wrong ↦
            let some_errors : 0 < l.errors = ground arith in
            rw wrong (refl, subst (λ n. 0 < n) errors some_errors, refl)
      ]
  finished-Loaded before (err e l) d = absurd d
  finished-Loaded before fault d = absurd d

  counted-Loaded :
      (before : Acl) (r : Res Config ℕ)
      → Answers (b ∷ bs) (length (b ∷ bs)) r
      → Loaded (with_count sys before r)
  unfolding with_count with_room init
  counted-Loaded before (ok nb c) (e, v) =
      let size = length (b ∷ bs) in
      let run = load_blocks sys size 0 (state c [] size 0) in
      let none_yet : 0 + bad_blocks (b ∷ bs) ≡ bad_blocks (b ∷ bs) = omega arith in
      let nonzero : (size == 0) ≡ false = ground arith in
      rw (e, nonzero, memory)
        (finished-Loaded before run (
          subst (λ n. Advances (b ∷ bs) (rules_of (b ∷ bs)) size n run) none_yet
            (load_blocks-Advances (b ∷ bs) [] [] size 0 c refl (omega arith) (omega arith) v)))
  counted-Loaded before (err e c) d = absurd d
  counted-Loaded before fault d = absurd d

  -- With memory, loading a file with a block at least gives exactly the rules of its rule blocks
  -- in order, if each of them that has a role names a role, a principal and a host; and else an
  -- error and an empty list. The role is user or admin for exactly that text, and guest for every
  -- text that begins so. It never reads through NULL and never finds the list full.
  pub init_from_config_file-Loaded :
      (before : Acl)
      → Loaded (init_from_config_file sys (some (Config.parsed (some (b ∷ bs)))) before)
  unfolding init_from_config_file
  init_from_config_file-Loaded before =
      counted-Loaded before _
        (get_nb_blocks-Answers b bs (Config.parsed (some (b ∷ bs))) (parsed-IsCached (b ∷ bs)))
