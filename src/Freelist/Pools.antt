-- ===== src/Freelist/Pools.antt =====
-- One array of xfreelist.c: its list of free items and its flags agree.
use auks.Base.{
  ℕ, zero, suc, ◌+◌, ◌≤◌, ◌<◌, ◌≡◌, ◌≢◌, ◌⊎◌, inl, inr, refl, sym, ◌∙◌, Bool, true, false, some,
  List, [], ◌∷◌, arith, subst, nat_cases, true-false, some_injective,
}
use auks.Base.Lists.{replicate}
use auks.Freelist.{Pool, count_from, set_flag, get_flag, unlinked, linked}

-- A list that holds `i`, and one that holds nothing twice.
abbrev pub Mem : ℕ → List ℕ → Type 0
Mem i [] = ⊥
Mem i (x ∷ xs) = (i ≡ x) ⊎ Mem i xs

abbrev pub Distinct : List ℕ → Type 0
Distinct [] = Unit
Distinct (x ∷ xs) = (¬ Mem x xs) × Distinct xs

-- The free items are exactly those that are linked, each of them once.
pub record IsPool (p : Pool) : Type 0 where
  pub sound : (i : ℕ) → Mem i p.head → get_flag i p.flags ≡ some true
  pub complete : (i : ℕ) → get_flag i p.flags ≡ some true → Mem i p.head
  pub distinct : Distinct p.head

pub get_flag-set_flag :
    (b a : Bool) (i : ℕ) (fs : List Bool)
    → get_flag i fs ≡ some a
    → get_flag i (set_flag b i fs) ≡ some b
unfolding get_flag set_flag
get_flag-set_flag b a i [] e = cc
get_flag-set_flag b a zero (f ∷ fs) e = refl
get_flag-set_flag b a (suc i) (f ∷ fs) e = get_flag-set_flag b a i fs e

pub get_flag-set_flag_other :
    (b : Bool) (i j : ℕ) (fs : List Bool) → i ≢ j → get_flag j (set_flag b i fs) ≡ get_flag j fs
unfolding get_flag set_flag
get_flag-set_flag_other b i j [] h = refl
get_flag-set_flag_other b zero zero (f ∷ fs) h = absurd (h refl)
get_flag-set_flag_other b zero (suc j) (f ∷ fs) h = refl
get_flag-set_flag_other b (suc i) zero (f ∷ fs) h = refl
get_flag-set_flag_other b (suc i) (suc j) (f ∷ fs) h =
    get_flag-set_flag_other b i j fs (λ e. h (omega arith))

-- A flag that is set after another was written was set before, or is the one that was written.
pub some_bool : {a b : Bool} → a ≢ b → some a ≡ some b → ⊥
some_bool h e = h (some_injective e)

pub unlinked-IsPool :
    (i : ℕ) (rest : List ℕ) (p : Pool) → p.head ≡ i ∷ rest → IsPool p → IsPool (unlinked i rest p)
unlinked-IsPool i rest p e v =
    let was : Distinct (i ∷ rest) = rw e at v.distinct in
    let here : Mem i p.head = rw e (inl refl) in
    record {
      sound = λ j m.
          let old : Mem j p.head = rw e (inr m) in
          let other : i ≢ j = λ same. was.0 (subst (λ k. Mem k rest) (sym same) m) in
          get_flag-set_flag_other false i j p.flags other ∙ v.sound j old;
      complete = λ j set. elim (nat_cases i j) [
        | inl same ↦
            let off = get_flag-set_flag false true i p.flags (v.sound i here) in
            absurd (
              some_bool true-false (
                sym (subst (λ k. get_flag k (set_flag false i p.flags) ≡ some true) (sym same) set)
                ∙ off))
        | inr other ↦
            let m : Mem j p.head =
              v.complete j (sym (get_flag-set_flag_other false i j p.flags other) ∙ set) in
            let m' : Mem j (i ∷ rest) = rw e at m in
            elim m' [ inl same ↦ absurd (other (sym same)) | inr m ↦ m ]
      ];
      distinct = was.1;
    }

pub linked-IsPool :
    (i : ℕ) (p : Pool) → get_flag i p.flags ≡ some false → IsPool p → IsPool (linked i p)
linked-IsPool i p taken v = record {
  sound = λ j m. elim m [
    | inl same ↦
        subst (λ k. get_flag k (set_flag true i p.flags) ≡ some true) (sym same)
          (get_flag-set_flag true false i p.flags taken)
    | inr m ↦ elim (nat_cases i j) [
      | inl same ↦
          subst (λ k. get_flag k (set_flag true i p.flags) ≡ some true) same
            (get_flag-set_flag true false i p.flags taken)
      | inr other ↦ get_flag-set_flag_other true i j p.flags other ∙ v.sound j m
    ]
  ];
  complete = λ j set. elim (nat_cases i j) [
    | inl same ↦ inl (sym same)
    | inr other ↦ inr (v.complete j (sym (get_flag-set_flag_other true i j p.flags other) ∙ set))
  ];
  distinct = (λ m. some_bool true-false (sym (v.sound i m) ∙ taken), v.distinct);
}

-- A new pool.
get_flag-replicate : (n i : ℕ) → i < n → get_flag i (replicate n true) ≡ some true
unfolding get_flag replicate
get_flag-replicate zero i h = elim h [ ]
get_flag-replicate (suc n) zero h = refl
get_flag-replicate (suc n) (suc i) h = get_flag-replicate n i (omega arith)

pub get_flag-replicate_bound :
    (n i : ℕ) (b : Bool) → get_flag i (replicate n true) ≡ some b → (i < n) × (b ≡ true)
unfolding get_flag replicate
get_flag-replicate_bound zero i b e = cc
get_flag-replicate_bound (suc n) zero b e = (omega arith, sym (some_injective e))
get_flag-replicate_bound (suc n) (suc i) b e =
    let (h, t) = get_flag-replicate_bound n i b e in (omega arith, t)

Mem-count_from : (i n j : ℕ) → Mem j (count_from i n) → (i ≤ j) × (j < i + n)
unfolding count_from
Mem-count_from i zero j m = absurd m
Mem-count_from i (suc n) j (inl e) = (omega arith, omega arith)
Mem-count_from i (suc n) j (inr m) =
    let (a, b) = Mem-count_from (i + 1) n j m in (omega arith, omega arith)

count_from-Mem : (i n j : ℕ) → i ≤ j → j < i + n → Mem j (count_from i n)
unfolding count_from
count_from-Mem i zero j a b = absurd (omega arith)
count_from-Mem i (suc n) j a b = elim (nat_cases j i) [
  | inl same ↦ inl same
  | inr other ↦ inr (count_from-Mem (i + 1) n j (omega arith) (omega arith))
]

count_from-Distinct : (i n : ℕ) → Distinct (count_from i n)
unfolding count_from
count_from-Distinct i zero = tt
count_from-Distinct i (suc n) =
    (λ m. let (a, b) = Mem-count_from (i + 1) n i m in omega arith, count_from-Distinct (i + 1) n)

pub fresh-IsPool : (n : ℕ) → IsPool (record { head = count_from 0 n; flags = replicate n true })
fresh-IsPool n = record {
  sound = λ i m. let (a, b) = Mem-count_from 0 n i m in get_flag-replicate n i (omega arith);
  complete = λ i e.
      let (h, _) = get_flag-replicate_bound n i true e in
      count_from-Mem 0 n i (omega arith) (omega arith);
  distinct = count_from-Distinct 0 n;
}
