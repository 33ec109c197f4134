-- ===== src/Freelist/Owned.antt =====
-- The items of a freelist of xfreelist.c that are in use.
use auks.Base.{◌≡◌, ◌⊎◌, inl, inr, sym, ap, ◌∙◌, subst, List, [], ◌∷◌, nat_cases, true-false}
use auks.Freelist.{Freelist, Item}
use auks.Freelist.Ownership.{IsTaken, Takes}
use auks.Freelist.Pools.{some_bool}
use auks.Freelist.Release.{Frees}

abbrev pub Among : Item → List Item → Type 0
Among i [] = ⊥
Among i (x ∷ xs) = (i ≡ x) ⊎ Among i xs

abbrev pub AllDistinct : List Item → Type 0
AllDistinct [] = Unit
AllDistinct (x ∷ xs) = (¬ Among x xs) × AllDistinct xs

-- Exactly these items are held, each of them once.
pub record Owns (l : Freelist) (items : List Item) : Type 0 where
  pub distinct : AllDistinct items
  pub taken : (i : Item) → Among i items → IsTaken i.depth i.index l
  pub held : (i : Item) → IsTaken i.depth i.index l → Among i items

item_cases : (i j : Item) → (i ≡ j) ⊎ ((i.depth ≡ j.depth) × (i.index ≡ j.index) → ⊥)
item_cases i j = elim (nat_cases i.depth j.depth) [
  | inr other ↦ inr (λ (a, b). other a)
  | inl a ↦ elim (nat_cases i.index j.index) [
    | inr other ↦ inr (λ (a, b). other b)
    | inl b ↦ inl (λ k. record { depth = a k; index = b k })
  ]
]

pub take-Owns :
    (i : Item) (l new : Freelist) (items : List Item)
    → Takes i.depth i.index l new
    → Owns l items
    → Owns new (i ∷ items)
take-Owns i l new items t o = record {
  distinct = ((λ among. t.was_free (o.taken i among)), o.distinct);
  taken = taken;
  held = held;
}
  where
    taken : (j : Item) → Among j (i ∷ items) → IsTaken j.depth j.index new
    taken j (inl same) = subst (λ x. IsTaken x.depth x.index new) (sym same) t.is_taken
    taken j (inr among) = elim (item_cases j i) [
      | inl same ↦ subst (λ x. IsTaken x.depth x.index new) (sym same) t.is_taken
      | inr other ↦ (t.others j.depth j.index other).0 (o.taken j among)
    ]

    held : (j : Item) → IsTaken j.depth j.index new → Among j (i ∷ items)
    held j h = elim (item_cases j i) [
      | inl same ↦ inl same
      | inr other ↦ inr (o.held j ((t.others j.depth j.index other).1 h))
    ]

pub free-Owns :
    (i : Item) (l new : Freelist) (items : List Item)
    → Frees i.depth i.index l new
    → Owns l (i ∷ items)
    → Owns new items
free-Owns i l new items f o =
    let (fresh, distinct) = o.distinct in
    record { distinct = distinct; taken = taken fresh; held = held }
  where
    taken : (¬ Among i items) → (j : Item) → Among j items → IsTaken j.depth j.index new
    taken fresh j among = elim (item_cases j i) [
      | inl same ↦ absurd (fresh (subst (λ x. Among x items) same among))
      | inr other ↦ (f.others j.depth j.index other).0 (o.taken j (inr among))
    ]

    held : (j : Item) → IsTaken j.depth j.index new → Among j items
    held j h = elim (item_cases j i) [
      | inl same ↦
          let h' = subst (λ x. IsTaken x.depth x.index new) same h in
          absurd (some_bool true-false (sym f.is_free ∙ h'))
      | inr other ↦ elim (o.held j ((f.others j.depth j.index other).1 h)) [
        | inl same ↦ absurd (other (ap (λ x. x.depth) same, ap (λ x. x.index) same))
        | inr among ↦ among
      ]
    ]

-- The same items in another order.
pub data Reorder : List Item → List Item → Type 0 where
  same : {xs : List Item} → Reorder xs xs
  below : {x : Item} {xs ys : List Item} → Reorder xs ys → Reorder (x ∷ xs) (x ∷ ys)
  swap : {x y : Item} {xs : List Item} → Reorder (x ∷ y ∷ xs) (y ∷ x ∷ xs)
  follow : {xs ys zs : List Item} → Reorder xs ys → Reorder ys zs → Reorder xs zs

reorder-Among : {xs ys : List Item} → Reorder xs ys → (i : Item) → Among i xs → Among i ys
reorder-Among same i a = a
reorder-Among (below r) i (inl e) = inl e
reorder-Among (below r) i (inr a) = inr (reorder-Among r i a)
reorder-Among swap i (inl e) = inr (inl e)
reorder-Among swap i (inr (inl e)) = inl e
reorder-Among swap i (inr (inr a)) = inr (inr a)
reorder-Among (follow r s) i a = reorder-Among s i (reorder-Among r i a)

pub Reorder-flip : {xs ys : List Item} → Reorder xs ys → Reorder ys xs
Reorder-flip same = same
Reorder-flip (below r) = below (Reorder-flip r)
Reorder-flip swap = swap
Reorder-flip (follow r s) = follow (Reorder-flip s) (Reorder-flip r)

reorder-AllDistinct : {xs ys : List Item} → Reorder xs ys → AllDistinct xs → AllDistinct ys
reorder-AllDistinct same d = d
reorder-AllDistinct (below r) (fresh, d) =
    ((λ a. fresh (reorder-Among (Reorder-flip r) _ a)), reorder-AllDistinct r d)
reorder-AllDistinct swap (fresh, (fresh', d)) =
    ((λ a. elim a [ inl e ↦ fresh (inl (sym e)) | inr b ↦ fresh' b ]), ((λ a. fresh (inr a)), d))
reorder-AllDistinct (follow r s) d = reorder-AllDistinct s (reorder-AllDistinct r d)

pub reorder-Owns : {xs ys : List Item} (l : Freelist) → Reorder xs ys → Owns l xs → Owns l ys
reorder-Owns l r o = record {
  distinct = reorder-AllDistinct r o.distinct;
  taken = λ i a. o.taken i (reorder-Among (Reorder-flip r) i a);
  held = λ i h. reorder-Among r i (o.held i h);
}
