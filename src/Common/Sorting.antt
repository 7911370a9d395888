-- ===== src/Common/Sorting.antt =====
-- Sorting as ORDER BY does it, for the orders of the tables, and what a sorted list is.
use mathlib.Core.Path.{◌≡◌, refl}
use mathlib.Core.Bool.{Bool, true, false}
use mathlib.Core.List.{List, [], ◌∷◌, Permᴰ, map}
use mathlib.Core.List.Permᴰ
use mathlib.Core.Logic.{inl, inr}
use realstate_allan.Common.Tests.{if◌then◌else◌, Bool-cases}
use realstate_allan.Common.Lists.{All, All-weaken, select}

module _ {A : Type 0} where
  -- `later p q`: p comes after q.
  abbrev pub insert_by : (later : A → A → Bool) → A → List A → List A
  insert_by later p [] = p ∷ []
  insert_by later p (q ∷ qs) = if later p q then q ∷ insert_by later p qs else p ∷ q ∷ qs

  abbrev pub sort_by : (later : A → A → Bool) → List A → List A
  sort_by later [] = []
  sort_by later (p ∷ ps) = insert_by later p (sort_by later ps)

  -- Every element stands in the relation to all that follow it.
  abbrev pub Pairwise : (A → A → Type 0) → List A → Type 0
  Pairwise R [] = Unit
  Pairwise R (x ∷ xs) = All (R x) xs × Pairwise R xs

  -- The same elements, each as often, in the order of a relation.
  pub record IsSortOf (R : A → A → Type 0) (xs ys : List A) : Type 0 where
    pub same : Permᴰ ys xs
    pub ordered : Pairwise R ys

  module _ (later : A → A → Bool) where
    insert_by-Permᴰ : (p : A) (qs : List A) → Permᴰ (insert_by later p qs) (p ∷ qs)
    insert_by-Permᴰ p [] = Permᴰ.refl (p ∷ [])
    insert_by-Permᴰ p (q ∷ qs) = elim (Bool-cases (later p q)) [
      | inl e ↦ rw e (Permᴰ.trans (Permᴰ.cons refl (insert_by-Permᴰ p qs)) (Permᴰ.swap refl refl))
      | inr e ↦ rw e (Permᴰ.refl (p ∷ q ∷ qs))
    ]

    sort_by-Permᴰ : (ps : List A) → Permᴰ (sort_by later ps) ps
    sort_by-Permᴰ [] = Permᴰ.nil
    sort_by-Permᴰ (p ∷ ps) =
        Permᴰ.trans (insert_by-Permᴰ p (sort_by later ps)) (Permᴰ.cons refl (sort_by-Permᴰ ps))

    insert_by-All :
        (P : A → Type 0) (p : A) (qs : List A) → P p → All P qs → All P (insert_by later p qs)
    insert_by-All P p [] a h = (a, tt)
    insert_by-All P p (q ∷ qs) a (b, h) = elim (Bool-cases (later p q)) [
      | inl e ↦ rw e (b, insert_by-All P p qs a h)
      | inr e ↦ rw e (a, (b, h))
    ]

    module _ (R : A → A → Type 0) (after : (p q : A) → later p q ≡ true → R q p)
        (not_after : (p q : A) → later p q ≡ false → R p q)
        (chain : (p q r : A) → R p q → R q r → R p r) where
      insert_by-Pairwise : (p : A) (qs : List A) → Pairwise R qs → Pairwise R (insert_by later p qs)
      insert_by-Pairwise p [] h = (tt, tt)
      insert_by-Pairwise p (q ∷ qs) (a, h) = elim (Bool-cases (later p q)) [
        | inl e ↦ rw e (insert_by-All (R q) p qs (after p q e) a, insert_by-Pairwise p qs h)
        | inr e ↦ rw e (
          (not_after p q e, All-weaken (R p) (R q) qs (λ r k. chain p q r (not_after p q e) k) a),
          (a, h),
        )
      ]

      sort_by-Pairwise : (ps : List A) → Pairwise R (sort_by later ps)
      sort_by-Pairwise [] = tt
      sort_by-Pairwise (p ∷ ps) = insert_by-Pairwise p (sort_by later ps) (sort_by-Pairwise ps)

      pub sort_by-IsSortOf : (ps : List A) → IsSortOf R ps (sort_by later ps)
      sort_by-IsSortOf ps = record { same = sort_by-Permᴰ ps; ordered = sort_by-Pairwise ps }

-- The elements of the first list that have a property, in its order.
pub data Filters {A : Type 0} (P : A → Type 0) : List A → List A → Type 0 where
  none_left : Filters P [] []
  taken : (x : A) (xs ys : List A) → P x → Filters P xs ys → Filters P (x ∷ xs) (x ∷ ys)
  left : (x : A) (xs ys : List A) → (¬ P x) → Filters P xs ys → Filters P (x ∷ xs) ys

pub select-Filters :
    {A : Type 0} (P : A → Type 0) (p : A → Bool)
    → ((x : A) → p x ≡ true → P x)
    → ((x : A) → p x ≡ false → ¬ P x)
    → (xs : List A) → Filters P xs (select p xs)
select-Filters P p hit miss [] = none_left
select-Filters P p hit miss (x ∷ xs) = elim (Bool-cases (p x)) [
  | inl e ↦ rw e (taken x xs (select p xs) (hit x e) (select-Filters P p hit miss xs))
  | inr e ↦ rw e (left x xs (select p xs) (miss x e) (select-Filters P p hit miss xs))
]

-- Two lists of one length, related element by element.
abbrev pub Each : {A B : Type 0} → (A → B → Type 0) → List A → List B → Type 0
Each R [] [] = Unit
Each R [] (y ∷ ys) = ⊥
Each R (x ∷ xs) [] = ⊥
Each R (x ∷ xs) (y ∷ ys) = R x y × Each R xs ys

pub map-Each :
    {A B : Type 0} (R : A → B → Type 0) (f : A → B) (xs : List A)
    → ((x : A) → R x (f x))
    → Each R xs (map f xs)
map-Each R f [] h = tt
map-Each R f (x ∷ xs) h = (h x, map-Each R f xs h)
