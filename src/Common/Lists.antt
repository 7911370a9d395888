-- ===== src/Common/Lists.antt =====
-- Lists measured by native numbers, predicates on lists, and the selections that the tables use.
use native.Mathlib.Omega.{arith}
use mathlib.Core.Option.{some-injective}
use mathlib.Core.Path.{subst, refl, ◌≡◌, ap}
use Prim.Native.Nat.{ℕ, zero, suc, ◌≤◌, ◌+◌, ◌-◌}
use mathlib.Core.Bool.{Bool, true, ◌&&◌, false}
use mathlib.Core.List.{List, [], ◌∷◌, ◌++◌, map}
use mathlib.Core.Option.{Option, none, some}
use mathlib.Core.Logic.{inl, inr, ◌⊎◌}
use realstate_allan.Common.Tests.{if◌then◌else◌, Bool-cases}

module _ {ℓ} {A : Type ℓ} where
  abbrev pub length : List A → ℕ
  length [] = 0
  length (x ∷ xs) = suc (length xs)

  abbrev pub get_elem? : List A → ℕ → Option A
  get_elem? [] i = none
  get_elem? (x ∷ xs) zero = some x
  get_elem? (x ∷ xs) (suc i) = get_elem? xs i

  abbrev pub take : ℕ → List A → List A
  take zero xs = []
  take (suc n) [] = []
  take (suc n) (x ∷ xs) = x ∷ take n xs

  abbrev pub drop : ℕ → List A → List A
  drop zero xs = xs
  drop (suc n) [] = []
  drop (suc n) (x ∷ xs) = drop n xs

  abbrev pub all : (A → Bool) → List A → Bool
  all p [] = true
  all p (x ∷ xs) = p x && all p xs

  -- The rows that pass a test, in order.
  abbrev pub select : (A → Bool) → List A → List A
  select p [] = []
  select p (x ∷ xs) = if p x then x ∷ select p xs else select p xs

  -- The first element that passes a test.
  abbrev pub find : (A → Bool) → List A → Option A
  find p [] = none
  find p (x ∷ xs) = if p x then some x else find p xs

  -- Every element that passes a test is replaced.
  abbrev pub update : (A → Bool) → (A → A) → List A → List A
  update p f [] = []
  update p f (x ∷ xs) = (if p x then f x else x) ∷ update p f xs

module _ {ℓ} {A : Type ℓ} where
  pub length-append : (xs ys : List A) → length (xs ++ ys) ≡ length xs + length ys
  length-append [] ys = omega arith
  length-append (x ∷ xs) ys = omega (arith, length-append xs ys)

  pub get_elem?-append_middle :
      (xs : List A) (y : A) (ys : List A) → get_elem? (xs ++ y ∷ ys) (length xs) ≡ some y
  get_elem?-append_middle [] y ys = refl
  get_elem?-append_middle (x ∷ xs) y ys = get_elem?-append_middle xs y ys

  pub all-concat : (p : A → Bool) (xs : List A) (y : A) → all p (xs ++ y ∷ []) ≡ (all p xs && p y)
  all-concat p [] y = ground arith
  all-concat p (x ∷ xs) y = rw (all-concat p xs y) (ground arith)

  pub length-take-le : (n : ℕ) (xs : List A) → length (take n xs) ≤ n
  length-take-le zero xs = omega arith
  length-take-le (suc n) [] = omega arith
  length-take-le (suc n) (x ∷ xs) = omega (arith, length-take-le n xs)

  pub get_elem?-append_right :
      (xs ys : List A) (k : ℕ) → get_elem? (xs ++ ys) (length xs + k) ≡ get_elem? ys k
  get_elem?-append_right [] ys k = ground arith
  get_elem?-append_right (x ∷ xs) ys k = ground (arith, get_elem?-append_right xs ys k)

  pub find-append :
      (p : A → Bool) (xs : List A) (y : A)
      → find p xs ≡ none
      → p y ≡ true
      → find p (xs ++ y ∷ []) ≡ some y
  find-append p [] y h k = rw k
  find-append p (x ∷ xs) y h k = ground (arith, find-append p xs y)

  pub find-holds : (p : A → Bool) (xs : List A) {x : A} → find p xs ≡ some x → p x ≡ true
  find-holds p [] h = absurd (cc)
  find-holds p (y ∷ ys) {x} h = elim (Bool-cases (p y)) [
    | inl e ↦ subst (λ z. p z ≡ true) (some-injective y x (rw e at h)) e
    | inr e ↦ find-holds p ys (rw e at h)
  ]

  pub find-update_found :
      (p : A → Bool) (f : A → A) (xs : List A) {x : A}
      → ((y : A) → p y ≡ true → p (f y) ≡ true)
      → find p xs ≡ some x
      → find p (update p f xs) ≡ some (f x)
  find-update_found p f [] i h = absurd (cc)
  find-update_found p f (y ∷ ys) {x} i h = elim (Bool-cases (p y)) [
    | inl e ↦ rw (e, i y e) (ap (λ z. some (f z)) (some-injective y x (rw e at h)))
    | inr e ↦ rw (e, e) (find-update_found p f ys i (rw e at h))
  ]

  pub find-select-none :
      (p q : A → Bool) (xs : List A) → find p xs ≡ none → find p (select q xs) ≡ none
  find-select-none p q [] h = refl
  find-select-none p q (y ∷ ys) h = ground (arith, find-select-none p q ys)

  -- A replacement that leaves no element with the property.
  pub find-update_removed :
      (p : A → Bool) (f : A → A) (xs : List A)
      → ((x : A) → p x ≡ true → p (f x) ≡ false)
      → find p (update p f xs) ≡ none
  find-update_removed p f [] h = refl
  find-update_removed p f (x ∷ xs) h = ground (arith, h x, find-update_removed p f xs h)

  -- A replacement among elements without the property, before and after.
  pub find-update_other :
      (p hit : A → Bool) (f : A → A) (xs : List A)
      → ((x : A) → hit x ≡ true → (p x ≡ false) × (p (f x) ≡ false))
      → find p (update hit f xs) ≡ find p xs
  find-update_other p hit f [] h = refl
  find-update_other p hit f (x ∷ xs) h = ground (arith, h x, find-update_other p hit f xs h)

  pub take-append-drop : (k : ℕ) (xs : List A) → take k xs ++ drop k xs ≡ xs
  take-append-drop zero xs = refl
  take-append-drop (suc k) [] = refl
  take-append-drop (suc k) (x ∷ xs) = ap (λ ys. x ∷ ys) (take-append-drop k xs)

  pub select-append :
      (p : A → Bool) (xs ys : List A) → select p (xs ++ ys) ≡ select p xs ++ select p ys
  select-append p [] ys = refl
  select-append p (x ∷ xs) ys = elim (Bool-cases (p x)) [
    | inl e ↦ rw e (ap (λ zs. x ∷ zs) (select-append p xs ys))
    | inr e ↦ rw e (select-append p xs ys)
  ]

  pub length-take : (k : ℕ) (xs : List A) → k ≤ length xs → length (take k xs) ≡ k
  length-take zero xs h = refl
  length-take (suc k) [] h = absurd (omega (arith, h))
  length-take (suc k) (x ∷ xs) h = ap suc (length-take k xs (omega (arith, h)))

  pub length-drop : (k : ℕ) (xs : List A) → length (drop k xs) ≡ length xs - k
  length-drop zero xs = omega arith
  length-drop (suc k) [] = omega arith
  length-drop (suc k) (x ∷ xs) = omega (arith, length-drop k xs)

  pub length-update : (p : A → Bool) (f : A → A) (xs : List A) → length (update p f xs) ≡ length xs
  length-update p f [] = refl
  length-update p f (x ∷ xs) = ap suc (length-update p f xs)

  pub length-map {κ} : {B : Type κ} (f : A → B) (xs : List A) → length (map f xs) ≡ length xs
  length-map f [] = refl
  length-map f (x ∷ xs) = ap suc (length-map f xs)

abbrev pub All {ℓ κ} : {A : Type ℓ} → (A → Type κ) → List A → Type κ
All P [] = Unit
All P (x ∷ xs) = P x × All P xs

pub All-map {ℓ κ μ} :
    {A : Type ℓ} {B : Type κ} (P : B → Type μ) (f : A → B) (xs : List A)
    → ((x : A) → P (f x))
    → All P (map f xs)
All-map P f [] h = tt
All-map P f (x ∷ xs) h = (h x, All-map P f xs h)

module _ {ℓ κ} {A : Type ℓ} (P : A → Type κ) where
  pub All-append : (xs ys : List A) → All P xs → All P ys → All P (xs ++ ys)
  All-append [] ys h k = k
  All-append (x ∷ xs) ys (p, h) k = (p, All-append xs ys h k)

  pub All-map_from {μ} :
      {B : Type μ} (Q : B → Type κ) (f : B → A) (xs : List B)
      → ((x : B) → Q x → P (f x))
      → All Q xs
      → All P (map f xs)
  All-map_from Q f [] i h = tt
  All-map_from Q f (x ∷ xs) i (q, h) = (i x q, All-map_from Q f xs i h)

  pub All-weaken : (Q : A → Type κ) (xs : List A) → ((x : A) → Q x → P x) → All Q xs → All P xs
  All-weaken Q [] i h = tt
  All-weaken Q (x ∷ xs) i (q, h) = (i x q, All-weaken Q xs i h)

abbrev pub Any {ℓ} : {A : Type ℓ} → (A → Type 0) → List A → Type 0
Any P [] = ⊥
Any P (x ∷ xs) = P x ⊎ Any P xs

module _ {ℓ} {A : Type ℓ} (P : A → Type 0) where
  pub Any-append_left : (xs ys : List A) → Any P xs → Any P (xs ++ ys)
  Any-append_left [] ys h = absurd h
  Any-append_left (x ∷ xs) ys (inl p) = inl p
  Any-append_left (x ∷ xs) ys (inr h) = inr (Any-append_left xs ys h)

  pub Any-append_right : (xs ys : List A) → Any P ys → Any P (xs ++ ys)
  Any-append_right [] ys h = h
  Any-append_right (x ∷ xs) ys h = inr (Any-append_right xs ys h)

  pub Any-map_from {μ} :
      {B : Type μ} (Q : B → Type 0) (f : B → A) (xs : List B)
      → ((x : B) → Q x → P (f x))
      → Any Q xs
      → Any P (map f xs)
  Any-map_from Q f [] i h = absurd h
  Any-map_from Q f (x ∷ xs) i (inl q) = inl (i x q)
  Any-map_from Q f (x ∷ xs) i (inr h) = inr (Any-map_from Q f xs i h)
