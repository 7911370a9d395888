-- ===== src/Properties/Select/Denotes.antt =====
-- The placeholders of backend/internal/services/properties.go name the arguments that they stand
-- for: the query that buildListQuery writes selects what its filter asks for.
use realstate_allan.Float.{sql_le}
use mathlib.Core.List.{append_assoc}
use mathlib.Core.Path.{ap₂}
use realstate_allan.Common.{
  ℕ, ◌+◌, ◌-◌, ◌≡◌, ◌∙◌, Bool, ◌&&◌, Option, none, some, List, [], ◌∷◌, ◌++◌, arith, length,
  holds_if_set, length-append, get_elem?-append_middle, all-concat, get_elem?-append_right, String,
  true, all, str_eq, refl, ◌||◌,
}
use realstate_allan.Models.{Property}
use realstate_allan.External.{Postgres}
use realstate_allan.Properties.ListQuery.{
  Arg, float, Cond, within, Bounds, Builder, add, add_bounds, non_empty, ListFilter, start,
  broker_eq, category_eq, uuid, text, tags_contain, tags, type_eq, owner_eq, price_ge, bool,
  area_ge, price_le,
}
use realstate_allan.Properties.Select.{
  arg_at, holds, holds_all, matches, contains, at_least, bool_eq, is_id,
}

pub arg_at-append :
    (args : List Arg) (a : Arg) (ext : List Arg) (n : ℕ)
    → n ≡ length args + 1
    → arg_at (args ++ a ∷ ext) n ≡ some a
arg_at-append args a ext n h =
    let e : n - 1 ≡ length args = omega arith in rw e (get_elem?-append_middle args a ext)

abbrev bounds_args : Bounds → List Arg
bounds_args v = float v.lng_sw ∷ float v.lat_sw ∷ float v.lng_ne ∷ float v.lat_ne ∷ []

module _ (pg : Postgres) where
  -- A builder's fragments mean `P`, whatever arguments are still to come.
  pub record Denotes (b : Builder) (P : Property → Bool) : Type 0 where
    pub counted : b.n ≡ length b.args + 1
    pub means : (ext : List Arg) (p : Property) → holds_all pg (b.args ++ ext) b.conds p ≡ P p

  -- A fragment with one placeholder reads `test` of its argument.
  abbrev Reads {ℓ} : {A : Type ℓ} → (ℕ → Cond) → (A → Arg) → (A → Property → Bool) → Type ℓ
  Reads {A} cond arg test =
      (args : List Arg) (n : ℕ) (a : A) (p : Property)
      → arg_at args n ≡ some (arg a)
      → holds pg args (cond n) p ≡ test a p

  add-Denotes {ℓ} :
      {A : Type ℓ} (o : Option A) (cond : ℕ → Cond) (arg : A → Arg) (test : A → Property → Bool)
      (b : Builder) (P : Property → Bool)
      → Reads cond arg test
      → Denotes b P
      → Denotes (add o cond arg b) (λ p. P p && holds_if_set o (λ a. test a p))
  unfolding add
  add-Denotes none cond arg test b P r d = record {
    counted = d.counted;
    means = λ ext p. d.means ext p ∙ ground arith;
  }
  add-Denotes (some a) cond arg test b P r d = record {
    counted = omega (arith, d.counted, length-append b.args (arg a ∷ []));
    means = λ ext p. rw (append_assoc b.args (arg a ∷ []) ext) (
        all-concat (λ c. holds pg (b.args ++ arg a ∷ ext) c p) b.conds (cond b.n)
        ∙ ap₂ ◌&&◌ (d.means (arg a ∷ ext) p)
            (r _ b.n a p (arg_at-append b.args (arg a) ext b.n d.counted)));
  }

  holds_within :
      (v : Bounds) (args : List Arg) (n : ℕ) (ext : List Arg) (p : Property)
      → n ≡ length args + 1
      → holds pg (args ++ (bounds_args v ++ ext)) (within n (n + 1) (n + 2) (n + 3)) p
        ≡ pg.within_envelope v.lng_sw v.lat_sw v.lng_ne v.lat_ne p.location_lng p.location_lat
  unfolding holds
  holds_within v args n ext p h =
      let at = get_elem?-append_right args (bounds_args v ++ ext) in
      let e0 : n - 1 ≡ length args + 0 = omega arith in
      let e1 : n + 1 - 1 ≡ length args + 1 = omega arith in
      let e2 : n + 2 - 1 ≡ length args + 2 = omega arith in
      let e3 : n + 3 - 1 ≡ length args + 3 = omega arith in
      rw (e0, e1, e2, e3, at 0, at 1, at 2, at 3)

  add_bounds-Denotes :
      (o : Option Bounds) (b : Builder) (P : Property → Bool)
      → Denotes b P
      → Denotes (add_bounds o b) (λ p.
        P p
        && holds_if_set o (λ v.
          pg.within_envelope v.lng_sw v.lat_sw v.lng_ne v.lat_ne p.location_lng p.location_lat))
  unfolding add_bounds
  add_bounds-Denotes none b P d = record {
    counted = d.counted;
    means = λ ext p. d.means ext p ∙ ground arith;
  }
  add_bounds-Denotes (some v) b P d = record {
    counted = omega (arith, d.counted, length-append b.args four);
    means = λ ext p. rw (append_assoc b.args four ext) (
        all-concat (λ c. holds pg (b.args ++ (four ++ ext)) c p) b.conds
          (within b.n (b.n + 1) (b.n + 2) (b.n + 3))
        ∙ ap₂ ◌&&◌ (d.means (four ++ ext) p) (holds_within v b.args b.n ext p d.counted));
  }
    where
      four : List Arg
      four = bounds_args v

  non_empty-all :
      (ts : List String) (p : Property)
      → holds_if_set (non_empty ts) (all (contains p.tags)) ≡ all (contains p.tags) ts
  unfolding non_empty
  non_empty-all [] p = refl
  non_empty-all (t ∷ ts) p = refl

  abbrev pub where_clause : ListFilter → Builder
  where_clause f = add f.assigned_broker_id broker_eq uuid (
      add (non_empty f.tags) tags_contain tags (
        add_bounds f.bounds (
          add f.is_direct_owner owner_eq bool (
            add f.min_area area_ge float (
              add f.max_price price_le float (
                add f.min_price price_ge float
                  (add f.property_type type_eq text (add f.category category_eq text start))))))))

  start-Denotes : Denotes start (λ p. true)
  start-Denotes = record { counted = omega arith; means = λ ext p. refl }

  pub where_clause-Denotes : (f : ListFilter) → Denotes (where_clause f) (matches pg f)
  unfolding holds matches
  where_clause-Denotes f =
      let d1 =
        add-Denotes f.category category_eq text (λ s p. str_eq p.listing_category s) start _
          (λ args n a p h. rw h) start-Denotes in
      let d2 =
        add-Denotes f.property_type type_eq text (λ s p. str_eq p.property_type s) _ _
          (λ args n a p h. rw h) d1 in
      let d3 =
        add-Denotes f.min_price price_ge float (λ v p. sql_le v p.price) _ _ (λ args n a p h. rw h)
          d2 in
      let d4 =
        add-Denotes f.max_price price_le float (λ v p. sql_le p.price v) _ _ (λ args n a p h. rw h)
          d3 in
      let d5 =
        add-Denotes f.min_area area_ge float
          (λ v p. at_least p.built_up_area v || at_least p.plot_area v) _ _ (λ args n a p h. rw h)
          d4 in
      let d6 =
        add-Denotes f.is_direct_owner owner_eq bool (λ v p. bool_eq p.is_direct_owner v) _ _
          (λ args n a p h. rw h) d5 in
      let d7 = add_bounds-Denotes f.bounds _ _ d6 in
      let d8 =
        add-Denotes (non_empty f.tags) tags_contain tags (λ v p. all (contains p.tags) v) _ _
          (λ args n a p h. rw h) d7 in
      let d9 =
        add-Denotes f.assigned_broker_id broker_eq uuid (λ v p. is_id p.assigned_broker_id v) _ _
          (λ args n a p h. rw h) d8 in
      record { counted = d9.counted; means = λ ext p. d9.means ext p ∙ rw (non_empty-all f.tags p) }
