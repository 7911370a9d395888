-- ===== src/Properties/SetClauses/Denotes.antt =====
-- The assignments that buildSetClauses of backend/internal/services/properties.go writes, with
-- their numbered placeholders, set exactly the fields that the input gives.
use realstate_allan.Properties.Select.Denotes.{arg_at-append}
use realstate_allan.Properties.ListQuery.{Arg}
use realstate_allan.Properties.SetClauses.{
  PatchPropertyInput, SetBuilder, apply_clauses, set_to, set_broker, apply_clause, Column,
  SetClause, store, assign, build_set_clauses, set_null, no_clauses,
}
use realstate_allan.Models.{Property}
use realstate_allan.External.{Postgres}
use realstate_allan.Common.{
  Option, String, some, ◌≡◌, List, and_then, length, ◌+◌, str_eq, ◌++◌, arith, inl, ◌∷◌,
  length-append, inr, [], Option-cases, append_assoc, ◌∙◌, ap₂, if◌then◌else◌, fun_ext, none, Bool,
  ap, refl, true, false,
}

module _ {ℓ} {A : Type ℓ} where
  -- A field of the input that is set, stored after what came before.
  abbrev pub then_put :
      Option A → (A → Property → Option Property) → Option Property → Option Property
  then_put none put o = o
  then_put (some a) put o = and_then o (put a)

module _ (pg : Postgres) where
  put_broker : String → Property → Option Property
  put_broker s p =
      if str_eq s ""
      then some (record p { assigned_broker_id = none })
      else and_then (pg.parse_uuid s) λ i. some (record p { assigned_broker_id = some i })

  -- The partial update without a statement: every field that the input gives is written, as its
  -- column stores it, and no other.
  unfoldable pub patched : PatchPropertyInput → Property → Option Property
  unfolding put_broker
  patched in' p = then_put in'.assigned_broker_id put_broker (
      then_put in'.tags (λ ts p. some (record p { tags = ts }))
        (then_put in'.is_direct_owner (λ v p. some (record p { is_direct_owner = v }))
          (then_put in'.description (λ s p. some (record p { description = some s }))
            (then_put in'.location_lng (λ v p. some (record p { location_lng = v }))
              (then_put in'.location_lat (λ v p. some (record p { location_lat = v }))
                (then_put in'.built_up_area
                  (λ v p.
                    and_then (pg.area_column v) λ w. some (record p { built_up_area = some w }))
                  (then_put in'.plot_area
                    (λ v p. and_then (pg.area_column v) λ w. some (record p { plot_area = some w }))
                    (then_put in'.price
                      (λ v p. and_then (pg.price_column v) λ w. some (record p { price = w }))
                      (then_put in'.owner_contact (λ s p. some (record p { owner_contact = s }))
                        (then_put in'.owner_name (λ s p. some (record p { owner_name = s }))
                          (then_put in'.property_type (λ s p. some (record p { property_type = s }))
                            (then_put in'.listing_category
                              (λ s p. some (record p { listing_category = s })) (some p)))))))))))))

  pub record Denotes (b : SetBuilder) (P : Property → Option Property) : Type 0 where
    pub counted : b.n ≡ length b.args + 1
    pub means : (ext : List Arg) (p : Property) → apply_clauses pg (b.args ++ ext) b.clauses p ≡ P p

  pub apply_clauses-concat :
      (args : List Arg) (cs : List SetClause) (c : SetClause) (p : Property)
      → apply_clauses pg args (cs ++ c ∷ []) p
        ≡ and_then (apply_clauses pg args cs p) (apply_clause pg args c)
  unfolding apply_clauses
  apply_clauses-concat args [] c p = ground arith
  apply_clauses-concat args (d ∷ cs) c p = elim (Option-cases (apply_clause pg args d p)) [
    | inl e ↦ rw e
    | inr (q, e) ↦ rw e (apply_clauses-concat args cs c q)
  ]

  pub set_to-Denotes {ℓ} :
      {A : Type ℓ} (o : Option A) (c : Column) (arg : A → Arg)
      (put : A → Property → Option Property) (b : SetBuilder) (P : Property → Option Property)
      → ((a : A) (p : Property) → store pg c (arg a) p ≡ put a p)
      → Denotes b P
      → Denotes (set_to o c arg b) (λ p. then_put o put (P p))
  unfolding set_to apply_clause
  set_to-Denotes none c arg put b P s d = d
  set_to-Denotes (some a) c arg put b P s d = record {
    counted = omega (arith, d.counted, length-append b.args (arg a ∷ []));
    means = λ ext p. rw (append_assoc b.args (arg a ∷ []) ext) (
        apply_clauses-concat (b.args ++ arg a ∷ ext) b.clauses (assign c b.n) p
        ∙ ap₂ and_then (d.means (arg a ∷ ext) p)
            (fun_ext λ q. rw (arg_at-append b.args (arg a) ext b.n d.counted) (s a q)));
  }

  -- Both branches on the broker's text, over the outcome of the test.
  broker_case-Denotes :
      (is_empty : Bool) (s : String) (b : SetBuilder) (P : Property → Option Property)
      → Denotes b P
      → Denotes
          (if is_empty
            then record b { clauses = b.clauses ++ set_null Column.assigned_broker_id ∷ [] }
            else set_to (some s) Column.assigned_broker_id Arg.text b)
          (λ p. and_then (P p) λ q.
            if is_empty
            then some (record q { assigned_broker_id = none })
            else and_then (pg.parse_uuid s) λ i. some (record q { assigned_broker_id = some i }))
  unfolding apply_clause
  broker_case-Denotes true s b P d = record {
    counted = d.counted;
    means = λ ext p.
        apply_clauses-concat (b.args ++ ext) b.clauses (set_null Column.assigned_broker_id) p
        ∙ ap
            (λ (o : Option Property).
              and_then o (λ q. some (record q { assigned_broker_id = none })))
            (d.means ext p);
  }
  broker_case-Denotes false s b P d =
      set_to-Denotes (some s) Column.assigned_broker_id Arg.text _ b P (λ a p. refl) d

  set_broker-Denotes :
      (o : Option String) (b : SetBuilder) (P : Property → Option Property)
      → Denotes b P
      → Denotes (set_broker o b) (λ p. then_put o put_broker (P p))
  unfolding set_broker put_broker set_to
  set_broker-Denotes none b P d = d
  set_broker-Denotes (some s) b P d = broker_case-Denotes (str_eq s "") s b P d

  pub build_set_clauses-Denotes :
      (in' : PatchPropertyInput) → Denotes (build_set_clauses in') (patched in')
  unfolding build_set_clauses patched store apply_clauses
  build_set_clauses-Denotes in' =
      let d0 : Denotes no_clauses some = record { counted = omega arith; means = λ ext p. refl } in
      let d1 =
        set_to-Denotes in'.listing_category Column.listing_category Arg.text _ no_clauses some
          (λ a p. refl) d0 in
      let d2 =
        set_to-Denotes in'.property_type Column.property_type Arg.text _ _ _ (λ a p. refl) d1 in
      let d3 = set_to-Denotes in'.owner_name Column.owner_name Arg.text _ _ _ (λ a p. refl) d2 in
      let d4 =
        set_to-Denotes in'.owner_contact Column.owner_contact Arg.text _ _ _ (λ a p. refl) d3 in
      let d5 = set_to-Denotes in'.price Column.price Arg.float _ _ _ (λ a p. refl) d4 in
      let d6 = set_to-Denotes in'.plot_area Column.plot_area Arg.float _ _ _ (λ a p. refl) d5 in
      let d7 =
        set_to-Denotes in'.built_up_area Column.built_up_area Arg.float _ _ _ (λ a p. refl) d6 in
      let d8 =
        set_to-Denotes in'.location_lat Column.location_lat Arg.float _ _ _ (λ a p. refl) d7 in
      let d9 =
        set_to-Denotes in'.location_lng Column.location_lng Arg.float _ _ _ (λ a p. refl) d8 in
      let d10 = set_to-Denotes in'.description Column.description Arg.text _ _ _ (λ a p. refl) d9 in
      let d11 =
        set_to-Denotes in'.is_direct_owner Column.is_direct_owner Arg.bool _ _ _ (λ a p. refl)
          d10 in
      let d12 = set_to-Denotes in'.tags Column.tags Arg.tags _ _ _ (λ a p. refl) d11 in
      set_broker-Denotes in'.assigned_broker_id _ _ d12
