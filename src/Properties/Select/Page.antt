-- ===== src/Properties/Select/Page.antt =====
-- The two queries of PropertyService.List in backend/internal/services/properties.go, executed.
use realstate_allan.Properties.Select.Denotes.{where_clause, where_clause-Denotes}
use realstate_allan.Common.Int.{to_nat, ℤ, ltb_ℤ, pos}
use realstate_allan.Models.{Property}
use realstate_allan.Properties.Select.{
  run_list_query, arg_at, run_count_query, rows, is_live, matches, newest_first, count_arg,
}
use realstate_allan.Properties.ListQuery.{ListFilter, build_list_query, Arg, build_count_query, int}
use realstate_allan.External.{Postgres}
use realstate_allan.Common.{
  Bool, List, ◌≡◌, select, some, ◌∷◌, take, ◌&&◌, drop, ◌++◌, ap, get_elem?-append_right, length,
  [], ◌-◌, refl, ◌+◌, arith, append-nil, ap₂, ◌∙◌, IsSortOf, sort_by-IsSortOf, if◌then◌else◌, ◌≤◌,
  ltb, and_then, ◌||◌, none, Bool-cases, inl, inr,
}

pub select-ext {ℓ} :
    {A : Type ℓ} (p q : A → Bool) (xs : List A) → ((x : A) → p x ≡ q x) → select p xs ≡ select q xs
select-ext p q [] h = refl
select-ext p q (x ∷ xs) h = rw (h x, select-ext p q xs h)

-- The listings of the first list, none before a newer one.
abbrev pub IsNewestFirst : List Property → List Property → Type 0
IsNewestFirst = IsSortOf λ p q. q.created_at ≤ p.created_at

pub newest_first-IsNewestFirst : (ps : List Property) → IsNewestFirst ps (newest_first ps)
unfolding newest_first
newest_first-IsNewestFirst =
    sort_by-IsSortOf (λ p q. ltb p.created_at q.created_at) (λ p q. q.created_at ≤ p.created_at)
      (λ p q h. ground arith) (λ p q h. ground arith) (λ p q r h k. omega (arith, h, k))

module _ (pg : Postgres) where
  -- The listings that a filter selects: not deleted, and all that the filter asks for.
  abbrev pub selected : ListFilter → List Property → List Property
  selected f = select λ p. is_live p && matches pg f p

  rows-where_clause :
      (f : ListFilter) (ext : List Arg) (table : List Property)
      → rows pg ((where_clause pg f).args ++ ext) (where_clause pg f).conds table ≡ selected f table
  rows-where_clause f ext table =
      select-ext _ _ table λ p. ap (λ b. is_live p && b) ((where_clause-Denotes pg f).means ext p)

  limit_arg :
      (f : ListFilter)
      → let q = build_list_query f in
        (arg_at q.args q.limit ≡ some (int f.limit))
        × (arg_at q.args q.offset ≡ some (int f.offset))
  unfolding build_list_query
  limit_arg f =
      let b = where_clause pg f in
      let d = (where_clause-Denotes pg f).counted in
      let at = get_elem?-append_right b.args (int f.limit ∷ int f.offset ∷ []) in
      let e0 : b.n - 1 ≡ length b.args + 0 = omega arith in
      let e1 : b.n + 1 - 1 ≡ length b.args + 1 = omega arith in (rw (e0, at 0), rw (e1, at 1))

  counted_page :
      (limit offset : ℤ) (ps : List Property)
      → and_then
          (count_arg (some (int limit)))
          (λ n. and_then (count_arg (some (int offset))) λ m. some (take n (drop m ps)))
        ≡ (if ltb_ℤ limit (pos 0) || ltb_ℤ offset (pos 0)
            then none
            else some (take (to_nat limit) (drop (to_nat offset) ps)))
  counted_page limit offset ps = elim (Bool-cases (ltb_ℤ limit (pos 0))) [
    | inl e ↦ rw e refl
    | inr e ↦ elim (Bool-cases (ltb_ℤ offset (pos 0))) [
      | inl f ↦ rw (e, f) refl
      | inr f ↦ rw (e, f) refl
    ]
  ]

  -- Executed, the list query is refused where its limit or its offset is below 0, and else
  -- gives the page that starts at the offset of the listings that are not deleted and meet
  -- every filter set, sorted so that none comes before a newer one; the count query gives the
  -- number of all such listings.
  pub list_queries :
      (f : ListFilter) (table : List Property)
      → ((ordered : List Property) × IsNewestFirst (selected f table) ordered
          × (run_list_query pg (build_list_query f) table ≡ (
              if ltb_ℤ f.limit (pos 0) || ltb_ℤ f.offset (pos 0)
              then none
              else some (take (to_nat f.limit) (drop (to_nat f.offset) ordered)))))
        × (run_count_query pg (build_count_query f) table ≡ length (selected f table))
  unfolding run_list_query run_count_query build_list_query build_count_query
  list_queries f table =
      let none_more = append-nil (where_clause pg f).args in
      let ordered = newest_first (selected f table) in
      (
        (
          ordered,
          newest_first-IsNewestFirst (selected f table),
          ap₂
                (λ n m. and_then (count_arg n) (λ n. and_then (count_arg m) λ m. some (
                  take n (
                    drop m (
                      newest_first
                        (rows pg (build_list_query f).args (build_list_query f).conds table))))))
                (limit_arg f).0 (limit_arg f).1
              ∙ counted_page f.limit f.offset (
                  newest_first (rows pg (build_list_query f).args (build_list_query f).conds table))
              ∙ ap
                  (λ rs.
                    if ltb_ℤ f.limit (pos 0) || ltb_ℤ f.offset (pos 0)
                    then none
                    else some (take (to_nat f.limit) (drop (to_nat f.offset) (newest_first rs))))
                  (rows-where_clause f _ table),
        ),
        rw none_more at (ap length (rows-where_clause f [] table)),
      )
