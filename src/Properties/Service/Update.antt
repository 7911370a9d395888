-- ===== src/Properties/Service/Update.antt =====
-- The UPDATE statement that PropertyService.Patch of backend/internal/services/properties.go builds.
use realstate_allan.Properties.Select.Denotes.{arg_at-append}
use realstate_allan.Properties.ListQuery.{uuid, time}
use realstate_allan.Properties.Select.{arg_at}
use realstate_allan.Properties.SetClauses.Denotes.{
  Denotes, patched, set_to-Denotes, build_set_clauses-Denotes,
}
use realstate_allan.Models.{Property}
use realstate_allan.Common.{ℕ, ◌++◌, ◌≡◌, and_then, some, ◌∷◌, [], ◌+◌, refl}
use realstate_allan.Properties.Service.{update_query}
use realstate_allan.Properties.SetClauses.{
  set_to, PatchPropertyInput, store, build_set_clauses, apply_clauses, assign, Column,
}
use realstate_allan.External.{Postgres}

module _ (pg : Postgres) where
  with_time :
      (in' : PatchPropertyInput) (t : ℕ)
      → let b = build_set_clauses in' in
        Denotes pg
          (record {
            clauses = b.clauses ++ assign Column.updated_at b.n ∷ [];
            args = b.args ++ time t ∷ [];
            n = b.n + 1;
          })
          (λ p. and_then (patched pg in' p) (λ r. some (record r { updated_at = t })))
  unfolding set_to store
  with_time in' t =
      set_to-Denotes pg (some t) Column.updated_at time (λ v r. some (record r { updated_at = v }))
        (build_set_clauses in') (patched pg in') (λ a r. refl) (build_set_clauses-Denotes pg in')

  pub clauses-update_query :
      (in' : PatchPropertyInput) (t id : ℕ) (p : Property)
      → let q = update_query (build_set_clauses in') t id in
        apply_clauses pg q.args q.clauses p
        ≡ and_then (patched pg in' p) (λ r. some (record r { updated_at = t }))
  unfolding update_query
  clauses-update_query in' t id p = (with_time in' t).means (uuid id ∷ []) p

  pub id-update_query :
      (in' : PatchPropertyInput) (t id : ℕ)
      → let q = update_query (build_set_clauses in') t id in arg_at q.args q.id_at ≡ some (uuid id)
  unfolding update_query
  id-update_query in' t id =
      let b = build_set_clauses in' in
      arg_at-append (b.args ++ time t ∷ []) (uuid id) [] (b.n + 1) (with_time in' t).counted

  -- The arguments that Patch appends land at the placeholders that it writes: the assignments
  -- of the whole statement are the fields that the input gives, as their columns store them,
  -- then updated_at, and the WHERE clause names the id.
  pub update_query_lem :
      (in' : PatchPropertyInput) (t id : ℕ) (p : Property)
      → let q = update_query (build_set_clauses in') t id in
        (apply_clauses pg q.args q.clauses p
          ≡ and_then (patched pg in' p) (λ r. some (record r { updated_at = t })))
        × (arg_at q.args q.id_at ≡ some (uuid id))
  update_query_lem in' t id p = (clauses-update_query in' t id p, id-update_query in' t id)
