-- ===== src/Handlers/Lists.antt =====
-- The read-only endpoints of backend/internal/handlers/users.go with backend/internal/services/users.go,
-- and of backend/internal/handlers/tags.go. A failed scan counts as a failed statement.
use realstate_allan.Handlers.Properties.{text_param, invalid}
use realstate_allan.Properties.Select.{is_live}
use realstate_allan.Respond.{Handler, respond_to, reply, json, error}
use realstate_allan.World.{Action, ◌>>◌, statement, gets}
use realstate_allan.Common.{
  List, Option, String, ◌∷◌, Bool, if◌then◌else◌, ◌&&◌, select, take, trim_space, [], holds_if_set,
  not, str_eq, ◌++◌, map, append,
}
use realstate_allan.Models.{User, Property, PublicUser, to_public}
use realstate_allan.External.{Postgres}

module _ (pg : Postgres) where
  insert_name : User → List User → List User
  insert_name u [] = u ∷ []
  insert_name u (v ∷ vs) =
      if pg.comes_before v.full_name u.full_name then v ∷ insert_name u vs else u ∷ v ∷ vs

  -- ORDER BY full_name
  unfoldable pub by_name : List User → List User
  unfolding insert_name
  by_name [] = []
  by_name (u ∷ us) = insert_name u (by_name us)

  abbrev pub is_listed : Option String → User → Bool
  is_listed role u = u.is_active && holds_if_set role (str_eq u.role)

  unfoldable pub list_users : Option String → Action (List PublicUser)
  list_users role = do
    statement
    gets λ w. map to_public (by_name (select (is_listed role) w.users))

  unfoldable pub list_users_handler : (String → String) → Handler (List PublicUser)
  list_users_handler q =
      respond_to (list_users (text_param (q "role")))
        (λ us. json 200 us "Users retrieved successfully")
        (λ e. error 500 "INTERNAL_ERROR" "failed to list users")

  insert_tag : String → List String → List String
  insert_tag t [] = t ∷ []
  insert_tag t (u ∷ us) = if pg.comes_before u t then u ∷ insert_tag t us else t ∷ u ∷ us

  -- ORDER BY tag
  unfoldable pub sorted_tags : List String → List String
  unfolding insert_tag
  sorted_tags [] = []
  sorted_tags (t ∷ ts) = insert_tag t (sorted_tags ts)

  -- DISTINCT
  unfoldable pub distinct_tags : List String → List String
  distinct_tags [] = []
  distinct_tags (t ∷ ts) = t ∷ select (λ u. not (str_eq u t)) (distinct_tags ts)

  -- unnest(tags) over the live rows
  unfoldable pub live_tags : List Property → List String
  live_tags [] = []
  live_tags (p ∷ ps) = if is_live p then p.tags ++ live_tags ps else live_tags ps

  abbrev pub matching_tags : (pattern : String) → List Property → List String
  matching_tags pattern ps =
      take 10 (sorted_tags (distinct_tags (select (λ t. pg.ilike t pattern) (live_tags ps))))

  unfoldable pub query_tags : (prefix : String) → Action (List String)
  query_tags prefix = do statement; gets λ w. matching_tags (append prefix "%") w.properties

  unfoldable pub autocomplete : (String → String) → Handler (List String)
  autocomplete q =
      let prefix = trim_space (q "q") in
      if str_eq prefix ""
      then reply (invalid "q parameter is required")
      else respond_to (query_tags prefix) (λ tags. json 200 tags "")
          (λ e. error 500 "INTERNAL_ERROR" "failed to query tags")
