-- ===== src/Handlers/Properties/Privacy.antt =====
-- Who sees the owner of a listing: the responses of backend/internal/handlers/properties.go.
-- A response that carries listings carries none with its owner's name or contact.
use realstate_allan.Properties.Service.{ListResult, scrub_for_role, get, list, patch}
use realstate_allan.Handlers.Properties.{
  get_property, get_error, update_error, update_property, list_properties, with_raw, list_filter,
  patch_input,
}
use realstate_allan.World.{Error, Result, World, ok, err, property_not_found}
use realstate_allan.Common.Int.{ℤ}
use realstate_allan.Properties.Service.Scrub.{Hides, scrub_for_role-Hides}
use realstate_allan.Handlers.{Caller, ParseFloat, JsonField}
use realstate_allan.Models.{Property, role_super_admin}
use realstate_allan.External.{Postgres}
use realstate_allan.Common.{
  String, List, str_eq, All, ◌≡◌, false, Option-cases, map, inl, inr, All-map, ℕ, Option, some,
  none,
}
use realstate_allan.Respond.{Response, json, paginated, error, answer}

abbrev pub HidesAll : Response (List Property) → Type 0
HidesAll (json code ps m) = All Hides ps
HidesAll (paginated ps m limit offset total) = All Hides ps
HidesAll (error code c m) = Unit

abbrev pub HidesOwner : Response Property → Type 0
HidesOwner (json code p m) = Hides p
HidesOwner (paginated p m limit offset total) = Hides p
HidesOwner (error code c m) = Unit

module _ (role : String) (other : str_eq role role_super_admin ≡ false) where
  answer-HidesAll :
      (limit offset : ℤ) (r : Result ListResult × World)
      → HidesAll
          (answer
            (λ (result : ListResult).
              paginated
                (map (scrub_for_role role) result.properties)
                "Properties retrieved successfully"
                limit
                offset
                result.total)
            (λ e. error 500 "INTERNAL_ERROR" "failed to list properties")
            r).0
  answer-HidesAll limit offset (ok result, w) =
      All-map Hides (scrub_for_role role) result.properties λ p. scrub_for_role-Hides role p other
  answer-HidesAll limit offset (err e, w) = tt

  answer-HidesOwner :
      (m : String) (bad : Error → Response Property)
      → ((e : Error) → HidesOwner (bad e))
      → (r : Result Property × World)
      → HidesOwner (answer (λ p. json 200 (scrub_for_role role p) m) bad r).0
  answer-HidesOwner m bad h (ok p, w) = scrub_for_role-Hides role p other
  answer-HidesOwner m bad h (err e, w) = h e

module _ (pg : Postgres) (caller : Caller)
    (other : str_eq caller.role role_super_admin ≡ false) where
  get_error-HidesOwner : (e : Error) → HidesOwner (get_error e)
  get_error-HidesOwner property_not_found = tt
  get_error-HidesOwner _ = tt

  update_error-HidesOwner : (e : Error) → HidesOwner (update_error e)
  update_error-HidesOwner property_not_found = tt
  update_error-HidesOwner _ = tt

  get_property-HidesOwner :
      (param : String) (w : World) → HidesOwner (get_property pg caller param w).0
  unfolding get_property
  get_property-HidesOwner param w = elim (Option-cases (pg.parse_uuid param)) [
    | inl e ↦ rw (e, get_property) tt
    | inr (id, e) ↦
        rw (e, get_property)
          (answer-HidesOwner caller.role other _ get_error get_error-HidesOwner (get id w))
  ]

  with_raw-HidesOwner :
      (id user : ℕ) (body : Option (String → Option JsonField)) (w : World)
      → HidesOwner (with_raw pg id user caller.role body w).0
  with_raw-HidesOwner id user none w = tt
  with_raw-HidesOwner id user (some raw) w =
      answer-HidesOwner caller.role other _ update_error update_error-HidesOwner
        (patch pg id user caller.role (patch_input raw) w)

  update_property-HidesOwner :
      (param : String) (body : Option (String → Option JsonField)) (w : World)
      → HidesOwner (update_property pg caller param body w).0
  unfolding update_property
  update_property-HidesOwner param body w = elim (Option-cases (pg.parse_uuid caller.user_id)) [
    | inl e ↦ rw (e, update_property) tt
    | inr (user, e) ↦ elim (Option-cases (pg.parse_uuid param)) [
      | inl k ↦ rw (e, update_property) (rw (k, update_property) tt)
      | inr (id, k) ↦
          rw (e, update_property) (rw (k, update_property) (with_raw-HidesOwner id user body w))
    ]
  ]

  -- No response of List, Get or Update to a caller who is not SUPER_ADMIN carries the name or
  -- the contact of an owner, whatever the request and the state of the database.
  pub responses_hide_owner :
      (parse : ParseFloat) (q : String → String) (param : String)
      (body : Option (String → Option JsonField)) (w : World)
      → HidesAll (list_properties pg parse caller q w).0
        × HidesOwner (get_property pg caller param w).0
        × HidesOwner (update_property pg caller param body w).0
  unfolding list_properties
  responses_hide_owner parse q param body w = (
    answer-HidesAll caller.role other _ _ (list pg (list_filter pg parse q) w),
    get_property-HidesOwner param w,
    update_property-HidesOwner param body w,
  )
