-- ===== src/Properties/Service/Patch.antt =====
-- PropertyService.Patch of backend/internal/services/properties.go.
use realstate_allan.Properties.Service.Update.{id-update_query, clauses-update_query}
use realstate_allan.Properties.Service.Ownership.{
  Owns, get_keeps, check_ownership_keeps, check_ownership-ok, get-ok, check_ownership_denied,
  check_ownership_tick,
}
use realstate_allan.Properties.SetClauses.Denotes.{patched}
use realstate_allan.Properties.ListQuery.{uuid}
use realstate_allan.Properties.Service.Rows.{
  Kept, apply_clauses-Kept, find-update_rows_other, find-update_rows, checked-ok,
}
use realstate_allan.Properties.SetClauses.{PatchPropertyInput, build_set_clauses, apply_clauses}
use realstate_allan.Properties.Select.{arg_at}
use realstate_allan.Models.{Property, role_super_admin}
use realstate_allan.Common.{
  ℕ, ◌≡◌, String, Option, some, str_eq, ◌≢◌, find, and_then, arith, false, and_then-eq-some, ◌==◌,
  Bool-cases, Option-cases, if◌then◌else◌, ◌+◌, inl, true, ap, inr, sym, ◌∙◌, refl, ◌/◌, ◌*◌,
}
use realstate_allan.World.{
  World, Error, ok, err, Result, >>=_keeps, >>=-eq-ok, internal, forbidden, >>=-err,
}
use realstate_allan.Properties.Service.{
  UpdateQuery, exec_update, patch, write_patch, save, is_empty, update_rows, is_row, is_live_row,
  is_arg, update_query, checked, check_ownership, get, micros,
}
use realstate_allan.External.{Postgres}

module _ (pg : Postgres) where
  abbrev set_row : UpdateQuery → World → Property → Option Property
  set_row q w p = and_then (apply_clauses pg q.args q.clauses p) (checked w.users)

  exec_update-ok :
      (q : UpdateQuery) (w : World) {w' : World}
      → exec_update pg q w ≡ (ok tt, w')
      → update_rows (is_arg (arg_at q.args q.id_at)) (set_row q w) w.properties ≡ some w'.properties
  unfolding exec_update
  exec_update-ok q w h = ground arith

  exec_update_keeps :
      (q : UpdateQuery) (w : World) {e : Error}
      → (exec_update pg q w).0 ≡ err e
      → (exec_update pg q w).1.properties ≡ w.properties
  unfolding exec_update
  exec_update_keeps q w h = ground arith

  set_row-Kept :
      (q : UpdateQuery) (w : World) (x : Property) {y : Property}
      → set_row q w x ≡ some y
      → Kept x y
  set_row-Kept q w x h =
      let (r, e, c) = and_then-eq-some (apply_clauses pg q.args q.clauses x) _ h in
      let kept = apply_clauses-Kept pg q.args q.clauses x e in ground arith

  -- The statement changes only the live row that its placeholder names.
  exec_update_others :
      (q : UpdateQuery) (id j : ℕ) (w : World)
      → arg_at q.args q.id_at ≡ some (uuid id)
      → j ≢ id
      → find (is_row j) (exec_update pg q w).1.properties ≡ find (is_row j) w.properties
  exec_update_others q id j w names ne = go (exec_update pg q w) refl
    where
      go :
          (r : Result (Unit {0}) × World)
          → exec_update pg q w ≡ r
          → find (is_row j) r.1.properties ≡ find (is_row j) w.properties
      go (ok _, v) e =
          find-update_rows_other _ _ (is_row j) w.properties (exec_update-ok q w e) λ x y hx sx.
            let k = set_row-Kept q w x sx in
            let live : is_live_row id x ≡ true = rw names at hx in (ground arith, ground arith)
      go (err x, v) e = ap (find (is_row j)) (
          sym (ap (λ (r : Result (Unit {0}) × World). r.1.properties) e)
          ∙ exec_update_keeps q w (ap (λ (r : Result (Unit {0}) × World). r.0) e))

  -- A patch by a caller who is neither SUPER_ADMIN nor the creator of the live listing ends in
  -- `forbidden`, or in `internal` where the lookup failed, and writes nothing.
  pub patch_denied :
      (id caller : ℕ) (role : String) (in' : PatchPropertyInput) (w : World) {p : Property}
      → str_eq role role_super_admin ≡ false
      → find (is_live_row id) w.properties ≡ some p
      → (p.created_by == caller) ≡ false
      → patch pg id caller role in' w ≡ (
        err (if w.oracle.fault w.tick then internal else forbidden),
        record w { tick = w.tick + 1 },
      )
  unfolding patch
  patch_denied id caller role in' w r f c =
      >>=-err (check_ownership id caller role) (λ _. save pg id (build_set_clauses in')) w
        (check_ownership_denied id caller role w r f c)

  write_patch_others :
      (id j : ℕ) (in' : PatchPropertyInput) (w : World)
      → j ≢ id
      → find (is_row j) (write_patch pg id (build_set_clauses in') w).1.properties
        ≡ find (is_row j) w.properties
  unfolding write_patch
  write_patch_others id j in' w ne =
      let t = micros (w.oracle.clock w.tick) in
      exec_update_others (update_query (build_set_clauses in') t id) id j
        (record w { tick = w.tick + 1 }) (id-update_query pg in' t id) ne

  save_others :
      (id j : ℕ) (in' : PatchPropertyInput) (w : World)
      → j ≢ id
      → find (is_row j) (save pg id (build_set_clauses in') w).1.properties
        ≡ find (is_row j) w.properties
  unfolding save
  save_others id j in' w ne = elim (Bool-cases (is_empty (build_set_clauses in').clauses)) [
    | inl e ↦ rw e (ap (find (is_row j)) (get_keeps id w))
    | inr e ↦ rw e (
        >>=_keeps (λ v. find (is_row j) v.properties) (write_patch pg id (build_set_clauses in'))
          (λ _. get id) w (write_patch_others id j in' w ne)
          (λ _ v. ap (find (is_row j)) (get_keeps id v)))
  ]

  -- No patch changes a listing of another id, however it ends.
  pub patch_others :
      (id caller : ℕ) (role : String) (in' : PatchPropertyInput) (j : ℕ) (w : World)
      → j ≢ id
      → find (is_row j) (patch pg id caller role in' w).1.properties ≡ find (is_row j) w.properties
  unfolding patch
  patch_others id caller role in' j w ne =
      >>=_keeps (λ v. find (is_row j) v.properties) (check_ownership id caller role)
        (λ _. save pg id (build_set_clauses in')) w
        (ap (find (is_row j)) (check_ownership_keeps id caller role w))
        (λ _ v. save_others id j in' v ne)

  write_patch-ok :
      (id : ℕ) (in' : PatchPropertyInput) (w : World) {p : Property} {v : World}
      → find (is_live_row id) w.properties ≡ some p
      → write_patch pg id (build_set_clauses in') w ≡ (ok tt, v)
      → (q : Property) × (and_then
            (patched pg in' p)
            (λ r. some (record r { updated_at = micros (w.oracle.clock w.tick) }))
          ≡ some q)
        × (find (is_live_row id) v.properties ≡ some q)
  unfolding write_patch
  write_patch-ok id in' w {p} {v} f h =
      let t = micros (w.oracle.clock w.tick) in
      let q = update_query (build_set_clauses in') t id in
      let u : World = record w { tick = w.tick + 1 } in
      let names = id-update_query pg in' t id in
      let rows = rw names at (exec_update-ok q u {w' = v} h) in
      let (y, sy, fy) =
        find-update_rows (is_live_row id) (set_row q u) w.properties {x = p} f rows
          λ x z hx sz. let k = set_row-Kept q u x sz in rw (k.id, k.deleted_at) hx in
      let (r, e, c) = and_then-eq-some (apply_clauses pg q.args q.clauses p) (checked w.users) sy in
      (y, sym (clauses-update_query pg in' t id p) ∙ (e ∙ checked-ok w.users r c), fy)

  exec_update-found :
      (q : UpdateQuery) (w : World) {v : World}
      → exec_update pg q w ≡ (ok tt, v)
      → (p : Property) × (find (is_arg (arg_at q.args q.id_at)) w.properties ≡ some p)
  unfolding exec_update
  exec_update-found q w h =
      elim (Option-cases (find (is_arg (arg_at q.args q.id_at)) w.properties)) [
        | inl e ↦ ground arith
        | inr found ↦ found
      ]

  write_patch-found :
      (id : ℕ) (in' : PatchPropertyInput) (w : World) {v : World}
      → write_patch pg id (build_set_clauses in') w ≡ (ok tt, v)
      → (p : Property) × (find (is_live_row id) w.properties ≡ some p)
  unfolding write_patch
  write_patch-found id in' w h =
      let t = micros (w.oracle.clock w.tick) in
      let q = update_query (build_set_clauses in') t id in
      rw (id-update_query pg in' t id) at (exec_update-found q (record w { tick = w.tick + 1 }) h)

  -- A patch that gives a field and ends well was made by a SUPER_ADMIN or by the creator of the
  -- live listing. What it returns, and what the table then holds under the id, is that listing
  -- with every field that the input gives written as its column stores it, updated_at the time,
  -- in whole microseconds, that the clock gives after the check of the caller, and no other
  -- column changed.
  pub patch_writes :
      (id caller : ℕ) (role : String) (in' : PatchPropertyInput) (w : World) {q : Property}
      {v : World}
      → is_empty (build_set_clauses in').clauses ≡ false
      → patch pg id caller role in' w ≡ (ok q, v)
      → Owns id caller role w
        × ((p : Property) × (find (is_live_row id) w.properties ≡ some p)
            × (and_then (patched pg in' p) (λ r. some (record r {
              updated_at =
                  w.oracle.clock (if str_eq role role_super_admin then w.tick else w.tick + 1)
                  / 1_000
                  * 1_000;
            }))
                ≡ some q)
            × (find (is_live_row id) v.properties ≡ some q))
  unfolding patch save
  patch_writes id caller role in' w {q} {v} some_field h =
      let b = build_set_clauses in' in
      let (a, w1, e1, s1) = >>=-eq-ok (check_ownership id caller role) (λ _. save pg id b) w h in
      let (c, w2, e2, s2) =
        >>=-eq-ok (write_patch pg id b) (λ _. get id) w1 (rw some_field at s1) in
      let (same, users, owns) = check_ownership-ok id caller role w e1 in
      let (p, f) = write_patch-found id in' w1 e2 in
      let (y, ey, fy) = write_patch-ok id in' w1 f e2 in
      let (kept, read) = get-ok id w2 s2 in
      let at = check_ownership_tick id caller role w e1 in
      (
        owns,
        (
          p,
          rw same at f,
          ap (λ t. and_then (patched pg in' p) (λ r. some (record r { updated_at = micros t })))
                (sym at)
              ∙ (ey ∙ (sym fy ∙ read)),
          ap (find (is_live_row id)) kept ∙ read,
        ),
      )
