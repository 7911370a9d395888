-- ===== src/Properties/Service/Ownership.antt =====
-- PropertyService.checkOwnership and Get of backend/internal/services/properties.go.
-- A check that passes changes no table, and its caller is an admin or the creator.
use realstate_allan.Models.{Property, role_super_admin}
use realstate_allan.World.{World, ok, err, internal, forbidden}
use realstate_allan.Properties.Service.{check_ownership, get, is_live_row}
use realstate_allan.Common.{
  ℕ, String, str_eq, ◌≡◌, arith, true, Option-cases, find, false, ◌⊎◌, some, inl, ◌==◌, inr,
  if◌then◌else◌, ◌+◌,
}

abbrev pub Owns : ℕ → ℕ → String → World → Type 0
Owns id caller role w =
    (str_eq role role_super_admin ≡ true)
    ⊎ ((p : Property) × (find (is_live_row id) w.properties ≡ some p)
        × ((p.created_by == caller) ≡ true))

pub check_ownership-ok :
    (id caller : ℕ) (role : String) (w : World) {w' : World}
    → check_ownership id caller role w ≡ (ok tt, w')
    → (w'.properties ≡ w.properties) × (w'.users ≡ w.users) × Owns id caller role w
unfolding check_ownership
check_ownership-ok id caller role w h = elim (Option-cases (find (is_live_row id) w.properties)) [
  | inl e ↦ ground arith
  | inr (p, e) ↦ ground arith
]

-- Whatever the outcome, the check writes nothing.
pub check_ownership_keeps :
    (id caller : ℕ) (role : String) (w : World)
    → (check_ownership id caller role w).1.properties ≡ w.properties
unfolding check_ownership
check_ownership_keeps id caller role w = ground arith

pub get-ok :
    (id : ℕ) (w : World) {p : Property} {w' : World}
    → get id w ≡ (ok p, w')
    → (w'.properties ≡ w.properties) × (find (is_live_row id) w.properties ≡ some p)
unfolding get
get-ok id w h = ground arith

pub get_keeps : (id : ℕ) (w : World) → (get id w).1.properties ≡ w.properties
unfolding get
get_keeps id w = ground arith

pub check_ownership_denied :
    (id caller : ℕ) (role : String) (w : World) {p : Property}
    → str_eq role role_super_admin ≡ false
    → find (is_live_row id) w.properties ≡ some p
    → (p.created_by == caller) ≡ false
    → check_ownership id caller role w ≡ (
      err (if w.oracle.fault w.tick then internal else forbidden),
      record w { tick = w.tick + 1 },
    )
unfolding check_ownership
check_ownership_denied id caller role w r f c = rw r (ground arith)

-- The tick at which a check that passes ends: only a caller who is not SUPER_ADMIN costs a statement.
abbrev pub checked_at : String → World → ℕ
checked_at role w = if str_eq role role_super_admin then w.tick else w.tick + 1

pub check_ownership_tick :
    (id caller : ℕ) (role : String) (w : World) {v : World}
    → check_ownership id caller role w ≡ (ok tt, v)
    → v.oracle.clock v.tick ≡ w.oracle.clock (checked_at role w)
unfolding check_ownership
check_ownership_tick id caller role w h = elim (Option-cases (find (is_live_row id) w.properties)) [
  | inl e ↦ ground arith
  | inr (p, e) ↦ ground arith
]
