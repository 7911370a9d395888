-- ===== src/Properties/Service/Delete.antt =====
-- PropertyService.Delete of backend/internal/services/properties.go.
use realstate_allan.Models.{Property}
use realstate_allan.World.{World, Result, err}
use realstate_allan.Properties.Service.{delete, ok, is_live_row}
use realstate_allan.Common.{
  ℕ, List, arith, find, length-update, ◌≢◌, update, none, some, ◌≡◌, length, find-update_removed,
  ◌+◌, if◌then◌else◌, select, Bool-cases, is_some, not, ◌==◌, inl, map, ◌∷◌, inr, Option-cases, [],
  ap, refl,
}

-- A row of the listing, if it was live, with a time of deletion.
abbrev pub with_deletion : ℕ → Property → Property
with_deletion t p = record p { deleted_at = if is_some p.deleted_at then p.deleted_at else some t }

abbrev pub Deletes : ℕ → World → Result (Unit {0}) × World → Type 0
Deletes id w (ok _, w') =
    (find (is_live_row id) w.properties ≢ none)
    × (find (is_live_row id) w'.properties ≡ none)
    × (length w'.properties ≡ length w.properties)
    × (select (λ p. not (p.id == id)) w'.properties ≡ select (λ p. not (p.id == id)) w.properties)
    × (select (λ p. p.id == id) w'.properties
        ≡ map (with_deletion (w.oracle.clock (w.tick + 1))) (select (λ p. p.id == id) w.properties))
Deletes id w (err e, w') = w'.properties ≡ w.properties

delete_frame :
    (id t : ℕ) (table : List Property)
    → select
        (λ p. not (p.id == id))
        (update (is_live_row id) (λ p. record p { deleted_at = some t }) table)
      ≡ select (λ p. not (p.id == id)) table
delete_frame id t [] = refl
delete_frame id t (p ∷ ps) = ground (arith, delete_frame id t ps)

delete_change :
    (id t : ℕ) (table : List Property)
    → select
        (λ p. p.id == id)
        (update (is_live_row id) (λ p. record p { deleted_at = some t }) table)
      ≡ map (with_deletion t) (select (λ p. p.id == id) table)
delete_change id t [] = refl
delete_change id t (p ∷ ps) = elim (Bool-cases (p.id == id)) [
  | inr e ↦ rw (e, e) (delete_change id t ps)
  | inl e ↦ elim (Option-cases p.deleted_at) [
    | inl f ↦
        rw (e, f, e) (ap (λ qs. record p { deleted_at = some t } ∷ qs) (delete_change id t ps))
    | inr (d, f) ↦
        rw (e, f, e) (ap (λ qs. record p { deleted_at = some d } ∷ qs) (delete_change id t ps))
  ]
]

delete_rows :
    (id t : ℕ) (table : List Property)
    → find (is_live_row id) (update (is_live_row id) (λ p. record p { deleted_at = some t }) table)
      ≡ none
delete_rows id t table =
    find-update_removed (is_live_row id) (λ p. record p { deleted_at = some t }) table
      λ p h. ground arith

-- A deletion that ends well found a live listing under the id and leaves none, with as many
-- rows as before: the rows of every other id stay as they are and in their order, and a live
-- row of this id changes only in its time of deletion, which is then the clock's. A deletion
-- that fails changes no listing.
pub delete-Deletes : (id : ℕ) (w : World) → Deletes id w (delete id w)
unfolding delete
delete-Deletes id w =
    let t = w.oracle.clock (w.tick + 1) in
    let frame = delete_frame id t w.properties in
    let change = delete_change id t w.properties in
    let gone = delete_rows id t w.properties in
    let many =
      length-update (is_live_row id) (λ p. record p { deleted_at = some t }) w.properties in
    elim (Bool-cases (w.oracle.fault w.tick)) [
      | inl e ↦ rw (Deletes, e) refl
      | inr e ↦ elim (Option-cases (find (is_live_row id) w.properties)) [
        | inl f ↦ rw (Deletes, e, f) refl
        | inr (p, f) ↦ rw (Deletes, e, f) ((λ h. absurd (cc)), gone, many, frame, change)
      ]
    ]
