-- ===== src/Handlers/Photos/Access.antt =====
-- Who may change the photos of a property: what Presign and Delete of
-- backend/internal/handlers/photos.go check.
use realstate_allan.Properties.Service.{is_live_row}
use realstate_allan.Models.{Property, role_super_admin, PropertyPhoto}
use realstate_allan.Respond.{Handler, Response, answer}
use realstate_allan.World.{World, Result, Error}
use realstate_allan.Handlers.Photos.{ok, for_owner, err}
use realstate_allan.Photos.{is_owner_or_admin}
use realstate_allan.Handlers.{Caller}
use realstate_allan.Common.{
  ℕ, String, str_eq, ◌≡◌, Bool-cases, some, Bool, find, ◌⊎◌, true, inl, ◌==◌, inr, ==_iff,
  Option-cases, false, refl, List, ap, ◌∙◌, subst, sym,
}
use realstate_allan.External.{Postgres}

module _ (pg : Postgres) where
  -- The caller is an administrator, or created the live property.
  abbrev pub MayManage : (property user : ℕ) → String → World → Type 0
  MayManage property user role w =
      (str_eq role role_super_admin ≡ true)
      ⊎ ((p : Property) × (find (is_live_row property) w.properties ≡ some p)
          × (p.created_by ≡ user))

  abbrev pub IsManager : Caller → String → World → Type 0
  IsManager caller param w =
      (user : ℕ) × (property : ℕ) × (pg.parse_uuid caller.user_id ≡ some user)
      × (pg.parse_uuid param ≡ some property)
      × MayManage property user caller.role w

  abbrev Asked : (property user : ℕ) → String → World → Result Bool × World → Type 0
  Asked property user role w (ok true, v) = (v.photos ≡ w.photos) × MayManage property user role w
  Asked property user role w (ok false, v) = v.photos ≡ w.photos
  Asked property user role w (err e, v) = v.photos ≡ w.photos

  owned :
      (property user : ℕ) (role : String) (w v : World) (p : Property)
      → v.photos ≡ w.photos
      → find (is_live_row property) w.properties ≡ some p
      → Asked property user role w (ok (p.created_by == user), v)
  owned property user role w v p same found = elim (Bool-cases (p.created_by == user)) [
    | inl e ↦ rw e (same, inr (p, found, (==_iff p.created_by user).0 e))
    | inr e ↦ rw e same
  ]

  is_owner_or_admin-Asked :
      (property user : ℕ) (role : String) (w : World)
      → Asked property user role w (is_owner_or_admin property user role w)
  unfolding is_owner_or_admin
  is_owner_or_admin-Asked property user role w = elim (Bool-cases (str_eq role role_super_admin)) [
    | inl e ↦ rw e (refl, inl e)
    | inr e ↦ rw e (elim (Bool-cases (w.oracle.fault w.tick)) [
      | inl f ↦ rw f refl
      | inr f ↦ rw f (elim (Option-cases (find (is_live_row property) w.properties)) [
        | inl g ↦ rw g refl
        | inr (p, g) ↦ rw g (owned property user role w _ p refl g)
      ])
    ])
  ]

  -- Nothing changed, or the handler went on for a manager.
  for_owner_lem :
      {A : Type 0} (message : String) (next : Handler A) (property user : ℕ) (role : String)
      (w : World) (r : Result Bool × World)
      → Asked property user role w r
      → ((for_owner message next r).1.photos ≡ w.photos)
        ⊎ (MayManage property user role w
            × (v : World) × (v.photos ≡ w.photos)
            × (for_owner message next r ≡ next v))
  for_owner_lem message next property user role w (ok true, v) (same, may) =
      inr (may, v, same, refl)
  for_owner_lem message next property user role w (ok false, v) same = inl same
  for_owner_lem message next property user role w (err e, v) same = inl same

  -- The photos change only by E, for a manager.
  abbrev pub ChangesBy :
      Caller → String → (ℕ → List PropertyPhoto → Type 0) → World → List PropertyPhoto → Type 0
  ChangesBy caller param E w after =
      (after ≡ w.photos)
      ⊎ ((user : ℕ) × (property : ℕ) × (pg.parse_uuid caller.user_id ≡ some user)
          × (pg.parse_uuid param ≡ some property)
          × MayManage property user caller.role w
          × E property after)

  pub guarded :
      {A : Type 0} (caller : Caller) (param message : String) (E : ℕ → List PropertyPhoto → Type 0)
      (next : Handler A) (property user : ℕ) (w : World)
      → pg.parse_uuid caller.user_id ≡ some user
      → pg.parse_uuid param ≡ some property
      → ((v : World)
          → v.photos ≡ w.photos
          → ((next v).1.photos ≡ w.photos) ⊎ E property (next v).1.photos)
      → ChangesBy caller param E w
          (for_owner message next (is_owner_or_admin property user caller.role w)).1.photos
  guarded {A = A} caller param message E next property user w pu pp effect =
      elim (for_owner_lem message next property user caller.role w _
        (is_owner_or_admin-Asked property user caller.role w)) [
          | inl same ↦ inl same
          | inr (may, v, same, at) ↦ elim (effect v same) [
            | inl keep ↦ inl (ap (λ (q : Response A × World). q.1.photos) at ∙ keep)
            | inr change ↦
                inr
                  (user, property, pu, pp, may, subst (λ q. E property q.1.photos) (sym at) change)
          ]
        ]

  pub respond_world :
      {A B : Type 0} (good : A → Response B) (bad : Error → Response B) (r : Result A × World)
      → (answer good bad r).1 ≡ r.1
  respond_world good bad (ok a, w) = refl
  respond_world good bad (err e, w) = refl
