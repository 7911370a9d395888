-- ===== src/Properties/Service/Rows.antt =====
-- The rows after an UPDATE of backend/internal/services/properties.go.
use realstate_allan.Properties.Select.{arg_at}
use realstate_allan.Properties.ListQuery.{Arg}
use realstate_allan.Properties.Service.{update_rows, assign, checked}
use realstate_allan.Properties.SetClauses.{
  store, apply_clause, apply_clauses, Column, SetClause, set_null,
}
use realstate_allan.Common.{
  Bool, ◌≡◌, Option, List, some, find, true, arith, false, ◌∷◌, Option-cases, inl, [], inr,
  if◌then◌else◌, Bool-cases, and_then-eq-some,
}
use realstate_allan.External.{Postgres}
use realstate_allan.Models.{Property, User}

module _ (hit : Property → Bool) (set : Property → Option Property) where
  update_rows-cons :
      (x : Property) (xs : List Property) {ys : List Property}
      → update_rows hit set (x ∷ xs) ≡ some ys
      → (y : Property) × (zs : List Property) × ((if hit x then set x else some x) ≡ some y)
        × (update_rows hit set xs ≡ some zs)
        × (ys ≡ y ∷ zs)
  unfolding update_rows
  update_rows-cons x xs h =
      let (y, ey, rest) = and_then-eq-some (if hit x then set x else some x) _ h in
      let (zs, ez, last) = and_then-eq-some (update_rows hit set xs) _ rest in
      (y, zs, ey, ez, ground arith)

  pub find-update_rows_other :
      (p : Property → Bool) (xs : List Property) {ys : List Property}
      → update_rows hit set xs ≡ some ys
      → ((x y : Property) → hit x ≡ true → set x ≡ some y → (p x ≡ false) × (p y ≡ false))
      → find p ys ≡ find p xs
  unfolding update_rows
  find-update_rows_other p [] h k = ground arith
  find-update_rows_other p (x ∷ xs) h k =
      let (y, zs, ey, ez, e) = update_rows-cons x xs h in
      rw e (ground (arith, k x y, find-update_rows_other p xs ez k))

  pub find-update_rows :
      (xs : List Property) {ys : List Property} {x : Property}
      → find hit xs ≡ some x
      → update_rows hit set xs ≡ some ys
      → ((x y : Property) → hit x ≡ true → set x ≡ some y → hit y ≡ true)
      → (y : Property) × (set x ≡ some y) × (find hit ys ≡ some y)
  unfolding update_rows
  find-update_rows [] f h k = absurd (cc)
  find-update_rows (x ∷ xs) {x = x'} f h k =
      let (y, zs, ey, ez, e) = update_rows-cons x xs h in
      elim (Bool-cases (hit x)) [
        | inl t ↦ (y, ground arith, rw e (ground (arith, k x y)))
        | inr n ↦
            let (z, sz, fz) = find-update_rows xs {x = x'} (ground arith) ez k in
            (z, sz, rw e (ground arith))
      ]

pub checked-ok :
    (users : List User) (r : Property) {y : Property} → checked users r ≡ some y → some r ≡ some y
checked-ok users r h = ground arith

-- The columns that no assignment touches.
pub record Kept (p q : Property) : Type 0 where
  pub id : q.id ≡ p.id
  pub deleted_at : q.deleted_at ≡ p.deleted_at
  pub created_by : q.created_by ≡ p.created_by
  pub created_at : q.created_at ≡ p.created_at

module _ (pg : Postgres) where
  store-Kept :
      (c : Column) (a : Arg) (p : Property) {q : Property} → store pg c a p ≡ some q → Kept p q
  unfolding store
  store-Kept Column.listing_category a p h = ground arith
  store-Kept _ a p h = ground arith

  pub apply_clause-Kept :
      (args : List Arg) (c : SetClause) (p : Property) {q : Property}
      → apply_clause pg args c p ≡ some q
      → Kept p q
  unfolding apply_clause
  apply_clause-Kept args (assign c n) p h = elim (Option-cases (arg_at args n)) [
    | inl e ↦ absurd (cc)
    | inr (a, e) ↦ store-Kept c a p (rw e at h)
  ]
  apply_clause-Kept args (set_null Column.assigned_broker_id) p h = ground arith
  apply_clause-Kept args (set_null _) p h = absurd (cc)

  pub apply_clauses-Kept :
      (args : List Arg) (cs : List SetClause) (p : Property) {q : Property}
      → apply_clauses pg args cs p ≡ some q
      → Kept p q
  unfolding apply_clauses
  apply_clauses-Kept args [] p h = ground arith
  apply_clauses-Kept args (c ∷ cs) p h = elim (Option-cases (apply_clause pg args c p)) [
    | inl e ↦ absurd (cc)
    | inr (r, e) ↦
        let first = apply_clause-Kept args c p e in
        let rest = apply_clauses-Kept args cs r (rw e at h) in ground arith
  ]
