-- ===== src/Auth/Service/Spent.antt =====
-- Refresh tokens that have been used: the row of a hash, once revoked, stays so under every call of
-- backend/internal/services/auth.go.
-- The table's row of a hash is revoked.
use realstate_allan.World.Keeps.{Keeps, >>=-Keeps}
use realstate_allan.World.{World, statement, modify}
use realstate_allan.Auth.Rows.{insert_token, revoke_token, by_hash, revoke, put_tokens}
use realstate_allan.Models.{RefreshToken}
use realstate_allan.Common.{
  String, List, Bool, find, Bool-cases, update, ◌≡◌, is_some, some, ◌||◌, inl, true, ◌++◌, not,
  if◌then◌else◌, ◌∙◌, ◌==◌, inr, refl, arith, [], ◌∷◌,
}

abbrev pub IsSpent : String → List RefreshToken → Type 0
IsSpent h table = (r : RefreshToken) × (find (by_hash h) table ≡ some r) × (r.revoked ≡ true)

abbrev pub Spent : String → World → Type 0
Spent h w = IsSpent h w.refresh_tokens

find-append_some :
    (p : RefreshToken → Bool) (xs ys : List RefreshToken) (r : RefreshToken)
    → find p xs ≡ some r
    → find p (xs ++ ys) ≡ some r
find-append_some p [] ys r h = absurd (cc)
find-append_some p (x ∷ xs) ys r h = ground (arith, find-append_some p xs ys r)

pub insert_token-Spent : (h : String) (row : RefreshToken) → Keeps (Spent h) (insert_token row)
unfolding insert_token
insert_token-Spent h row = record {
  keeps = λ w (r, found, revoked).
      elim (Bool-cases (
        is_some (find (by_hash row.token_hash) w.refresh_tokens)
        || not (is_some (find (λ u. u.id == row.user_id) w.users)))) [
          | inl e ↦ rw e (r, found, revoked)
          | inr e ↦
              rw e (elim (Bool-cases (is_some (find (λ r. r.id == row.id) w.refresh_tokens))) [
                | inl f ↦ rw f (r, found, revoked)
                | inr f ↦
                    rw f
                      (r, find-append_some (by_hash h) w.refresh_tokens (row ∷ []) r found, revoked)
              ])
        ];
}

find-update-revoke :
    (h : String) (hit : RefreshToken → Bool) (xs : List RefreshToken) (r : RefreshToken)
    → find (by_hash h) xs ≡ some r
    → find (by_hash h) (update hit revoke xs) ≡ some (if hit r then revoke r else r)
find-update-revoke h hit [] r e = absurd (cc)
find-update-revoke h hit (x ∷ xs) r e = ground (arith, find-update-revoke h hit xs r)

pub update-IsSpent :
    (h : String) (hit : RefreshToken → Bool) (xs : List RefreshToken)
    → IsSpent h xs
    → IsSpent h (update hit revoke xs)
update-IsSpent h hit xs (r, found, revoked) = elim (Bool-cases (hit r)) [
  | inl e ↦ (revoke r, find-update-revoke h hit xs r found ∙ rw e refl, refl)
  | inr e ↦ (r, find-update-revoke h hit xs r found ∙ rw e refl, revoked)
]

pub revoked_now :
    (h : String) (hit : RefreshToken → Bool) (xs : List RefreshToken) (r : RefreshToken)
    → find (by_hash h) xs ≡ some r
    → hit r ≡ true
    → IsSpent h (update hit revoke xs)
revoked_now h hit xs r found e = (revoke r, find-update-revoke h hit xs r found ∙ rw e refl, refl)

pub revoke_token-Spent :
    (h : String) (hit : RefreshToken → Bool) → Keeps (Spent h) (revoke_token hit)
unfolding revoke_token
revoke_token-Spent h hit =
    >>=-Keeps {m = statement}
      {f = λ _. modify (λ w. put_tokens (update hit revoke w.refresh_tokens) w)}
      (record { keeps = λ w s. s })
      λ _. record { keeps = λ w s. update-IsSpent h hit w.refresh_tokens s }
