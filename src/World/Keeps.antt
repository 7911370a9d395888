-- ===== src/World/Keeps.antt =====
-- Predicates on the world that a call preserves, however it ends.
use realstate_allan.Common.{Option, some, none, ◌≡◌, subst}
use realstate_allan.World.{World, Action, Result, ◌>>=◌, Error, resume, or_fail, ok, err}

pub record Keeps {ℓ} {A : Type 0} (P : World → Type ℓ) (m : Action A) : Type ℓ where
  pub keeps : (w : World) → P w → P (m w).1

resume_keeps_lem {ℓ} :
    {A B : Type 0} (P : World → Type ℓ) (f : A → Action B) (r : Result A × World)
    → ((a : A) → Keeps P (f a))
    → P r.1
    → P (resume f r).1
resume_keeps_lem P f (ok a, w) k h = (k a).keeps w h
resume_keeps_lem P f (err e, w) k h = h

pub >>=-Keeps {ℓ} :
    {A B : Type 0} {P : World → Type ℓ} {m : Action A} {f : A → Action B}
    → Keeps P m
    → ((a : A) → Keeps P (f a))
    → Keeps P (m >>= f)
>>=-Keeps {m = m} k l = record { keeps = λ w h. resume_keeps_lem _ _ (m w) l (k.keeps w h) }

pub or_fail-Keeps {ℓ} :
    {A : Type 0} {P : World → Type ℓ} (o : Option A) (e : Error) → Keeps P (or_fail o e)
or_fail-Keeps none e = record { keeps = λ w h. h }
or_fail-Keeps (some a) e = record { keeps = λ w h. h }

-- The world that a call is known to leave.
pub keeps_on {ℓ} :
    {A : Type 0} {P : World → Type ℓ} {m : Action A}
    → Keeps P m
    → (w : World) {r : Result A} {v : World} → m w ≡ (r, v)
    → P w
    → P v
keeps_on {P = P} k w h p = subst (λ q. P q.1) h (k.keeps w p)

-- A call that turns one predicate into another, however it ends.
pub record Leads {ℓ} {A : Type 0} (P Q : World → Type ℓ) (m : Action A) : Type ℓ where
  pub leads : (w : World) → P w → Q (m w).1

resume_leads_lem {ℓ} :
    {A B : Type 0} (P Q : World → Type ℓ) (f : A → Action B) (r : Result A × World)
    → ((w : World) → P w → Q w)
    → ((a : A) → Leads P Q (f a))
    → P r.1
    → Q (resume f r).1
resume_leads_lem P Q f (ok a, w) i k h = (k a).leads w h
resume_leads_lem P Q f (err e, w) i k h = i w h

-- The change comes after the first step, or in it.
pub >>=-Leads {ℓ} :
    {A B : Type 0} {P Q : World → Type ℓ} {m : Action A} {f : A → Action B}
    → ((w : World) → P w → Q w)
    → Keeps P m
    → ((a : A) → Leads P Q (f a))
    → Leads P Q (m >>= f)
>>=-Leads {m = m} i k l = record { leads = λ w h. resume_leads_lem _ _ _ (m w) i l (k.keeps w h) }

pub >>=-Leads_first {ℓ} :
    {A B : Type 0} {P Q : World → Type ℓ} {m : Action A} {f : A → Action B}
    → Leads P Q m
    → ((a : A) → Keeps Q (f a))
    → Leads P Q (m >>= f)
>>=-Leads_first {m = m} k l = record { leads = λ w h. resume_keeps_lem _ _ (m w) l (k.leads w h) }
