-- ===== src/Middleware/Window.antt =====
-- The sliding window of backend/internal/middleware/ratelimit.go against a log of the requests.
use realstate_allan.Float.Order.{le-of_nat_trans, of_nat-le}
use realstate_allan.Auth.Tokens.{second}
use realstate_allan.World.{World}
use realstate_allan.Float.{Float64, of_nat, le}
use realstate_allan.Middleware.RateLimit.{zremrangebyscore, zadd, SortedSet, hits_of, counted}
use realstate_allan.Common.{
  ℕ, Text, List, Bool, select, ◌≤◌, All, map, leb, not, Option, ◌<◌, ◌+◌, ◌≡◌, ◌++◌, ◌&&◌, ◌^◌, ◌∷◌,
  find, text_eq, true, Bool-cases, [], ◌==◌, ◌-◌, and-true, ap₂, inl, none, ap, refl, le_leb, inr,
  differs, arith, leb→le, ◌⊎◌, select-append, some, ◌∙◌, if◌then◌else◌, sym,
}

abbrev pub scored : ℕ → Float64 × ℕ
scored t = (of_nat t, t)

-- At time t, a request at x lies outside the window: as float64, x is at most `t - window`.
abbrev pub past : (window t x : ℕ) → Bool
past window t x = leb window t && le (of_nat x) (of_nat (t - window))

abbrev pub recent : (window t : ℕ) → List ℕ → List ℕ
recent window t = select λ x. not (past window t x)

abbrev pub entry : Text → World → Option (Text × SortedSet × ℕ)
entry key w = find (λ e. text_eq e.0 key) w.hits

past_later :
    (window s t x : ℕ) → s ≤ t → t < 2 ^ 64 → past window s x ≡ true → past window t x ≡ true
past_later window s t x h top p =
    let (a, b) = and-true p in
    let later : le (of_nat x) (of_nat (t - window)) ≡ true =
      le-of_nat_trans x (s - window) (t - window) b (omega (arith, h)) (omega (arith, top)) in
    ap₂ (λ p q. p && q) (le_leb window t (omega (arith, h, leb→le window s a))) later

past_expired :
    (window s t x : ℕ) → x ≤ s → s + (window + second) ≤ t → t < 2 ^ 64 → past window t x ≡ true
past_expired window s t x h e top =
    ap₂ (λ p q. p && q) (le_leb window t (omega (arith, e)))
      (of_nat-le x (t - window) (omega (arith, h, e)) (omega (arith, top)))

recent-recent :
    (window s t : ℕ) (log : List ℕ)
    → s ≤ t
    → t < 2 ^ 64
    → recent window t (recent window s log) ≡ recent window t log
recent-recent window s t [] h top = refl
recent-recent window s t (x ∷ log) h top = elim (Bool-cases (past window s x)) [
  | inl e ↦
      let f : past window t x ≡ true = past_later window s t x h top e in
      rw (e, f) (recent-recent window s t log h top)
  | inr e ↦ elim (Bool-cases (past window t x)) [
    | inl f ↦ rw (e, f) (recent-recent window s t log h top)
    | inr f ↦ rw (e, f) (ap (λ l. x ∷ l) (recent-recent window s t log h top))
  ]
]

recent_expired :
    (window s t : ℕ) (log : List ℕ)
    → All (λ x. x ≤ s) log
    → s + (window + second) ≤ t
    → t < 2 ^ 64
    → recent window t log ≡ []
recent_expired window s t [] h e top = refl
recent_expired window s t (x ∷ log) (a, h) e top =
    let f : past window t x ≡ true = past_expired window s t x a e top in
    rw f (recent_expired window s t log h e top)

zrem-scored :
    (window t : ℕ) (log : List ℕ)
    → zremrangebyscore window t (map scored log) ≡ map scored (recent window t log)
unfolding zremrangebyscore
zrem-scored window t [] = refl
zrem-scored window t (x ∷ log) = elim (Bool-cases (past window t x)) [
  | inl e ↦ rw e (zrem-scored window t log)
  | inr e ↦ rw e (ap (λ l. scored x ∷ l) (zrem-scored window t log))
]

not_member :
    (t : ℕ) (log : List ℕ)
    → All (λ x. x < t) log
    → find (λ (h : Float64 × ℕ). h.1 == t) (map scored log) ≡ none
not_member t [] h = refl
not_member t (x ∷ log) (a, h) = rw (differs x t a) (not_member t log h)

map-concat : (log : List ℕ) (t : ℕ) → map scored log ++ scored t ∷ [] ≡ map scored (log ++ t ∷ [])
map-concat [] t = refl
map-concat (x ∷ log) t = ap (λ l. scored x ∷ l) (map-concat log t)

zadd-scored :
    (t : ℕ) (log : List ℕ)
    → All (λ x. x < t) log
    → zadd t (map scored log) ≡ map scored (log ++ t ∷ [])
unfolding zadd
zadd-scored t log h = rw (not_member t log h) (map-concat log t)

All-select :
    (window s t : ℕ) (log : List ℕ) → All (λ x. x < t) log → All (λ x. x < t) (recent window s log)
All-select window s t [] h = tt
All-select window s t (x ∷ log) (a, h) = elim (Bool-cases (past window s x)) [
  | inl e ↦ rw e (All-select window s t log h)
  | inr e ↦ rw e (a, All-select window s t log h)
]

-- What the sorted set holds, by the log of the requests of a key and the time s of the last.
abbrev pub Holds : Text → (window t : ℕ) → List ℕ → World → Type 0
Holds key window t log w =
    ((entry key w ≡ none) × (log ≡ []))
    ⊎ ((s : ℕ) × (k : Text) × (entry key w
          ≡ some (k, map scored (recent window s log), s + (window + second)))
        × All (λ x. x ≤ s) log
        × (s ≤ t))

counted_of :
    (key : Text) (window t : ℕ) (w : World) (stored : List ℕ)
    → hits_of key t w ≡ map scored stored
    → All (λ x. x < t) stored
    → counted key window t w ≡ map scored (recent window t (stored ++ t ∷ []))
counted_of key window t w stored e h =
    ap (λ set. zremrangebyscore window t (zadd t set)) e
    ∙ ap (zremrangebyscore window t) (zadd-scored t stored h)
    ∙ zrem-scored window t (stored ++ t ∷ [])

recent-append :
    (window t : ℕ) (a b : List ℕ)
    → recent window t (a ++ b) ≡ recent window t a ++ recent window t b
recent-append window t a b = select-append (λ x. not (past window t x)) a b

abbrev alive : ℕ → Option (Text × SortedSet × ℕ) → SortedSet
alive t found = elim found [ none ↦ [] | some e ↦ if leb e.2 t then [] else e.1 ]

hits_of-alive :
    (key : Text) (t : ℕ) (w : World) (found : Option (Text × SortedSet × ℕ))
    → entry key w ≡ found
    → hits_of key t w ≡ alive t found
unfolding hits_of
hits_of-alive key t w found e = ap (alive t) e

-- The set that has not expired holds, among the requests of the window at t, all of the log.
abbrev Stored : Text → (window t : ℕ) → List ℕ → World → Type 0
Stored key window t log w =
    (stored : List ℕ) × (hits_of key t w ≡ map scored stored)
    × All (λ x. x < t) stored
    × (recent window t stored ≡ recent window t log)

Holds-Stored :
    (key : Text) (window t : ℕ) (log : List ℕ) (w : World)
    → Holds key window t log w
    → All (λ x. x < t) log
    → t < 2 ^ 64
    → Stored key window t log w
Holds-Stored key window t log w (inl (e, f)) h top =
    ([], hits_of-alive key t w none e, tt, ap (recent window t) (sym f))
Holds-Stored key window t log w (inr (s, k, e, a, b)) h top =
    elim (Bool-cases (leb (s + (window + second)) t)) [
      | inl late ↦ (
        [],
        hits_of-alive key t w _ e
            ∙ ap (λ c. if c then [] else map scored (recent window s log)) late,
        tt,
        sym (recent_expired window s t log a (leb→le (s + (window + second)) t late) top),
      )
      | inr soon ↦ (
        recent window s log,
        hits_of-alive key t w _ e
            ∙ ap (λ c. if c then [] else map scored (recent window s log)) soon,
        All-select window s t log h,
        recent-recent window s t log b top,
      )
    ]

pub counted_lem :
    (key : Text) (window t : ℕ) (log : List ℕ) (w : World)
    → Holds key window t log w
    → All (λ x. x < t) log
    → t < 2 ^ 64
    → counted key window t w ≡ map scored (recent window t (log ++ t ∷ []))
counted_lem key window t log w holds h top =
    let (stored, e, below, same) = Holds-Stored key window t log w holds h top in
    counted_of key window t w stored e below
    ∙ ap (map scored) (
        recent-append window t stored (t ∷ [])
        ∙ ap (λ l. l ++ recent window t (t ∷ [])) same
        ∙ sym (recent-append window t log (t ∷ [])))
