-- ===== src/Float/Sql.antt =====
-- The order of PostgreSQL on float64 is total, nan included.
use realstate_allan.Common.{◌≡◌, true, false, arith, refl}
use realstate_allan.Float.{Float64, nan, inf, fin, lt, sql_lt}

pub sql_lt-not : (a b : Float64) → sql_lt a b ≡ true → sql_lt b a ≡ false
unfolding sql_lt lt
sql_lt-not nan b h = absurd (cc)
sql_lt-not (inf s) nan h = refl
sql_lt-not (fin s m) nan h = refl
sql_lt-not (inf s) (inf t) h = ground arith
sql_lt-not (inf s) (fin t n) h = ground arith
sql_lt-not (fin s m) (inf t) h = ground arith
sql_lt-not (fin true m) (fin true n) h = ground arith
sql_lt-not (fin true m) (fin false n) h = ground arith
sql_lt-not (fin false m) (fin true n) h = ground arith
sql_lt-not (fin false m) (fin false n) h = ground arith

-- Where b is not below a and c is not below b, c is not below a.
pub sql_lt_chain : (a b c : Float64) → sql_lt b a ≡ false → sql_lt c b ≡ false → sql_lt c a ≡ false
unfolding sql_lt lt
sql_lt_chain nan nan nan h g = ground arith
sql_lt_chain nan nan (inf true) h g = ground arith
sql_lt_chain nan nan (inf false) h g = ground arith
sql_lt_chain nan nan (fin true k) h g = ground arith
sql_lt_chain nan nan (fin false k) h g = ground arith
sql_lt_chain nan (inf true) nan h g = ground arith
sql_lt_chain nan (inf true) (inf true) h g = ground arith
sql_lt_chain nan (inf true) (inf false) h g = ground arith
sql_lt_chain nan (inf true) (fin true k) h g = ground arith
sql_lt_chain nan (inf true) (fin false k) h g = ground arith
sql_lt_chain nan (inf false) nan h g = ground arith
sql_lt_chain nan (inf false) (inf true) h g = ground arith
sql_lt_chain nan (inf false) (inf false) h g = ground arith
sql_lt_chain nan (inf false) (fin true k) h g = ground arith
sql_lt_chain nan (inf false) (fin false k) h g = ground arith
sql_lt_chain nan (fin true n) nan h g = ground arith
sql_lt_chain nan (fin true n) (inf true) h g = ground arith
sql_lt_chain nan (fin true n) (inf false) h g = ground arith
sql_lt_chain nan (fin true n) (fin true k) h g = ground arith
sql_lt_chain nan (fin true n) (fin false k) h g = ground arith
sql_lt_chain nan (fin false n) nan h g = ground arith
sql_lt_chain nan (fin false n) (inf true) h g = ground arith
sql_lt_chain nan (fin false n) (inf false) h g = ground arith
sql_lt_chain nan (fin false n) (fin true k) h g = ground arith
sql_lt_chain nan (fin false n) (fin false k) h g = ground arith
sql_lt_chain (inf true) nan nan h g = ground arith
sql_lt_chain (inf true) nan (inf true) h g = ground arith
sql_lt_chain (inf true) nan (inf false) h g = ground arith
sql_lt_chain (inf true) nan (fin true k) h g = ground arith
sql_lt_chain (inf true) nan (fin false k) h g = ground arith
sql_lt_chain (inf true) (inf true) nan h g = ground arith
sql_lt_chain (inf true) (inf true) (inf true) h g = ground arith
sql_lt_chain (inf true) (inf true) (inf false) h g = ground arith
sql_lt_chain (inf true) (inf true) (fin true k) h g = ground arith
sql_lt_chain (inf true) (inf true) (fin false k) h g = ground arith
sql_lt_chain (inf true) (inf false) nan h g = ground arith
sql_lt_chain (inf true) (inf false) (inf true) h g = ground arith
sql_lt_chain (inf true) (inf false) (inf false) h g = ground arith
sql_lt_chain (inf true) (inf false) (fin true k) h g = ground arith
sql_lt_chain (inf true) (inf false) (fin false k) h g = ground arith
sql_lt_chain (inf true) (fin true n) nan h g = ground arith
sql_lt_chain (inf true) (fin true n) (inf true) h g = ground arith
sql_lt_chain (inf true) (fin true n) (inf false) h g = ground arith
sql_lt_chain (inf true) (fin true n) (fin true k) h g = ground arith
sql_lt_chain (inf true) (fin true n) (fin false k) h g = ground arith
sql_lt_chain (inf true) (fin false n) nan h g = ground arith
sql_lt_chain (inf true) (fin false n) (inf true) h g = ground arith
sql_lt_chain (inf true) (fin false n) (inf false) h g = ground arith
sql_lt_chain (inf true) (fin false n) (fin true k) h g = ground arith
sql_lt_chain (inf true) (fin false n) (fin false k) h g = ground arith
sql_lt_chain (inf false) nan nan h g = ground arith
sql_lt_chain (inf false) nan (inf true) h g = ground arith
sql_lt_chain (inf false) nan (inf false) h g = ground arith
sql_lt_chain (inf false) nan (fin true k) h g = ground arith
sql_lt_chain (inf false) nan (fin false k) h g = ground arith
sql_lt_chain (inf false) (inf true) nan h g = ground arith
sql_lt_chain (inf false) (inf true) (inf true) h g = ground arith
sql_lt_chain (inf false) (inf true) (inf false) h g = ground arith
sql_lt_chain (inf false) (inf true) (fin true k) h g = ground arith
sql_lt_chain (inf false) (inf true) (fin false k) h g = ground arith
sql_lt_chain (inf false) (inf false) nan h g = ground arith
sql_lt_chain (inf false) (inf false) (inf true) h g = ground arith
sql_lt_chain (inf false) (inf false) (inf false) h g = ground arith
sql_lt_chain (inf false) (inf false) (fin true k) h g = ground arith
sql_lt_chain (inf false) (inf false) (fin false k) h g = ground arith
sql_lt_chain (inf false) (fin true n) nan h g = ground arith
sql_lt_chain (inf false) (fin true n) (inf true) h g = ground arith
sql_lt_chain (inf false) (fin true n) (inf false) h g = ground arith
sql_lt_chain (inf false) (fin true n) (fin true k) h g = ground arith
sql_lt_chain (inf false) (fin true n) (fin false k) h g = ground arith
sql_lt_chain (inf false) (fin false n) nan h g = ground arith
sql_lt_chain (inf false) (fin false n) (inf true) h g = ground arith
sql_lt_chain (inf false) (fin false n) (inf false) h g = ground arith
sql_lt_chain (inf false) (fin false n) (fin true k) h g = ground arith
sql_lt_chain (inf false) (fin false n) (fin false k) h g = ground arith
sql_lt_chain (fin true m) nan nan h g = ground arith
sql_lt_chain (fin true m) nan (inf true) h g = ground arith
sql_lt_chain (fin true m) nan (inf false) h g = ground arith
sql_lt_chain (fin true m) nan (fin true k) h g = ground arith
sql_lt_chain (fin true m) nan (fin false k) h g = ground arith
sql_lt_chain (fin true m) (inf true) nan h g = ground arith
sql_lt_chain (fin true m) (inf true) (inf true) h g = ground arith
sql_lt_chain (fin true m) (inf true) (inf false) h g = ground arith
sql_lt_chain (fin true m) (inf true) (fin true k) h g = ground arith
sql_lt_chain (fin true m) (inf true) (fin false k) h g = ground arith
sql_lt_chain (fin true m) (inf false) nan h g = ground arith
sql_lt_chain (fin true m) (inf false) (inf true) h g = ground arith
sql_lt_chain (fin true m) (inf false) (inf false) h g = ground arith
sql_lt_chain (fin true m) (inf false) (fin true k) h g = ground arith
sql_lt_chain (fin true m) (inf false) (fin false k) h g = ground arith
sql_lt_chain (fin true m) (fin true n) nan h g = ground arith
sql_lt_chain (fin true m) (fin true n) (inf true) h g = ground arith
sql_lt_chain (fin true m) (fin true n) (inf false) h g = ground arith
sql_lt_chain (fin true m) (fin true n) (fin true k) h g = ground arith
sql_lt_chain (fin true m) (fin true n) (fin false k) h g = ground arith
sql_lt_chain (fin true m) (fin false n) nan h g = ground arith
sql_lt_chain (fin true m) (fin false n) (inf true) h g = ground arith
sql_lt_chain (fin true m) (fin false n) (inf false) h g = ground arith
sql_lt_chain (fin true m) (fin false n) (fin true k) h g = ground arith
sql_lt_chain (fin true m) (fin false n) (fin false k) h g = ground arith
sql_lt_chain (fin false m) nan nan h g = ground arith
sql_lt_chain (fin false m) nan (inf true) h g = ground arith
sql_lt_chain (fin false m) nan (inf false) h g = ground arith
sql_lt_chain (fin false m) nan (fin true k) h g = ground arith
sql_lt_chain (fin false m) nan (fin false k) h g = ground arith
sql_lt_chain (fin false m) (inf true) nan h g = ground arith
sql_lt_chain (fin false m) (inf true) (inf true) h g = ground arith
sql_lt_chain (fin false m) (inf true) (inf false) h g = ground arith
sql_lt_chain (fin false m) (inf true) (fin true k) h g = ground arith
sql_lt_chain (fin false m) (inf true) (fin false k) h g = ground arith
sql_lt_chain (fin false m) (inf false) nan h g = ground arith
sql_lt_chain (fin false m) (inf false) (inf true) h g = ground arith
sql_lt_chain (fin false m) (inf false) (inf false) h g = ground arith
sql_lt_chain (fin false m) (inf false) (fin true k) h g = ground arith
sql_lt_chain (fin false m) (inf false) (fin false k) h g = ground arith
sql_lt_chain (fin false m) (fin true n) nan h g = ground arith
sql_lt_chain (fin false m) (fin true n) (inf true) h g = ground arith
sql_lt_chain (fin false m) (fin true n) (inf false) h g = ground arith
sql_lt_chain (fin false m) (fin true n) (fin true k) h g = ground arith
sql_lt_chain (fin false m) (fin true n) (fin false k) h g = ground arith
sql_lt_chain (fin false m) (fin false n) nan h g = ground arith
sql_lt_chain (fin false m) (fin false n) (inf true) h g = ground arith
sql_lt_chain (fin false m) (fin false n) (inf false) h g = ground arith
sql_lt_chain (fin false m) (fin false n) (fin true k) h g = ground arith
sql_lt_chain (fin false m) (fin false n) (fin false k) h g = ground arith
