-- ===== src/Properties/Service/Scrub.antt =====
-- backend/internal/services/scrubber.go: what a caller who is not SUPER_ADMIN may see.
-- The owner's name and contact are blank.
use realstate_allan.Common.{◌≡◌, String, str_eq, false, refl}
use realstate_allan.Properties.Service.{scrub_for_role}
use realstate_allan.Models.{Property, role_super_admin}

pub record Hides (p : Property) : Type 0 where
  pub name : p.owner_name ≡ ""
  pub contact : p.owner_contact ≡ ""

pub scrub_for_role-Hides :
    (role : String) (p : Property)
    → str_eq role role_super_admin ≡ false
    → Hides (scrub_for_role role p)
unfolding scrub_for_role
scrub_for_role-Hides role p e = rw e (record { name = refl; contact = refl })
