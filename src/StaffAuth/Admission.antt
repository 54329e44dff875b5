-- ===== src/StaffAuth/Admission.antt =====
-- The first request with a new token: `requireStaff` of src/lib/staffAuth.ts.
use restaurant_app.Prelude.{ℕ, ◌≡◌, true, List, none, some, arith, find_first}
use restaurant_app.Api.{StaffClaims}
use restaurant_app.StaffAdmin.{StaffUser, staff_is}
use restaurant_app.StaffAuth.{
  AccountState, caches, load_account, cached_or_loaded, account_state, admit, get_staff, has_role,
  require_staff,
}

-- What a token for an account says.
abbrev pub claims_of : StaffUser → StaffClaims
claims_of u = record {
  sub = u.id;
  venue_id = u.venue_id;
  role = u.role;
  name = u.name;
  ver = u.token_version;
}

pub require_staff-claims_of :
    (now : ℕ) (users : List StaffUser) (cache : List AccountState) (u : StaffUser)
    → find_first (caches u.id) cache ≡ none
    → find_first (staff_is u.id) users ≡ some u
    → u.active ≡ true
    → (require_staff u.role now (some (claims_of u)) users cache).1 ≡ some (claims_of u)
unfolding require_staff get_staff account_state cached_or_loaded load_account admit has_role
require_staff-claims_of now users cache u c f a = rw (c, f, a) (ground arith)
