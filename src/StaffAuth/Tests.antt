-- ===== src/StaffAuth/Tests.antt =====
-- A token before and after a reset of its account's password, and the theorem at it.
use restaurant_app.Prelude.{
  ◌≡◌, refl, true, false, List, [], ◌∷◌, none, some, String, find_first, find_many, update_many,
}
use restaurant_app.Api.{admin, desk}
use restaurant_app.Examples.{waiter}
use restaurant_app.StaffAdmin.{
  StaffUser, StaffUpdate, done, apply_update, update_read, update_decide, update_write,
  update_staff,
}
use restaurant_app.StaffAuth.{
  AccountState, state_of, invalidate_staff_cache, load_account, cached_or_loaded, account_state,
  admit, get_staff, has_role, require_staff,
}
use restaurant_app.StaffAuth.Revocation.{require_staff_revoked}

abbrev account : StaffUser
account = record {
  id = 1;
  venue_id = 1;
  email = "ayse@heaven.test";
  name = "Ayşe";
  role = desk;
  password_hash = "$2a$10$old";
  active = true;
  token_version = 0;
}

abbrev reset : StaffUpdate
reset = record {
  name = none;
  role = none;
  active = none;
  password = some "a new one";
  sign_out_everywhere = false;
}

abbrev same : String → String
same s = s

abbrev cached : List AccountState
cached = state_of 900 account ∷ []

abbrev after_reset : List StaffUser
after_reset = apply_update same same reset account ∷ []

signing_in : Unit {0}
unfolding update_staff update_read update_decide update_write invalidate_staff_cache load_account
    cached_or_loaded account_state admit get_staff has_role require_staff find_first find_many
    update_many
signing_in = tt

-- Before the reset, for the admin screen, and after it with the state still cached.
answers :
    ((require_staff desk 1_000 (some waiter) (account ∷ []) []).1 ≡ some waiter)
    × ((require_staff admin 1_000 (some waiter) (account ∷ []) []).1 ≡ none)
    × ((require_staff desk 1_000 (some waiter) after_reset cached).1 ≡ some waiter)
    × ((require_staff desk 31_000 (some waiter) after_reset cached).1 ≡ none)
unfolding signing_in
answers = (refl, refl, refl, refl)

changed : update_staff same same 1 1 2 reset (account ∷ []) ≡ (after_reset, done)
unfolding signing_in
changed = refl

require_staff_revoked_example :
    (require_staff desk 1_000 (some waiter) after_reset (invalidate_staff_cache 1 cached)).1 ≡ none
require_staff_revoked_example =
    require_staff_revoked same same 1 1 2 reset (account ∷ []) after_reset account desk 1_000 waiter
      cached changed refl (unfold find_first in refl) refl refl
