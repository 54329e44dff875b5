-- ===== src/StaffAuth/Revocation.antt =====
-- Tokens end with a change of the account: `updateStaff` (src/lib/staffAdmin.ts), which drops the
-- account's cached state, and `getStaff` (src/lib/staffAuth.ts).
use restaurant_app.Prelude.{
  ℕ, ◌≡◌, ◌≢◌, refl, ap, true, List, [], ◌∷◌, none, some, String, arith, if◌then◌else◌, find_many,
  find_first, update_many,
}
use restaurant_app.Prelude.Rows.{find_first-update_many, find_first_passes}
use restaurant_app.Api.{Role, StaffClaims}
use restaurant_app.StaffAdmin.{
  StaffUser, StaffUpdate, done, staff_is, must_revoke, apply_update, StaffResult, update_read,
  update_write, update_staff,
}
use restaurant_app.StaffAuth.{
  AccountState, caches, invalidate_staff_cache, state_of, load_account, cached_or_loaded,
  account_state, admit, get_staff, has_role, require_staff,
}

not_cached :
    (i : ℕ) (cache : List AccountState)
    → find_first (caches i) (invalidate_staff_cache i cache) ≡ none
unfolding invalidate_staff_cache find_first find_many
not_cached i [] = refl
not_cached i (a ∷ cache) = ground (arith, not_cached i cache)

-- With the cached state dropped, the state is read from the table.
account_state-invalidated :
    (i now : ℕ) (users : List StaffUser) (cache : List AccountState) (u : StaffUser)
    → find_first (staff_is i) users ≡ some u
    → (account_state i now users (invalidate_staff_cache i cache)).1 ≡ some (state_of now u)
unfolding account_state cached_or_loaded load_account
account_state-invalidated i now users cache u f = rw (not_cached i cache, f) refl

require_staff-stale :
    (role : Role) (now : ℕ) (c : StaffClaims) (users : List StaffUser) (cache : List AccountState)
    (a : AccountState)
    → (account_state c.sub now users cache).1 ≡ some a
    → c.ver ≢ a.token_version
    → (require_staff role now (some c) users cache).1 ≡ none
unfolding require_staff get_staff admit has_role
require_staff-stale role now c users cache a f ne = rw f (ground (arith, ne))

update_write-eq-done :
    (trim hash : String → String) (target : ℕ) (i : StaffUpdate) (decided : StaffResult)
    (users users' : List StaffUser)
    → update_write trim hash target i decided users ≡ (users', done)
    → users' ≡ update_many (staff_is target) (apply_update trim hash i) users
unfolding update_write
update_write-eq-done trim hash target i decided users users' e = ground arith

update_staff-eq-done :
    (trim hash : String → String) (venue target actor : ℕ) (i : StaffUpdate)
    (users users' : List StaffUser)
    → update_staff trim hash venue target actor i users ≡ (users', done)
    → users' ≡ update_many (staff_is target) (apply_update trim hash i) users
unfolding update_staff
update_staff-eq-done trim hash venue target actor i users users' e =
    update_write-eq-done trim hash target i (update_read venue target actor i users) users users' e

-- When an account was given a new password or a role, was deactivated, or was signed out
-- everywhere, a token of the version before the change is refused, for every role and at whatever
-- time, if the account is as the change left it and its cached state has been dropped.
pub require_staff_revoked :
    (trim hash : String → String) (venue target actor : ℕ) (i : StaffUpdate)
    (users users' : List StaffUser) (u : StaffUser) (role : Role) (now : ℕ) (c : StaffClaims)
    (cache : List AccountState)
    → update_staff trim hash venue target actor i users ≡ (users', done)
    → must_revoke i ≡ true
    → find_first (staff_is target) users ≡ some u
    → c.sub ≡ target
    → c.ver ≡ u.token_version
    → (require_staff role now (some c) users' (invalidate_staff_cache c.sub cache)).1 ≡ none
require_staff_revoked trim hash venue target actor i users users' u role now c cache e m f sub ver =
    let written = update_staff-eq-done trim hash venue target actor i users users' e in
    let found : find_first (staff_is c.sub) users' ≡ some (apply_update trim hash i u) =
      rw (written, sub, find_first-update_many (staff_is target), f)
        (ap some (hit (find_first_passes (staff_is target) users f))) in
    require_staff-stale role now c users' (invalidate_staff_cache c.sub cache)
      (state_of now (apply_update trim hash i u))
      (account_state-invalidated c.sub now users' cache (apply_update trim hash i u) found)
      (ground (arith, m, ver))
  where
    hit :
        staff_is target u ≡ true
        → (if staff_is target u then apply_update trim hash i u else u) ≡ apply_update trim hash i u
    hit h = rw h
