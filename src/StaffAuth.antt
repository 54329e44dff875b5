-- ===== src/StaffAuth.antt =====
-- Who a request of the staff comes from: `getStaff`, `requireStaff` and the cache of accounts of
-- src/lib/staffAuth.ts. The claims are those of a token that was verified, none if it was not (Token
-- has the cookie and the token's end); the table of accounts is that of StaffAdmin.
pub mod Revocation
pub mod Admission
pub mod Token
mod Tests
use restaurant_app.Prelude.{
  ℕ, ◌+◌, Bool, true, false, not, ◌&&◌, ◌||◌, List, [], ◌∷◌, Option, none, some, String, ltb, ◌==◌,
  if◌then◌else◌, find_many, find_first,
}
use restaurant_app.Api.{Role, StaffClaims, admin, desk}
use restaurant_app.StaffAdmin.{StaffUser, staff_is, is_admin}

abbrev pub account_cache_ms : ℕ
account_cache_ms = 30_000

pub record AccountState : Type 0 where
  pub staff_id : ℕ
  pub checked_at : ℕ
  pub active : Bool
  pub token_version : ℕ
  pub role : Role
  pub name : String

abbrev pub caches : ℕ → AccountState → Bool
caches i a = a.staff_id == i

pub invalidate_staff_cache : ℕ → List AccountState → List AccountState
invalidate_staff_cache i cache = find_many (λ a. not (caches i a)) cache

abbrev pub state_of : ℕ → StaffUser → AccountState
state_of now u = record {
  staff_id = u.id;
  checked_at = now;
  active = u.active;
  token_version = u.token_version;
  role = u.role;
  name = u.name;
}

-- A new state replaces the one that was kept; the map's order is not read.
load_account :
    ℕ → ℕ → Option StaffUser → List AccountState → List AccountState × Option AccountState
unfolding invalidate_staff_cache
load_account i now none cache = (invalidate_staff_cache i cache, none)
load_account i now (some u) cache =
    (state_of now u ∷ invalidate_staff_cache i cache, some (state_of now u))

cached_or_loaded :
    ℕ
    → ℕ
    → Option AccountState
    → List StaffUser
    → List AccountState
    → List AccountState × Option AccountState
unfolding load_account
cached_or_loaded i now none users cache = load_account i now (find_first (staff_is i) users) cache
cached_or_loaded i now (some a) users cache =
    let loaded = load_account i now (find_first (staff_is i) users) cache in
    if ltb now (a.checked_at + account_cache_ms) then (cache, some a) else loaded

pub account_state :
    ℕ → ℕ → List StaffUser → List AccountState → List AccountState × Option AccountState
unfolding cached_or_loaded
account_state i now users cache = cached_or_loaded i now (find_first (caches i) cache) users cache

-- The account must be active and on the version that the token was cut at.
admit : StaffClaims → Option AccountState → Option StaffClaims
admit c none = none
admit c (some a) =
    if not a.active || not (c.ver == a.token_version)
    then none
    else some (record c { role = a.role; name = a.name; ver = a.token_version })

pub get_staff :
    ℕ
    → Option StaffClaims
    → List StaffUser
    → List AccountState
    → List AccountState × Option StaffClaims
unfolding account_state admit
get_staff now none users cache = (cache, none)
get_staff now (some c) users cache =
    let r = account_state c.sub now users cache in (r.0, admit c r.1)

has_role : Role → Option StaffClaims → Option StaffClaims
has_role role none = none
has_role role (some c) = if is_admin role && not (is_admin c.role) then none else some c

pub require_staff :
    Role
    → ℕ
    → Option StaffClaims
    → List StaffUser
    → List AccountState
    → List AccountState × Option StaffClaims
unfolding has_role get_staff
require_staff role now claims users cache =
    let r = get_staff now claims users cache in (r.0, has_role role r.1)
