-- ===== src/StaffLogin.antt =====
-- New accounts of the staff and their sign-in: `createStaff` of src/lib/staffAdmin.ts, `loginStaff`
-- of src/lib/staffAuth.ts, and the routes src/app/api/admin/staff/route.ts,
-- src/app/api/auth/login/route.ts and src/app/api/auth/password/route.ts. The reply to a
-- sign-in is what its token says of the account; StaffAuth/Token cuts the token. `hash` and `matches` are bcrypt's;
-- `normalize` lowers and trims an email, `trim` trims a text, `valid_email` is the schema's test of
-- an email, and `account_key` hides an email in a counter's key; `change_key` is the key of an
-- account at an address.
pub mod Access
mod Tests
use restaurant_app.Prelude.{
  ℕ, ◌+◌, Bool, true, false, not, ◌&&◌, ◌||◌, List, [], ◌∷◌, ◌++◌, Option, none, some, String, leb,
  ◌==◌, if◌then◌else◌, find_first, any, str_eq,
}
use restaurant_app.Api.{
  Role, StaffClaims, Reply, ok, fail, unauthorized, invalid, rate_limited, invalid_credentials,
  uncaught, email_taken, uncaught, not_found, wrong_password as password_refused,
}
use restaurant_app.Pricing.{text_length}
use restaurant_app.RateLimit.{Window, rate_limit}
use restaurant_app.StaffAdmin.{
  StaffUser, StaffResult, done, wrong_password, staff_is, change_own_password,
}
use restaurant_app.StaffAuth.Admission.{claims_of}

abbrev pub password_min : ℕ
password_min = 8

pub record NewStaff : Type 0 where
  pub email : String
  pub name : String
  pub role : Role
  pub password : String

abbrev pub valid_staff : (String → Bool) → NewStaff → Bool
valid_staff valid_email i =
    valid_email i.email
    && (leb 1 (text_length i.name) && leb (text_length i.name) 80)
    && leb password_min (text_length i.password)

-- `login:ip:` and `pwchange:` keys.
abbrev pub ip_key : String → String
ip_key ip = Prim.Native.String.◌++◌ "login:ip:" (if str_eq ip "" then "unknown" else ip)

abbrev pub ip_limit : ℕ
ip_limit = 10

abbrev pub ip_window_sec : ℕ
ip_window_sec = 600

abbrev pub account_limit : ℕ
account_limit = 5

abbrev pub account_window_sec : ℕ
account_window_sec = 900

abbrev has_email : String → StaffUser → Bool
has_email email u = str_eq u.email email

module _ (normalize trim hash : String → String) where
  abbrev pub new_user : (id venue : ℕ) → NewStaff → StaffUser
  new_user id venue i = record {
    id = id;
    venue_id = venue;
    email = normalize i.email;
    name = trim i.name;
    role = i.role;
    password_hash = hash i.password;
    active = true;
    token_version = 0;
  }

  -- The database refuses an email that some account has, of whatever venue.
  pub create_staff : (id venue : ℕ) → NewStaff → List StaffUser → List StaffUser × Option ℕ
  create_staff id venue i users =
      if any (has_email (normalize i.email)) users
      then (users, none)
      else (users ++ new_user id venue i ∷ [], some id)

  staff_reply : List StaffUser × Option ℕ → List StaffUser × Reply ℕ
  staff_reply (users, none) = (users, fail 409 email_taken)
  staff_reply (users, some id) = (users, ok id)

  pub post_staff :
      (valid_email : String → Bool)
      → Option StaffClaims
      → (id : ℕ) → NewStaff
      → List StaffUser
      → List StaffUser × Reply ℕ
  unfolding create_staff staff_reply
  post_staff valid_email none id i users = (users, fail 401 unauthorized)
  post_staff valid_email (some staff) id i users =
      if not (valid_staff valid_email i)
      then (users, fail 400 invalid)
      else staff_reply (create_staff id staff.venue_id i users)

module _ (matches : String → String → Bool) where
  login_found : String → Option StaffUser → Option StaffClaims
  login_found password none = none
  login_found password (some u) =
      if not (matches password u.password_hash) || not u.active then none else some (claims_of u)

  pub login_staff : (email password : String) → List StaffUser → Option StaffClaims
  unfolding login_found
  login_staff email password users = login_found password (find_first (has_email email) users)

  login_reply : Option StaffClaims → Reply StaffClaims
  login_reply none = fail 401 invalid_credentials
  login_reply (some c) = ok c

  sign_in :
      (normalize account_key : String → String)
      → (ip email password : String) → ℕ
      → List StaffUser
      → List Window
      → List Window × Reply StaffClaims
  unfolding login_staff login_reply
  sign_in normalize account_key ip email password now users ws =
      let by_ip = rate_limit (ip_key ip) ip_limit ip_window_sec now ws in
      let by_account =
        rate_limit (account_key (normalize email)) account_limit account_window_sec now by_ip.0 in
      if not by_ip.1.allowed
      then (by_ip.0, fail 429 rate_limited)
      else if not by_account.1.allowed
      then (by_account.0, fail 429 rate_limited)
      else (by_account.0, login_reply (login_staff (normalize email) password users))

  -- The body is `none` unless it has the two texts.
  pub post_login :
      (normalize account_key : String → String)
      → (ip : String) → Option (String × String)
      → ℕ
      → List StaffUser
      → List Window
      → List Window × Reply StaffClaims
  unfolding sign_in
  post_login normalize account_key ip none now users ws = (ws, fail 400 invalid)
  post_login normalize account_key ip (some (email, password)) now users ws =
      sign_in normalize account_key ip email password now users ws

-- The account as it is after the change; its claims are the new token's.
password_token : List StaffUser → Option StaffUser → List StaffUser × Reply StaffClaims
password_token users none = (users, fail 500 uncaught)
password_token users (some u) = (users, ok (claims_of u))

password_reply : ℕ → List StaffUser × StaffResult → List StaffUser × Reply StaffClaims
unfolding password_token
password_reply i (users, done) = password_token users (find_first (staff_is i) users)
password_reply i (users, wrong_password) = (users, fail 403 password_refused)
password_reply i (users, _) = (users, fail 404 not_found)

module _ (hash : String → String) (matches : String → String → Bool) where
  pub post_password :
      (change_key : ℕ → String → String)
      → Option StaffClaims
      → (ip current new : String) → ℕ
      → List StaffUser
      → List Window
      → List Window × (List StaffUser × Reply StaffClaims)
  unfolding password_reply
  post_password change_key none ip current new now users ws = (ws, (users, fail 401 unauthorized))
  post_password change_key (some staff) ip current new now users ws =
      let limit = rate_limit (change_key staff.sub ip) account_limit account_window_sec now ws in
      if not limit.1.allowed
      then (limit.0, (users, fail 429 rate_limited))
      else if not (leb 1 (text_length current) && leb password_min (text_length new))
      then (limit.0, (users, fail 400 invalid))
      else (
        limit.0,
        password_reply staff.sub (change_own_password hash matches staff.sub current new users),
      )
