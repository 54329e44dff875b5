-- ===== src/StaffLogin/Access.antt =====
-- From a new account to its first request: src/lib/staffAdmin.ts and src/lib/staffAuth.ts.
use restaurant_app.Prelude.{
  ℕ, ◌+◌, ◌*◌, ◌/◌, ◌<◌, ◌≡◌, refl, inl, inr, true, false, Bool, List, [], ◌∷◌, ◌++◌, Option, none,
  some, String, arith, find_first, any, str_eq_iff, Bool-cases,
}
use restaurant_app.Prelude.Keys.{find_first-append_new}
use restaurant_app.Api.{StaffClaims, ok}
use restaurant_app.RateLimit.{Window, rate_limit}
use restaurant_app.StaffAdmin.{StaffUser, staff_is}
use restaurant_app.StaffAuth.{AccountState, caches}
use restaurant_app.StaffAuth.Admission.{claims_of, require_staff-claims_of}
use restaurant_app.StaffAuth.Token.{Verifies, create_staff_token, require_bearer}
use restaurant_app.StaffLogin.{
  NewStaff, new_user, has_email, create_staff, login_staff, login_found, login_reply, sign_in,
  post_login, ip_key, ip_limit, ip_window_sec, account_limit, account_window_sec,
}

module _ (normalize trim hash : String → String) (matches : String → String → Bool) where
  create_staff-some :
      (id venue : ℕ) (i : NewStaff) (users users' : List StaffUser)
      → create_staff normalize trim hash id venue i users ≡ (users', some id)
      → (any (has_email (normalize i.email)) users ≡ false)
        × (users' ≡ users ++ new_user normalize trim hash id venue i ∷ [])
  unfolding create_staff
  create_staff-some id venue i users users' e =
      elim (Bool-cases (any (has_email (normalize i.email)) users)) [
        | inl k ↦ absurd (ground (arith, k, e))
        | inr k ↦ (k, ground (arith, k, e))
      ]

  login_staff-new :
      (id venue : ℕ) (i : NewStaff) (users : List StaffUser)
      → any (has_email (normalize i.email)) users ≡ false
      → matches i.password (hash i.password) ≡ true
      → login_staff matches
          (normalize i.email)
          i.password
          (users ++ new_user normalize trim hash id venue i ∷ [])
        ≡ some (claims_of (new_user normalize trim hash id venue i))
  unfolding login_staff login_found
  login_staff-new id venue i users new m =
      rw
        (
          find_first-append_new (has_email (normalize i.email)) users
              (new_user normalize trim hash id venue i) new ((str_eq_iff _ _).1 refl),
          m,
        )
        refl

  -- The sign-in when neither of the counters is used up.
  post_login-allowed :
      (account_key : String → String) (ip email password : String) (now : ℕ)
      (users : List StaffUser) (ws : List Window) (c : StaffClaims)
      → let by_ip = rate_limit (ip_key ip) ip_limit ip_window_sec now ws in
        let key = account_key (normalize email) in
        by_ip.1.allowed ≡ true
        → (rate_limit key account_limit account_window_sec now by_ip.0).1.allowed ≡ true
        → login_staff matches (normalize email) password users ≡ some c
        → (post_login matches normalize account_key ip (some (email, password)) now users ws).1
          ≡ ok c
  unfolding post_login sign_in login_reply
  post_login-allowed account_key ip email password now users ws c h k l = rw (h, k, l) refl

-- A new member of the staff gets in. With the password that the admin has given and any text that is
-- normalized to the same email, the sign-in route succeeds, if neither the counter of the address nor
-- that of the account is used up; and the token that is then cut admits its bearer with the role of
-- the account, for twelve hours. The account is as it was created, its id is new, in the table and in
-- the cache of accounts, and the password matches its own hash.
pub create_staff-post_login :
    (normalize trim hash : String → String) (matches : String → String → Bool) {Token : Type 0}
    (sign : (now life : ℕ) → StaffClaims → Token) (verify : ℕ → Token → Option StaffClaims)
    (account_key : String → String) (id venue : ℕ) (i : NewStaff) (users users' : List StaffUser)
    (ip typed : String) (now later : ℕ) (ws : List Window) (cache : List AccountState)
    → Verifies sign verify
    → create_staff normalize trim hash id venue i users ≡ (users', some id)
    → normalize typed ≡ normalize i.email
    → any (staff_is id) users ≡ false
    → find_first (caches id) cache ≡ none
    → matches i.password (hash i.password) ≡ true
    → (rate_limit (ip_key ip) ip_limit ip_window_sec now ws).1.allowed ≡ true
    → (rate_limit
        (account_key (normalize typed))
        account_limit
        account_window_sec
        now
        (rate_limit (ip_key ip) ip_limit ip_window_sec now ws).0).1.allowed
      ≡ true
    → later / 1_000 < now / 1_000 + 12 * 60 * 60
    → (let claims = claims_of (new_user normalize trim hash id venue i) in
        let token = create_staff_token sign verify now claims in
        ((post_login matches normalize account_key ip (some (typed, i.password)) now users' ws).1
          ≡ ok claims)
        × ((require_bearer sign verify i.role later (some token) users' cache).1 ≡ some claims))
create_staff-post_login normalize trim hash matches sign verify account_key id venue i users users'
      ip typed now later ws cache jwt e same fresh cold m by_ip by_account valid =
    let (new, is) = create_staff-some normalize trim hash matches id venue i users users' e in
    let user = new_user normalize trim hash id venue i in
    (
      post_login-allowed normalize trim hash matches account_key ip typed i.password now users' ws
          (claims_of user) by_ip by_account
          (rw (is, same) (login_staff-new normalize trim hash matches id venue i users new m)),
      unfold require_bearer create_staff_token in
          rw (jwt now 43_200 later (claims_of user) valid) (
            require_staff-claims_of later users' cache user cold
              (rw is (find_first-append_new (staff_is id) users user fresh (ground arith))) refl),
    )
