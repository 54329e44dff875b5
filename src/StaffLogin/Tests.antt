-- ===== src/StaffLogin/Tests.antt =====
-- A new cook, and the theorem at her account.
use restaurant_app.Prelude.{
  ℕ, ◌+◌, ◌/◌, ◌≡◌, refl, Bool, List, [], ◌∷◌, Option, none, some, String, arith, ltb,
  if◌then◌else◌, find_first, str_eq,
}
use restaurant_app.Api.{StaffClaims, desk, ok}
use restaurant_app.RateLimit.{rate_limit, hit, first_hit, set_window}
use restaurant_app.StaffAdmin.{StaffUser}
use restaurant_app.StaffAuth.Token.{Verifies, create_staff_token, require_bearer}
use restaurant_app.StaffLogin.{
  NewStaff, create_staff, new_user, login_staff, login_found, post_login,
}
use restaurant_app.StaffLogin.Access.{create_staff-post_login}

abbrev cook : NewStaff
cook = record { email = "elif@heaven.test"; name = "Elif"; role = desk; password = "kitchen-42" }

abbrev hash : String → String
hash s = Prim.Native.String.◌++◌ "#" s

abbrev matches : String → String → Bool
matches s h = str_eq (hash s) h

abbrev same : String → String
same s = s

-- Lowering, on the emails of the test.
abbrev lower : String → String
lower s = "elif@heaven.test"

abbrev claims : StaffClaims
claims = record { sub = 2; venue_id = 1; role = desk; name = "Elif"; ver = 0 }

wrong :
    login_staff matches "elif@heaven.test" "kitchen-43" (new_user lower same hash 2 1 cook ∷ [])
    ≡ none
unfolding login_staff login_found find_first
wrong = refl

counting : Unit {0}
unfolding rate_limit hit first_hit set_window find_first
counting = tt

-- A token of the tests: the second at which it ends, and what it says.
abbrev sign : ℕ → ℕ → StaffClaims → ℕ × StaffClaims
sign now life c = (now / 1_000 + life, c)

abbrev verify : ℕ → ℕ × StaffClaims → Option StaffClaims
verify now t = if ltb (now / 1_000) t.0 then some t.1 else none

verifies : Verifies sign verify
verifies issued life now c h = ground (arith, h)

abbrev key : String → String
key email = Prim.Native.String.◌++◌ "login:acct:" email

abbrev hired : List StaffUser
hired = new_user lower same hash 2 1 cook ∷ []

create_staff-post_login_example :
    ((post_login matches lower key "10.0.0.7"
        (some ("Elif@Heaven.test", "kitchen-42"))
        5_000
        hired
        []).1
      ≡ ok claims)
    × ((require_bearer sign verify desk 43_204_999
          (some (create_staff_token sign verify 5_000 claims))
          hired
          []).1
        ≡ some claims)
unfolding create_staff find_first
create_staff-post_login_example =
    create_staff-post_login lower same hash matches sign verify key 2 1 cook [] hired "10.0.0.7"
      "Elif@Heaven.test" 5_000 43_204_999 [] [] verifies refl refl refl refl refl
      (unfold counting in refl) (unfold counting in refl) (omega arith)
