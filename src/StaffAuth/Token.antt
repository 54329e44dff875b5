-- ===== src/StaffAuth/Token.antt =====
-- The token of a member of the staff: `createStaffToken` and the verification in `getStaff`
-- (src/lib/staffAuth.ts). `sign` and `verify` are those of the JSON Web Token library: at a time,
-- `sign` is given for how many seconds the token is valid.
use restaurant_app.Prelude.{ℕ, ◌+◌, ◌/◌, ◌<◌, ◌≡◌, List, Option, none, some}
use restaurant_app.Api.{Role, StaffClaims}
use restaurant_app.StaffAdmin.{StaffUser}
use restaurant_app.StaffAuth.{AccountState, require_staff}

-- "12h".
abbrev pub token_life_sec : ℕ
token_life_sec = 43_200

module _ {Token : Type 0} (sign : (now life : ℕ) → StaffClaims → Token)
    (verify : ℕ → Token → Option StaffClaims) where
  -- A token that was signed is verified until it ends; the library counts in whole seconds.
  abbrev pub Verifies : Type 0
  Verifies =
      (issued life now : ℕ) (c : StaffClaims)
      → now / 1_000 < issued / 1_000 + life
      → verify now (sign issued life c) ≡ some c

  unfoldable pub create_staff_token : ℕ → StaffClaims → Token
  create_staff_token now c = sign now token_life_sec c

  -- What is known of the bearer of a cookie.
  abbrev pub claims_at : ℕ → Option Token → Option StaffClaims
  claims_at now none = none
  claims_at now (some t) = verify now t

  -- `requireStaff`, from the cookie on.
  unfoldable pub require_bearer :
      Role
      → ℕ
      → Option Token
      → List StaffUser
      → List AccountState
      → List AccountState × Option StaffClaims
  require_bearer role now token users cache =
      require_staff role now (claims_at now token) users cache
