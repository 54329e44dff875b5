-- ===== src/StaffAdmin.antt =====
-- The accounts of the staff: `updateStaff` and `changeOwnPassword` of src/lib/staffAdmin.ts, over the
-- StaffUser table. The hash function and the comparison with a hash are bcrypt's, the parameters
-- `hash` and `matches`; `trim` is the parameter that stands for the text's `trim()`.
pub mod LastAdmin
mod Tests
use restaurant_app.Prelude.{
  ℕ, suc, ◌+◌, Bool, true, false, not, ◌&&◌, ◌||◌, List, Option, none, some, String, ◌==◌,
  if◌then◌else◌, find_first, count, update_many,
}
use restaurant_app.Api.{Role, admin, desk}

pub record StaffUser : Type 0 where
  pub id : ℕ
  pub venue_id : ℕ
  pub email : String
  pub name : String
  pub role : Role
  pub password_hash : String
  pub active : Bool
  pub token_version : ℕ

-- `staffUpdateSchema`: what is given of it.
pub record StaffUpdate : Type 0 where
  pub name : Option String
  pub role : Option Role
  pub active : Option Bool
  pub password : Option String
  pub sign_out_everywhere : Bool

pub data StaffResult : Type 0 where
  done : StaffResult
  not_found last_admin cannot_deactivate_self cannot_demote_self nothing_to_do wrong_password :
      StaffResult

abbrev pub is_admin : Role → Bool
is_admin admin = true
is_admin desk = false

abbrev pub staff_is : ℕ → StaffUser → Bool
staff_is i u = u.id == i

-- An account that can manage the venue.
abbrev pub manages : ℕ → StaffUser → Bool
manages venue u = (u.venue_id == venue) && is_admin u.role && u.active

pub other_active_admins : (venue except : ℕ) → List StaffUser → ℕ
other_active_admins venue except users =
    count (λ u. manages venue u && not (staff_is except u)) users

abbrev pub deactivates : StaffUpdate → Bool
deactivates i = elim i.active [ none ↦ false | some b ↦ not b ]

abbrev pub demotes : StaffUpdate → Bool
demotes i = elim i.role [ none ↦ false | some r ↦ not (is_admin r) ]

abbrev pub given {ℓ} : {A : Type ℓ} → Option A → Bool
given none = false
given (some a) = true

abbrev pub or_else {ℓ} : {A : Type ℓ} → Option A → A → A
or_else none a = a
or_else (some b) a = b

abbrev pub must_revoke : StaffUpdate → Bool
must_revoke i = i.sign_out_everywhere || deactivates i || given i.password || given i.role

-- Whether there is anything to write.
abbrev pub has_data : StaffUpdate → Bool
has_data i = given i.name || given i.role || given i.active || given i.password || must_revoke i

abbrev pub hash_or : (String → String) → Option String → String → String
hash_or hash none old = old
hash_or hash (some password) old = hash password

module _ (trim hash : String → String) where
  abbrev pub trim_or : Option String → String → String
  trim_or none old = old
  trim_or (some name) old = trim name

  abbrev pub apply_update : StaffUpdate → StaffUser → StaffUser
  apply_update i u = record u {
    name = trim_or i.name u.name;
    role = or_else i.role u.role;
    active = or_else i.active u.active;
    password_hash = hash_or hash i.password u.password_hash;
    token_version = if must_revoke i then suc u.token_version else u.token_version;
  }

-- What `updateStaff` decides, from the account that it has found and the number of other
-- administrators that it has counted: to write, or why not.
unfoldable pub update_decide :
    (target actor : ℕ) → StaffUpdate → Option StaffUser → (others : ℕ) → StaffResult
update_decide target actor i none others = not_found
update_decide target actor i (some u) others =
    if (target == actor) && deactivates i
    then cannot_deactivate_self
    else if (target == actor) && demotes i
    then cannot_demote_self
    else if is_admin u.role && u.active && (deactivates i || demotes i) && (others == 0)
    then last_admin
    else if not (has_data i)
    then nothing_to_do
    else done

-- The two reads of `updateStaff`.
unfoldable pub update_read : (venue target actor : ℕ) → StaffUpdate → List StaffUser → StaffResult
unfolding update_decide other_active_admins
update_read venue target actor i users =
    update_decide target actor i
      (find_first (λ u. staff_is target u && (u.venue_id == venue)) users)
      (other_active_admins venue target users)

module _ (trim hash : String → String) where
  -- Its write, by id alone.
  unfoldable pub update_write :
      ℕ → StaffUpdate → StaffResult → List StaffUser → List StaffUser × StaffResult
  update_write target i done users =
      (update_many (staff_is target) (apply_update trim hash i) users, done)
  update_write target i r users = (users, r)

  -- The whole, with no other request in between.
  unfoldable pub update_staff :
      (venue target actor : ℕ) → StaffUpdate → List StaffUser → List StaffUser × StaffResult
  unfolding update_write update_read
  update_staff venue target actor i users =
      update_write target i (update_read venue target actor i users) users

module _ (hash : String → String) (matches : String → String → Bool) where
  change_found :
      ℕ → (current new : String) → Option StaffUser → List StaffUser → List StaffUser × StaffResult
  change_found i current new none users = (users, not_found)
  change_found i current new (some u) users =
      if matches current u.password_hash
      then (
        update_many (staff_is i)
            (λ u. record u { password_hash = hash new; token_version = suc u.token_version }) users,
        done,
      )
      else (users, wrong_password)

  pub change_own_password :
      ℕ → (current new : String) → List StaffUser → List StaffUser × StaffResult
  unfolding change_found
  change_own_password i current new users =
      change_found i current new (find_first (staff_is i) users) users
