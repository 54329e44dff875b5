-- ===== src/StaffAdmin/Tests.antt =====
-- Changes of accounts at a venue with two administrators, and the theorem at one of them.
use restaurant_app.Prelude.{
  ℕ, ◌≡◌, refl, true, false, List, [], ◌∷◌, none, some, String, arith, any, count, find_first,
  update_many,
}
use restaurant_app.Api.{Role, admin, desk}
use restaurant_app.StaffAdmin.{
  StaffUser, StaffUpdate, done, last_admin, cannot_demote_self, nothing_to_do, wrong_password,
  manages, other_active_admins, update_read, update_decide, update_write, update_staff,
  change_found, change_own_password,
}
use restaurant_app.StaffAdmin.LastAdmin.{update_write-admin}

abbrev account : ℕ → Role → StaffUser
account id role = record {
  id = id;
  venue_id = 1;
  email = "ayse@heaven.test";
  name = "Ayşe";
  role = role;
  password_hash = "$2a$10$old";
  active = true;
  token_version = 0;
}

abbrev no_change : StaffUpdate
no_change = record {
  name = none;
  role = none;
  active = none;
  password = none;
  sign_out_everywhere = false;
}

abbrev crew : List StaffUser
crew = account 1 admin ∷ account 2 admin ∷ account 3 desk ∷ []

abbrev same : String → String
same s = s

managing : Unit {0}
unfolding update_staff update_read update_decide update_write other_active_admins
    change_own_password change_found find_first count update_many
managing = tt

abbrev demote : StaffUpdate
demote = record no_change { role = some desk }

results :
    (update_staff same same 1 2 1 demote crew ≡ (
      account 1 admin ∷ record (account 2 desk) { token_version = 1 } ∷ account 3 desk ∷ [],
      done,
    ))
    × ((update_staff same same 1 1 1 demote crew).1 ≡ cannot_demote_self)
    × ((update_staff same same 1 1 2 demote (account 1 admin ∷ account 2 desk ∷ [])).1 ≡ last_admin)
    × ((update_staff same same 1 1 1 no_change crew).1 ≡ nothing_to_do)
    × ((change_own_password same (λ _ _. false) 3 "guess" "another one" crew).1 ≡ wrong_password)
unfolding managing
results = (refl, refl, refl, refl, refl)

-- A fourth account came in between the reads and the write.
update_write-admin_example :
    any
      (manages 1)
      (update_write same same 2 demote (update_read 1 2 1 demote crew) (account 4 desk ∷ crew)).0
    ≡ true
update_write-admin_example =
    update_write-admin same same 1 2 1 demote crew (account 4 desk ∷ crew) (omega arith)
      (unfold find_first in refl) (unfold other_active_admins count in refl) refl
