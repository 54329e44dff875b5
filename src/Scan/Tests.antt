-- ===== src/Scan/Tests.antt =====
-- Scans at one table, and the theorems at them.
use restaurant_app.Prelude.{
  ℕ, ◌≡◌, refl, true, false, [], ◌∷◌, none, some, count, find_first, String, ap, str_eq, ◌==◌,
  if◌then◌else◌,
}
use restaurant_app.Schema.{Table}
use restaurant_app.Api.{StaffClaims, admin}
use restaurant_app.Examples.{empty_db, browser}
use restaurant_app.Session.{new_session}
use restaurant_app.Tables.{TableChange, patch_table, live_at}
use restaurant_app.Scan.{Server, wall, Fresh, scan}
use restaurant_app.Scan.Signature.{Outcome, by_code, scan-Outcome, scan-regenerated}

abbrev terrace : Table
terrace = record {
  id = 2;
  venue_id = 1;
  code = "A1";
  name = "Masa 1";
  qr_version = 1;
  active = true;
}

-- A toy for the keyed hash.
sign : String → String → ℕ → String
sign key code version = if version == 1 then "first" else "later"

secret : ℕ → String
secret venue = "key"

abbrev before : Server
before = record {
  db = record empty_db { tables = terrace ∷ []; sessions = new_session 5 2 1 55 9 100 ∷ [] };
  windows = [];
}

abbrev fresh : Fresh
fresh = record { session_id = 8; visit_id = 10; token = 77 }

abbrev manager : StaffClaims
manager = record { sub = 4; venue_id = 1; role = admin; name = "Can"; ver = 0 }

abbrev new_code : TableChange
new_code = record { regenerate_qr = true; name = none; active = none }

scan-Outcome_example :
    Outcome sign secret 200 fresh "first"
      (by_code "A1" before)
      before.db
      (scan sign secret browser 200 fresh "A1" "first" before)
scan-Outcome_example = scan-Outcome sign secret browser 200 fresh "A1" "first" before

scan-regenerated_example :
    (let changed : Server = record before {
      db = (patch_table (some manager) 150 2 new_code before.db).0;
    } in
      let r = scan sign secret browser 200 fresh "A1" (sign (secret 1) "A1" 1) changed in
      (r.1 ≡ wall) × (count (live_at 2) r.0.db.sessions ≡ 0))
unfolding sign find_first
scan-regenerated_example =
    scan-regenerated sign secret manager browser 150 200 fresh new_code before terrace refl refl
      refl (λ e. let d : false ≡ true = ap (λ x. str_eq x "first") e in cc)
