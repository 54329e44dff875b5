-- ===== src/Tables.antt =====
-- The tables of a venue under the admin's requests: src/app/api/admin/tables/route.ts,
-- src/app/api/admin/tables/[id]/route.ts, src/app/api/admin/sessions/[id]/route.ts, and
-- `rotateQrSecret` of src/lib/venueSettings.ts. The random code of a new table and its id are
-- given.
pub mod Regenerate
use restaurant_app.Prelude.{
  ℕ, zero, suc, ◌+◌, Bool, true, false, not, ◌&&◌, ◌||◌, List, [], ◌∷◌, ◌++◌, Option, none, some,
  String, ltb, ◌==◌, if◌then◌else◌, find_many, find_first, count, update_many, str_eq,
}
use restaurant_app.Schema.{Db, Table, TableSession, TableVisit, Order, session_revoked}
use restaurant_app.Api.{
  StaffClaims, ApiError, Reply, ok, fail, unauthorized, not_found, name_required, publish,
}
use restaurant_app.Session.{is_null, revoke}

abbrev pub table_is : ℕ → Table → Bool
table_is i t = t.id == i

-- The body of a change: what is given of it.
pub record TableChange : Type 0 where
  pub regenerate_qr : Bool
  pub name : Option String
  pub active : Option Bool

abbrev pub given_or {ℓ} : {A : Type ℓ} → Option A → A → A
given_or none a = a
given_or (some b) a = b

abbrev pub live_at : ℕ → TableSession → Bool
live_at table s = (s.table_id == table) && is_null s.revoked_at

abbrev pub next_version : Table → Table
next_version t = record t { qr_version = suc t.qr_version }

-- A new version of the table's code, and the end of the sessions that are alive.
pub regenerate : ℕ → ℕ → Db → Db
regenerate now i db = record db {
  tables = update_many (table_is i) next_version db.tables;
  sessions = update_many (live_at i) (revoke now) db.sessions;
}

abbrev change_table : TableChange → Table → Table
change_table c t = record t { name = given_or c.name t.name; active = given_or c.active t.active }

patch_found : ℕ → ℕ → TableChange → Option Table → Db → Db × Reply (Unit {0})
unfolding regenerate
patch_found now i c none db = (db, fail 404 not_found)
patch_found now i c (some t) db =
    if c.regenerate_qr
    then (regenerate now i db, ok tt)
    else (record db { tables = update_many (table_is i) (change_table c) db.tables }, ok tt)

abbrev table_in : ℕ → ℕ → List Table → Option Table
table_in i venue tables = find_first (λ t. table_is i t && (t.venue_id == venue)) tables

pub patch_table : Option StaffClaims → (now i : ℕ) → TableChange → Db → Db × Reply (Unit {0})
unfolding patch_found
patch_table none now i c db = (db, fail 401 unauthorized)
patch_table (some staff) now i c db = patch_found now i c (table_in i staff.venue_id db.tables) db

-- A table that was ordered from is deactivated; any other goes, with its sessions and visits. The
-- reply says whether it was deactivated.
delete_found : ℕ → Option Table → Db → Db × Reply Bool
delete_found i none db = (db, fail 404 not_found)
delete_found i (some t) db =
    if ltb 0 (count (λ o. o.table_id == i) db.orders)
    then (
      record db { tables = update_many (table_is i) (λ t. record t { active = false }) db.tables },
      ok true,
    )
    else (
      record db {
        sessions = find_many (λ s. not (s.table_id == i)) db.sessions;
        visits = find_many (λ v. not (v.table_id == i)) db.visits;
        tables = find_many (λ t. not (table_is i t)) db.tables;
      },
      ok false,
    )

pub delete_table : Option StaffClaims → ℕ → Db → Db × Reply Bool
unfolding delete_found
delete_table none i db = (db, fail 401 unauthorized)
delete_table (some staff) i db = delete_found i (table_in i staff.venue_id db.tables) db

abbrev new_table : (id venue : ℕ) (code name : String) → Table
new_table id venue code name = record {
  id = id;
  venue_id = venue;
  code = code;
  name = name;
  qr_version = 1;
  active = true;
}

-- `name` is "" if none is given.
pub post_table : Option StaffClaims → (id : ℕ) (code name : String) → Db → Db × Reply ℕ
post_table none id code name db = (db, fail 401 unauthorized)
post_table (some staff) id code name db =
    if str_eq name ""
    then (db, fail 400 name_required)
    else (record db { tables = db.tables ++ new_table id staff.venue_id code name ∷ [] }, ok id)

-- The staff end one phone's session.
end_found : ℕ → ℕ → ℕ → Option TableSession → Db → Db × Reply (Unit {0})
end_found now venue i none db = (db, fail 404 not_found)
end_found now venue i (some s) db = (
  publish (session_revoked venue i)
      (record db { sessions = update_many (λ s. s.id == i) (revoke now) db.sessions }),
  ok tt,
)

pub delete_session : Option StaffClaims → (now i : ℕ) → Db → Db × Reply (Unit {0})
unfolding end_found
delete_session none now i db = (db, fail 401 unauthorized)
delete_session (some staff) now i db =
    end_found now staff.venue_id i
      (find_first (λ s. (s.id == i) && (s.venue_id == staff.venue_id)) db.sessions) db

-- The venue's secret is replaced elsewhere: every table of the venue gets a new version, and every
-- session of it ends. The answer is the number of tables.
pub rotate_qr_secret : (now venue : ℕ) → Db → Db × ℕ
rotate_qr_secret now venue db = (
  record db {
    tables = update_many (λ t. t.venue_id == venue) next_version db.tables;
    sessions =
        update_many (λ s. (s.venue_id == venue) && is_null s.revoked_at) (revoke now) db.sessions;
  },
  count (λ t. t.venue_id == venue) db.tables,
)
