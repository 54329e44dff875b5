-- ===== src/Session.antt =====
-- The phones at a table: `mintSession` and `getActiveSession` of src/lib/tableSession.ts. The
-- cookie's token, the clock and the new row are arguments. The loading of the table with its
-- session is `find_first` by the table's id.
pub mod Cap
pub mod Active
mod Tests
use restaurant_app.Prelude.{
  ℕ, ◌+◌, Bool, true, false, not, ◌&&◌, ◌||◌, List, [], ◌∷◌, ◌++◌, map, Option, none, some, String,
  ltb, leb, ◌==◌, if◌then◌else◌, find_many, find_first, count, update_many, order_by, drop, length,
  includes_id, str_eq,
}
use restaurant_app.Schema.{Db, Table, TableSession}
use restaurant_app.Api.{ActiveSession}
use restaurant_app.Visit.{new_visit, open_or_join}

abbrev pub hard_cap_ms : ℕ
hard_cap_ms = 7_200_000

abbrev pub idle_ms : ℕ
idle_ms = 1_800_000

abbrev pub max_active_per_table : ℕ
max_active_per_table = 6

abbrev pub touch_interval_ms : ℕ
touch_interval_ms = 60_000

abbrev pub is_null : Option ℕ → Bool
is_null none = true
is_null (some _) = false

abbrev pub is_active_at : ℕ → ℕ → TableSession → Bool
is_active_at table now s = (s.table_id == table) && is_null s.revoked_at && ltb now s.expires_at

-- `orderBy: { createdAt: "desc" }`: the newest first.
pub reverse_onto : List TableSession → List TableSession → List TableSession
reverse_onto [] done = done
reverse_onto (s ∷ ss) done = reverse_onto ss (s ∷ done)

pub newest_first : List TableSession → List TableSession
unfolding reverse_onto
newest_first ss = reverse_onto (order_by (λ s. s.created_at) ss) []

abbrev pub revoke : ℕ → TableSession → TableSession
revoke now s = record s { revoked_at = some now }

-- The oldest beyond the cap are displaced.
pub displace : ℕ → ℕ → List TableSession → List TableSession
unfolding newest_first
displace table now sessions =
    let active = newest_first (find_many (is_active_at table now) sessions) in
    if ltb max_active_per_table (length active)
    then update_many (λ s. includes_id (map (λ s. s.id) (drop max_active_per_table active)) s.id)
        (revoke now) sessions
    else sessions

abbrev pub new_session : (id table venue token visit now : ℕ) → TableSession
new_session id table venue token visit now = record {
  id = id;
  venue_id = venue;
  table_id = table;
  token = token;
  visit_id = some visit;
  created_at = now;
  last_seen_at = now;
  expires_at = now + hard_cap_ms;
  revoked_at = none;
}

-- With nothing in between; `id` and `visit` are the ids of the rows it may create.
pub mint_session : (id visit table venue token now : ℕ) → Db → Db
unfolding displace
mint_session id visit table venue token now db =
    let joined = open_or_join (new_visit visit table venue now) db.visits in
    record db {
      visits = joined.0;
      sessions =
          displace table now (db.sessions ++ new_session id table venue token joined.1 now ∷ []);
    }

abbrev pub touch : ℕ → TableSession → TableSession
touch now s = record s { last_seen_at = now }

abbrev pub wrong_code : Option String → Table → Bool
wrong_code none t = false
wrong_code (some code) t = not (str_eq t.code code)

-- Refused if it is revoked, too old, idle for too long, at another table, or its table is closed.
pub refused_session : Option String → ℕ → TableSession → Table → Bool
refused_session code now s t =
    not (is_null s.revoked_at)
    || ltb s.expires_at now
    || ltb (s.last_seen_at + idle_ms) now
    || wrong_code code t
    || not t.active

abbrev pub active_of : TableSession → Table → ActiveSession
active_of s t = record {
  id = s.id;
  venue_id = s.venue_id;
  table_id = s.table_id;
  table_code = t.code;
  table_name = t.name;
  visit_id = s.visit_id;
}

-- `id` names one row.
abbrev pub touch_session : ℕ → TableSession → Db → Db
touch_session now s db =
    if leb (s.last_seen_at + touch_interval_ms) now
    then record db { sessions = update_many (λ r. r.id == s.id) (touch now) db.sessions }
    else db

check_session :
    Option String → ℕ → Option TableSession → Option Table → Db → Db × Option ActiveSession
unfolding refused_session
check_session code now none t db = (db, none)
check_session code now (some s) none db = (db, none)
check_session code now (some s) (some t) db =
    if refused_session code now s t
    then (db, none)
    else (touch_session now s db, some (active_of s t))

table_of : Option TableSession → List Table → Option Table
table_of none tables = none
table_of (some s) tables = find_first (λ t. t.id == s.table_id) tables

pub get_active_session : Option String → Option ℕ → ℕ → Db → Db × Option ActiveSession
unfolding check_session table_of
get_active_session code none now db = (db, none)
get_active_session code (some token) now db =
    let s = find_first (λ s. s.token == token) db.sessions in
    check_session code now s (table_of s db.tables) db
