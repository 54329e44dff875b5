-- ===== src/Session/Tests.antt =====
-- Seven scans at one table, a phone's requests, and the theorems at them.
use restaurant_app.Prelude.{
  ℕ, ◌+◌, ◌≤◌, ◌≡◌, refl, true, [], ◌∷◌, none, some, arith, count, find_first, find_many,
  update_many, order_by,
}
use restaurant_app.Schema.{Db, Table, TableSession}
use restaurant_app.Api.{ActiveSession}
use restaurant_app.Examples.{empty_db}
use restaurant_app.Session.{
  is_active_at, new_session, mint_session, displace, newest_first, reverse_onto, active_of,
  refused_session, check_session, table_of, get_active_session,
}
use restaurant_app.Session.Cap.{mint_session-cap}
use restaurant_app.Session.Active.{get_active_session_again}

abbrev terrace : Table
terrace = record {
  id = 2;
  venue_id = 1;
  code = "A1";
  name = "Masa 1";
  qr_version = 1;
  active = true;
}

abbrev scan_at : ℕ → TableSession
scan_at now = new_session now 2 1 (now + 500) 9 now

abbrev six_db : Db
six_db = record empty_db {
  tables = terrace ∷ [];
  sessions = scan_at 100 ∷ scan_at 101 ∷ scan_at 102 ∷ scan_at 103 ∷ scan_at 104 ∷ scan_at 105 ∷ [];
}

signing_in : Unit {0}
unfolding displace newest_first reverse_onto refused_session check_session table_of
    get_active_session find_first find_many update_many order_by
signing_in = tt

-- The oldest phone makes room for the seventh.
seventh :
    displace 2 106 (
      scan_at 100
      ∷ scan_at 101
      ∷ scan_at 102
      ∷ scan_at 103
      ∷ scan_at 104
      ∷ scan_at 105
      ∷ scan_at 106
      ∷ [])
    ≡ record (scan_at 100) { revoked_at = some 106 }
      ∷ scan_at 101
      ∷ scan_at 102
      ∷ scan_at 103
      ∷ scan_at 104
      ∷ scan_at 105
      ∷ scan_at 106
      ∷ []
unfolding signing_in
seventh = refl

mint_session-cap_example :
    count (is_active_at 2 106) (mint_session 106 9 2 1 606 106 six_db).sessions ≤ 6
mint_session-cap_example = mint_session-cap 106 9 2 1 606 106 six_db

abbrev signed_in : ActiveSession
signed_in = active_of (scan_at 101) terrace

abbrev later_db : Db
later_db = (get_active_session (some "A1") (some 601) 100_000 six_db).0

accepted : get_active_session (some "A1") (some 601) 100_000 six_db ≡ (later_db, some signed_in)
unfolding signing_in
accepted = refl

-- Idle for more than half an hour.
idle : (get_active_session none (some 601) 1_800_102 six_db).1 ≡ none
unfolding signing_in
idle = refl

abbrev stamped : TableSession
stamped = record (scan_at 101) { last_seen_at = 100_000 }

-- Another phone came to the table in between, and this one was seen again.
abbrev met_db : Db
met_db = record later_db {
  sessions = scan_at 107 ∷ record (scan_at 101) { last_seen_at = 170_000 } ∷ [];
}

get_active_session_again_example :
    (get_active_session (some "A1") (some 601) 1_840_000 met_db).1 ≡ some signed_in
get_active_session_again_example =
    get_active_session_again (some "A1") 601 100_000 1_840_000 170_000 six_db later_db met_db
      (scan_at 101) stamped signed_in (unfold find_first in refl) accepted
      (unfold signing_in in refl) (omega arith) (unfold find_first in refl)
      (unfold signing_in in refl) (omega arith) (omega arith)
