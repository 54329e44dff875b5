-- ===== src/Visit.antt =====
-- The visit of a party to a table: src/lib/visit.ts, with the guest's request in
-- src/app/api/bill/route.ts, the desk's answer in src/app/api/desk/bills/[id]/route.ts and the
-- settlement in src/app/api/desk/bills/[id]/settle/route.ts. The id and the time of a new row are
-- given; a transaction runs at once. Visits that were opened at one time stand in the table's order,
-- which the database does not promise.
pub mod Opening
pub mod Settlement
pub mod Till
pub mod Routes
mod Tests
use restaurant_app.Prelude.{
  ℕ, ◌+◌, ◌≡◌, Bool, true, false, not, ◌&&◌, ◌||◌, List, [], ◌∷◌, ◌++◌, map, Option, none, some,
  String, ltb, ◌==◌, if◌then◌else◌, find_many, find_first, count, update_many, order_by, length,
  any, includes_id,
}
use restaurant_app.Prelude.Int.{ℤ, pos, ◌≤ℤ◌}
use restaurant_app.Schema.{
  Db, Order, TableSession, TableVisit, bill_requested, bill_updated, visit_closed,
}
use restaurant_app.Schema.Status.{
  VisitStatus, opened, closed, in_flight, is_closed, is_bill_requested,
}
use restaurant_app.Api.{
  StaffClaims, ActiveSession, Client, ApiError, Reply, ok, fail, unauthorized, no_session, no_visit,
  publish, log_attempt, subject_of,
}
use restaurant_app.Bill.{Bill, is_visit, is_of, build_bill}

abbrev pub abandon_after_ms : ℕ
abandon_after_ms = 10_800_000

abbrev pub is_open_at : ℕ → TableVisit → Bool
is_open_at table v = (v.table_id == table) && not (is_closed v.status)

-- Opening: what a scan reads first, ...
newest : List TableVisit → Option TableVisit
newest [] = none
newest (v ∷ vs) = elim (newest vs) [ none ↦ some v | some w ↦ some w ]

pub open_read : ℕ → List TableVisit → Option TableVisit
unfolding newest
open_read table visits = newest (order_by (λ v. v.opened_at) (find_many (is_open_at table) visits))

abbrev pub new_visit : (id table venue now : ℕ) → TableVisit
new_visit id table venue now = record {
  id = id;
  venue_id = venue;
  table_id = table;
  status = opened;
  opened_at = now;
  bill_requested_at = none;
  closed_at = none;
  closed_reason = none;
  total_kurus = none;
  payment_method = none;
  paid_amount_kurus = none;
  closed_by_staff_id = none;
}

-- ... the visit it creates if there was none, ...
abbrev pub open_create : TableVisit → List TableVisit → List TableVisit
open_create v visits = visits ++ v ∷ []

-- ... and the second look: the visits that are left and the one that the scan joins.
settle_race : TableVisit → List TableVisit → List TableVisit → List TableVisit × ℕ
settle_race mine [] visits = (visits, mine.id)
settle_race mine (v ∷ vs) visits =
    if ltb 1 (length (v ∷ vs)) && not (v.id == mine.id)
    then (find_many (λ w. not (w.id == mine.id)) visits, v.id)
    else (visits, mine.id)

pub open_check : TableVisit → List TableVisit → List TableVisit × ℕ
unfolding settle_race
open_check mine visits =
    settle_race mine (order_by (λ v. v.opened_at) (find_many (is_open_at mine.table_id) visits))
      visits

-- The whole, with nothing in between.
pub open_or_join : TableVisit → List TableVisit → List TableVisit × ℕ
unfolding open_read open_check
open_or_join mine visits = elim (open_read mine.table_id visits) [
  | none ↦ open_check mine (open_create mine visits)
  | some v ↦ (visits, v.id)
]

abbrev visit_of : ℕ → ℕ → List TableVisit → Option TableVisit
visit_of i venue visits = find_first (λ v. is_visit i v && (v.venue_id == venue)) visits

abbrev pub ask : ℕ → TableVisit → TableVisit
ask now v = record v { status = VisitStatus.bill_requested; bill_requested_at = some now }

abbrev set_visit : ℕ → (TableVisit → TableVisit) → Db → Db
set_visit i f db = record db { visits = update_many (is_visit i) f db.visits }

request_found : ℕ → ℕ → ℕ → Option TableVisit → Db → Db × Bool
request_found now i venue none db = (db, false)
request_found now i venue (some v) db =
    if is_closed v.status
    then (db, false)
    else let asked = if is_bill_requested v.status then db else set_visit i (ask now) db in
      (publish (bill_requested venue i v.table_id) asked, true)

pub request_bill : (now i venue : ℕ) → Db → Db × Bool
unfolding request_found
request_bill now i venue db = request_found now i venue (visit_of i venue db.visits) db

abbrev withdraw_request : TableVisit → TableVisit
withdraw_request v = record v { status = opened; bill_requested_at = none }

clear_found : ℕ → ℕ → Option TableVisit → Db → Db × Bool
clear_found i venue none db = (db, false)
clear_found i venue (some v) db =
    if is_bill_requested v.status
    then (publish (bill_updated venue i v.table_id) (set_visit i withdraw_request db), true)
    else (db, false)

pub clear_bill_request : (i venue : ℕ) → Db → Db × Bool
unfolding clear_found
clear_bill_request i venue db = clear_found i venue (visit_of i venue db.visits) db

pub record Payment : Type 0 where
  pub payment_method : String
  pub paid_amount_kurus : Option ℤ
  pub staff_id : ℕ
  pub force : Bool

pub data Settled : Type 0 where
  settled : ℤ → Settled
  not_found already_closed orders_in_flight : Settled

abbrev paid_or : ℤ → Option ℤ → ℤ
paid_or total none = total
paid_or total (some paid) = paid

abbrev pub close_settled : ℕ → Payment → ℤ → TableVisit → TableVisit
close_settled now p total v = record v {
  status = closed;
  closed_at = some now;
  closed_reason = some "settled";
  total_kurus = some total;
  payment_method = some p.payment_method;
  paid_amount_kurus = some (paid_or total p.paid_amount_kurus);
  closed_by_staff_id = some p.staff_id;
  bill_requested_at = none;
}

abbrev pub still_open : ℕ → TableVisit → Bool
still_open i v = is_visit i v && not (is_closed v.status)

abbrev is_null : Option ℕ → Bool
is_null none = true
is_null (some _) = false

-- A session of the visit that is not revoked.
abbrev pub is_live_of : ℕ → TableSession → Bool
is_live_of i s = is_of i s.visit_id && is_null s.revoked_at

abbrev pub bill_total : Option Bill → ℤ
bill_total none = pos 0
bill_total (some b) = b.total_kurus

abbrev pub billed : Option Bill → Order → Bool
billed none o = false
billed (some b) o = includes_id b.order_ids o.id

abbrev pub in_flight_of : ℕ → Order → Bool
in_flight_of i o = is_of i o.visit_id && in_flight o.status

-- The writes of a settlement.
pub settle_write : ℕ → ℕ → Payment → Option Bill → Db → Db
settle_write now i p bill db = record db {
  visits = update_many (still_open i) (close_settled now p (bill_total bill)) db.visits;
  orders =
      update_many (billed bill)
        (λ o. record o { paid = true; payment_provider = some p.payment_method }) db.orders;
  sessions = update_many (is_live_of i) (λ s. record s { revoked_at = some now }) db.sessions;
}

settle_found : ℕ → ℕ → ℕ → Payment → Option TableVisit → Db → Db × Settled
unfolding settle_write
settle_found now i venue p none db = (db, not_found)
settle_found now i venue p (some v) db =
    if is_closed v.status
    then (db, already_closed)
    else if not p.force && ltb 0 (count (in_flight_of i) db.orders)
    then (db, orders_in_flight)
    else if count (still_open i) db.visits == 0
    then (db, already_closed)
    else let bill = build_bill i db in
      (
        publish (visit_closed venue i v.table_id) (settle_write now i p bill db),
        settled (bill_total bill),
      )

pub settle_visit : (now i venue : ℕ) → Payment → Db → Db × Settled
unfolding settle_found
settle_visit now i venue p db = settle_found now i venue p (visit_of i venue db.visits) db

-- The scheduler's: a visit opened long ago, with no phone alive and no recent order.
abbrev pub is_alive : ℕ → ℕ → TableSession → Bool
is_alive now i s = is_live_of i s && ltb now s.expires_at

abbrev pub is_recent : ℕ → ℕ → Order → Bool
is_recent now i o = is_of i o.visit_id && ltb now (o.created_at + abandon_after_ms)

pub is_abandoned : ℕ → Db → TableVisit → Bool
is_abandoned now db v =
    not (is_closed v.status)
    && ltb (v.opened_at + abandon_after_ms) now
    && not (any (is_alive now v.id) db.sessions)
    && not (any (is_recent now v.id) db.orders)

abbrev pub close_abandoned : ℕ → ℤ → TableVisit → TableVisit
close_abandoned now total v = record v {
  status = closed;
  closed_at = some now;
  closed_reason = some "abandoned";
  total_kurus = some total;
}

pub close_each : ℕ → List TableVisit → Db → Db
close_each now [] db = db
close_each now (v ∷ vs) db = close_each now vs (
    publish (visit_closed v.venue_id v.id v.table_id)
      (set_visit v.id (close_abandoned now (bill_total (build_bill v.id db))) db))

pub close_abandoned_visits : ℕ → Db → Db × ℕ
unfolding is_abandoned close_each
close_abandoned_visits now db =
    let stale = find_many (is_abandoned now db) db.visits in (close_each now stale db, length stale)
