-- ===== src/Visit/Routes.antt =====
-- The requests about a visit: the guest's for the bill (src/app/api/bill/route.ts), the desk's answer
-- (src/app/api/desk/bills/[id]/route.ts) and the settlement
-- (src/app/api/desk/bills/[id]/settle/route.ts).
use restaurant_app.Prelude.{
  ℕ, Bool, true, false, ◌&&◌, Option, none, some, String, if◌then◌else◌, str_eq, ◌||◌,
}
use restaurant_app.Prelude.Int.{ℤ, negsuc}
use restaurant_app.Schema.{Db}
use restaurant_app.Api.{
  StaffClaims, ActiveSession, Client, ApiError, Reply, ok, fail, unauthorized, no_session, no_visit,
  visit_closed, not_requested, invalid, log_attempt, subject_of,
}
use restaurant_app.Visit.{
  Payment, Settled, settled, not_found, already_closed, orders_in_flight, request_bill,
  clear_bill_request, settle_visit,
}

post_visit : Client → ℕ → ActiveSession → Option ℕ → Db → Db × Reply (Unit {0})
post_visit client now s none db = (db, fail 409 no_visit)
post_visit client now s (some v) db =
    let asked = request_bill now v s.venue_id db in
    if asked.1
    then (log_attempt client now "bill_requested" (subject_of s none) asked.0, ok tt)
    else (asked.0, fail 409 visit_closed)

pub post_bill : Client → ℕ → Option ActiveSession → Db → Db × Reply (Unit {0})
unfolding post_visit
post_bill client now none db = (db, fail 401 no_session)
post_bill client now (some s) db = post_visit client now s s.visit_id db

pub patch_bill : Option StaffClaims → ℕ → Db → Db × Reply (Unit {0})
patch_bill none i db = (db, fail 401 unauthorized)
patch_bill (some staff) i db =
    let cleared = clear_bill_request i staff.venue_id db in
    (cleared.0, if cleared.1 then ok tt else fail 409 not_requested)

-- `settleSchema`, of a body that has its shape; `force` is false if it is not given.
pub record SettleInput : Type 0 where
  pub payment_method : String
  pub paid_amount_kurus : Option ℤ
  pub force : Bool

abbrev not_negative : Option ℤ → Bool
not_negative (some (negsuc n)) = false
not_negative _ = true

pub valid_settle : SettleInput → Bool
valid_settle b =
    (str_eq b.payment_method "cash" || str_eq b.payment_method "card")
    && not_negative b.paid_amount_kurus

abbrev payment_of : StaffClaims → SettleInput → Payment
payment_of staff b = record {
  payment_method = b.payment_method;
  paid_amount_kurus = b.paid_amount_kurus;
  staff_id = staff.sub;
  force = b.force;
}

settle_reply : Settled → Reply ℤ
settle_reply (settled total) = ok total
settle_reply not_found = fail 404 ApiError.not_found
settle_reply already_closed = fail 409 ApiError.already_closed
settle_reply orders_in_flight = fail 409 ApiError.orders_in_flight

pub post_settle : Option StaffClaims → (now i : ℕ) → Option SettleInput → Db → Db × Reply ℤ
unfolding valid_settle settle_reply
post_settle none now i body db = (db, fail 401 unauthorized)
post_settle (some staff) now i none db = (db, fail 400 invalid)
post_settle (some staff) now i (some b) db =
    if valid_settle b
    then (let r = settle_visit now i staff.venue_id (payment_of staff b) db in
        (r.0, settle_reply r.1))
    else (db, fail 400 invalid)
