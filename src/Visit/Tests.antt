-- ===== src/Visit/Tests.antt =====
-- Runs of the visit of a party, and the theorems at concrete inputs.
use restaurant_app.Prelude.{
  ◌≡◌, refl, true, false, [], ◌∷◌, some, arith, find_first, find_many, count, update_many, order_by,
}
use restaurant_app.Prelude.Int.{pos, ◌+ℤ◌, ◌*ℤ◌}
use restaurant_app.Schema.{Db}
use restaurant_app.Bill.{add_share, shares_of, phones_from, bill_of, bill_found, build_bill}
use restaurant_app.Examples.{party, party_db}
use restaurant_app.Visit.{
  Payment, settled, already_closed, not_found, orders_in_flight, new_visit, open_create, open_check,
  open_or_join, settle_visit, settle_found, settle_write, request_bill, clear_bill_request,
  request_found, clear_found,
}
use restaurant_app.Visit.Opening.{HasJoined, open_or_join-HasJoined, two_scans}
use restaurant_app.Visit.Settlement.{settle_visit_twice}
use restaurant_app.Visit.Till.{IsPaidUp, settle_visit-IsPaidUp}
use restaurant_app.Reporting.{period_report}
use restaurant_app.Reporting.Takings.{TakesIn, settle_visit-TakesIn}

settling : Unit {0}
unfolding settle_visit settle_found settle_write build_bill bill_found bill_of add_share shares_of
    phones_from request_bill request_found clear_bill_request clear_found find_first find_many count
    update_many order_by ◌+ℤ◌ ◌*ℤ◌
settling = tt

abbrev cash : Payment
cash = record {
  payment_method = "cash";
  paid_amount_kurus = some (pos 1_000);
  staff_id = 1;
  force = true;
}

abbrev paid_db : Db
paid_db = (settle_visit 8_000 9 1 cash party_db).0

taken : settle_visit 8_000 9 1 cash party_db ≡ (paid_db, settled (pos 950))
unfolding settling
taken = refl

refusals :
    ((settle_visit 8_000 9 1 (record cash { force = false }) party_db).1 ≡ orders_in_flight)
    × ((settle_visit 8_000 9 2 cash party_db).1 ≡ not_found)
    × ((clear_bill_request 9 1 party_db).1 ≡ false)
unfolding settling
refusals = (refl, refl, refl)

settle_visit_twice_example : settle_visit 8_100 9 1 cash paid_db ≡ (paid_db, already_closed)
settle_visit_twice_example =
    settle_visit_twice 8_000 9 1 cash party_db paid_db (pos 950) 8_100 cash taken

settle_visit-IsPaidUp_example : IsPaidUp 9 cash party_db paid_db (pos 950)
settle_visit-IsPaidUp_example =
    settle_visit-IsPaidUp 8_000 9 1 cash party_db paid_db (pos 950) (omega arith) taken

open_or_join-HasJoined_example : HasJoined 2 (open_or_join (new_visit 10 2 1 600) (party ∷ []))
open_or_join-HasJoined_example =
    open_or_join-HasJoined 10 2 1 600 (party ∷ []) (unfold find_many in omega arith)

two_scans_example :
    let both =
      open_create (new_visit 12 3 1 610) (open_create (new_visit 11 3 1 600) (party ∷ [])) in
    let alone = open_create (new_visit 11 3 1 600) (party ∷ []) in
    ((open_check (new_visit 11 3 1 600) both).1 ≡ 11)
    × (open_check (new_visit 12 3 1 610) (open_check (new_visit 11 3 1 600) both).0 ≡ (alone, 11))
    × (open_check (new_visit 11 3 1 600) (open_check (new_visit 12 3 1 610) both).0 ≡ (alone, 11))
    × ((open_check (new_visit 12 3 1 610) both).1 ≡ 11)
    × ((open_check (new_visit 11 3 1 600) alone).1 ≡ 11)
    × (open_check
          (new_visit 12 3 1 610)
          (open_create (new_visit 12 3 1 610) (open_check (new_visit 11 3 1 600) alone).0)
        ≡ (alone, 11))
two_scans_example =
    two_scans 11 12 3 1 600 610 (party ∷ []) (unfold find_many in refl) (omega arith)
      (λ e. omega arith) (omega arith)

settle_visit-TakesIn_example :
    TakesIn cash
      (pos 1_000)
      (period_report 1 5_000 9_000 party_db)
      (period_report 1 5_000 9_000 paid_db)
settle_visit-TakesIn_example =
    settle_visit-TakesIn 8_000 9 1 cash party_db paid_db (pos 950) 5_000 9_000 (tt, tt)
      (omega arith) (omega arith) taken
