-- ===== src/Bill/Tests.antt =====
-- Runs of the bill, and the theorems at a concrete party.
use restaurant_app.Prelude.{
  ◌≡◌, refl, false, arith, ◌==◌, [], ◌∷◌, some, All, find_first, find_many, order_by,
}
use restaurant_app.Prelude.Int.{pos, ◌+ℤ◌, ◌*ℤ◌, sum_by}
use restaurant_app.Api.{ok}
use restaurant_app.Examples.{waiter, phone, party, party_db}
use restaurant_app.Bill.{
  Bill, add_share, shares_of, phones_from, bill_of, bill_found, owed_orders, order_due, build_bill,
  get_bill, desk_bills,
}
use restaurant_app.Bill.Shares.{build_bill-phones}
use restaurant_app.Bill.DeskList.{row_of, desk_bills-row_of}

billing : Unit {0}
unfolding build_bill bill_found bill_of add_share shares_of phones_from get_bill find_first
    find_many order_by ◌+ℤ◌ ◌*ℤ◌
billing = tt

abbrev bill : Bill
bill = bill_of party_db.items (owed_orders 9 party_db.orders) party

built : build_bill 9 party_db ≡ some bill
unfolding billing
built = refl

split_bill :
    (bill.total_kurus ≡ pos 950)
    × (bill.phones
        ≡ record { session_id = 3; label = 1; total_kurus = pos 700 }
          ∷ record { session_id = 4; label = 2; total_kurus = pos 250 }
          ∷ [])
    × (get_bill (some phone) party_db
        ≡ ok (record {
          bill_requested = false;
          total_kurus = pos 950;
          your_total_kurus = pos 700;
          phone_count = 2;
        }))
unfolding billing
split_bill = (refl, refl, refl)

build_bill-phones_example : sum_by (λ p. p.total_kurus) bill.phones ≡ bill.total_kurus
build_bill-phones_example = build_bill-phones 9 party_db bill built

desk_bills-row_of_example :
    find_many (λ row. row.visit_id == 9) (desk_bills waiter party_db) ≡ row_of bill ∷ []
unfolding bill_of order_by find_many
desk_bills-row_of_example =
    desk_bills-row_of waiter 9 party_db party bill current (omega arith) (unfold billing in refl)
      refl refl built
  where
    current : All (λ o. o.total_kurus ≡ order_due party_db.items o) party_db.orders
    current = unfold find_many ◌+ℤ◌ ◌*ℤ◌ in (refl, (refl, (refl, tt)))
