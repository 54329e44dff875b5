-- ===== src/Bill/DeskList.antt =====
-- The desk's list of tables (src/app/api/desk/bills/route.ts) against the itemised bill
-- (src/lib/visit.ts).
use restaurant_app.Prelude.{
  ℕ, ◌≡◌, ◌≢◌, refl, sym, ap, ◌∙◌, inl, inr, Bool, true, false, not, ◌&&◌, ◌||◌, List, [], ◌∷◌, map,
  some, arith, ltb, ◌==◌, if◌then◌else◌, All, find_many, find_first, Bool-cases, length,
}
use restaurant_app.Prelude.Int.{sum_by}
use restaurant_app.Prelude.Rows.{Distinct, find_first_passes}
use restaurant_app.Schema.{Db, Order, TableVisit}
use restaurant_app.Schema.Status.{is_closed, is_bill_requested}
use restaurant_app.Api.{StaffClaims}
use restaurant_app.Bill.{
  Bill, TableBill, is_visit, order_due, owed_orders, on_list, bill_of, bill_found, build_bill,
  table_bill, desk_bills, owed, distinct_count,
}
use restaurant_app.Bill.Phones.{length-phones, length-order_by}
use restaurant_app.Bill.Shares.{build_bill-total}

-- The row that an itemised bill comes to.
pub row_of : Bill → TableBill
row_of b = record {
  visit_id = b.visit_id;
  table_id = b.table_id;
  status = b.status;
  opened_at = b.opened_at;
  bill_requested_at = b.bill_requested_at;
  total_kurus = b.total_kurus;
  order_count = b.order_count;
  phone_count = length b.phones;
}

find_many-Distinct :
    (i : ℕ) (vs : List TableVisit) {v : TableVisit}
    → Distinct (λ v. v.id) vs
    → find_first (is_visit i) vs ≡ some v
    → find_many (is_visit i) vs ≡ v ∷ []
unfolding find_many find_first
find_many-Distinct i [] d e = cc
find_many-Distinct i (w ∷ vs) (d, ds) e = elim (Bool-cases (is_visit i w)) [
  | inl hit ↦
      let first : w ≡ _ = ground (arith, rw hit at e) in
      rw hit (ap (λ rest. w ∷ rest) (others w vs hit d) ∙ ap (λ u. u ∷ []) first)
  | inr miss ↦ rw miss (find_many-Distinct i vs ds (rw miss at e))
]
  where
    others :
        (w : TableVisit) (vs : List TableVisit)
        → is_visit i w ≡ true
        → All (λ y. w.id ≢ y.id) vs
        → find_many (is_visit i) vs ≡ []
    others w [] hit d = refl
    others w (y ∷ ys) hit (d, ds) = ground (arith, hit, d, others w ys hit ds)

module _ (staff : StaffClaims) (i : ℕ) (orders : List Order) where
  abbrev listed : TableVisit → Bool
  listed v = (v.venue_id == staff.venue_id) && not (is_closed v.status)

  rows_of :
      (vs : List TableVisit)
      → find_many
          (λ r. r.visit_id == i)
          (find_many on_list (map (table_bill orders) (find_many listed vs)))
        ≡ find_many on_list (map (table_bill orders) (find_many listed (find_many (is_visit i) vs)))
  unfolding find_many table_bill
  rows_of [] = refl
  rows_of (v ∷ vs) = ground (arith, rows_of vs)

table_bill-row_of :
    (i : ℕ) (db : Db) (v : TableVisit) (b : Bill)
    → All (λ o. o.total_kurus ≡ order_due db.items o) db.orders
    → find_first (is_visit i) db.visits ≡ some v
    → build_bill i db ≡ some b
    → table_bill db.orders v ≡ row_of b
unfolding table_bill row_of build_bill bill_found bill_of
table_bill-row_of i db v b h there e =
    let same_id : v.id ≡ i = ground (arith, find_first_passes (is_visit i) db.visits there) in
    let is : b ≡ bill_of db.items (owed_orders i db.orders) v = ground (arith, rw there at e) in
    let total : sum_by (λ o. o.total_kurus) (find_many (owed i) db.orders) ≡ b.total_kurus =
      sym (build_bill-total i db b h e) in
    let orders : length (find_many (owed i) db.orders) ≡ b.order_count =
      rw is (sym (length-order_by (λ o. o.created_at) (find_many (owed i) db.orders))) in
    let phones : distinct_count (map (λ o. o.session_id) (find_many (owed i) db.orders))
        ≡ length b.phones =
      rw is (sym (length-phones db.items (λ o. o.created_at) (find_many (owed i) db.orders))) in
    rw same_id (ground (arith, is, total, orders, phones))

-- If the stored total of every order is that of its live items, the desk's list of tables agrees with
-- the itemised bill of each visit of the venue that is not closed. The visit has exactly one row on
-- the list if its bill has an order or has been asked for, and none otherwise. The row shows the
-- bill's total, its status and times, and how many orders and phones it has. Visits have unique ids.
pub desk_bills-row_of :
    (staff : StaffClaims) (i : ℕ) (db : Db) (v : TableVisit) (b : Bill)
    → All (λ o. o.total_kurus ≡ order_due db.items o) db.orders
    → Distinct (λ v. v.id) db.visits
    → find_first (is_visit i) db.visits ≡ some v
    → v.venue_id ≡ staff.venue_id
    → is_closed v.status ≡ false
    → build_bill i db ≡ some b
    → find_many (λ row. row.visit_id == i) (desk_bills staff db)
      ≡ (if ltb 0 b.order_count || is_bill_requested b.status then row_of b ∷ [] else [])
unfolding desk_bills
desk_bills-row_of staff i db v b h ids there own still_open e =
    rows_of staff i db.orders db.visits
    ∙ rw (find_many-Distinct i db.visits ids there) (
        ap (λ vs. find_many on_list (map (table_bill db.orders) vs)) alone
        ∙ ap (λ row. find_many on_list (row ∷ [])) (table_bill-row_of i db v b h there e)
        ∙ unfold find_many row_of in refl)
  where
    alone : find_many (listed staff i db.orders) (v ∷ []) ≡ v ∷ []
    alone = unfold find_many in ground (arith, own, still_open)
