-- ===== src/Bill.antt =====
-- The bill of a party: `buildBill` of src/lib/visit.ts, the table list of
-- src/app/api/desk/bills/route.ts, and the guest's view of the bill in src/app/api/bill/route.ts.
-- The table's name, which is joined in, is left out; a phone's label "Telefon n" is its number n.
pub mod Phones
pub mod Shares
pub mod DeskList
mod Tests
use restaurant_app.Prelude.{
  ℕ, suc, ◌+◌, Bool, true, false, not, ◌&&◌, ◌||◌, List, [], ◌∷◌, ◌++◌, map, Option, none, some,
  String, ◌==◌, if◌then◌else◌, find_many, find_first, order_by, length, ltb, includes_id,
}
use restaurant_app.Prelude.Int.{ℤ, pos, ◌+ℤ◌, sum_by}
use restaurant_app.Schema.{Db, Order, OrderItem, TableVisit}
use restaurant_app.Schema.Status.{VisitStatus, not_void, is_closed, is_bill_requested}
use restaurant_app.Api.{StaffClaims, ActiveSession, Reply, ok, fail, no_session, no_visit}
use restaurant_app.OrderEdit.{live_items, line_total}

pub record BillLine : Type 0 where
  pub name : String
  pub qty : ℕ
  pub unit_price_kurus : ℤ
  pub line_total_kurus : ℤ
  pub note : String
  pub modifiers : List String

pub record BillPhone : Type 0 where
  pub session_id : ℕ
  pub label : ℕ
  pub total_kurus : ℤ

pub record Bill : Type 0 where
  pub visit_id : ℕ
  pub table_id : ℕ
  pub status : VisitStatus
  pub opened_at : ℕ
  pub bill_requested_at : Option ℕ
  pub lines : List BillLine
  pub total_kurus : ℤ
  pub phones : List BillPhone
  pub order_count : ℕ
  pub order_ids : List ℕ

abbrev pub is_visit : ℕ → TableVisit → Bool
is_visit i v = v.id == i

abbrev pub is_of : ℕ → Option ℕ → Bool
is_of i none = false
is_of i (some j) = j == i

-- An order of the visit that is owed for.
abbrev pub owed : ℕ → Order → Bool
owed visit o = is_of visit o.visit_id && not_void o.status

abbrev pub owed_orders : ℕ → List Order → List Order
owed_orders visit orders = order_by (λ o. o.created_at) (find_many (owed visit) orders)

abbrev pub line_of : OrderItem → BillLine
line_of it = record {
  name = it.name_snapshot;
  qty = it.qty;
  unit_price_kurus = it.unit_price_kurus;
  line_total_kurus = line_total it;
  note = it.note;
  modifiers = map (λ m. m.name) it.modifiers;
}

abbrev pub lines_of : List OrderItem → List Order → List BillLine
lines_of items [] = []
lines_of items (o ∷ os) = map line_of (live_items o.id items) ++ lines_of items os

-- What is owed for one order, from its lines.
abbrev pub order_due : List OrderItem → Order → ℤ
order_due items o = sum_by line_total (live_items o.id items)

-- `perPhone`: a Map keeps its keys in the order in which they were first set.
pub record Share : Type 0 where
  pub session_id : ℕ
  pub total_kurus : ℤ

unfoldable pub add_share : ℕ → ℤ → List Share → List Share
add_share session amount [] = record { session_id = session; total_kurus = amount } ∷ []
add_share session amount (s ∷ shares) =
    let rest = add_share session amount shares in
    if s.session_id == session
    then record s { total_kurus = s.total_kurus +ℤ amount } ∷ shares
    else s ∷ rest

unfoldable pub shares_of : List OrderItem → List Share → List Order → List Share
unfolding add_share
shares_of items shares [] = shares
shares_of items shares (o ∷ os) =
    shares_of items (add_share o.session_id (order_due items o) shares) os

unfoldable pub phones_from : ℕ → List Share → List BillPhone
phones_from k [] = []
phones_from k (s ∷ shares) =
    record { session_id = s.session_id; label = k; total_kurus = s.total_kurus }
    ∷ phones_from (suc k) shares

unfoldable pub bill_of : List OrderItem → List Order → TableVisit → Bill
unfolding shares_of phones_from
bill_of items orders v =
    let lines = lines_of items orders in
    record {
      visit_id = v.id;
      table_id = v.table_id;
      status = v.status;
      opened_at = v.opened_at;
      bill_requested_at = v.bill_requested_at;
      lines = lines;
      total_kurus = sum_by (λ l. l.line_total_kurus) lines;
      phones = phones_from 1 (shares_of items [] orders);
      order_count = length orders;
      order_ids = map (λ o. o.id) orders;
    }

unfoldable pub bill_found : List OrderItem → List Order → Option TableVisit → Option Bill
unfolding bill_of
bill_found items orders none = none
bill_found items orders (some v) = some (bill_of items orders v)

unfoldable pub build_bill : ℕ → Db → Option Bill
unfolding bill_found
build_bill i db = bill_found db.items (owed_orders i db.orders) (find_first (is_visit i) db.visits)

-- A row of the desk's list of tables, from the stored totals of the orders. The list's order is left
-- out.
pub record TableBill : Type 0 where
  pub visit_id : ℕ
  pub table_id : ℕ
  pub status : VisitStatus
  pub opened_at : ℕ
  pub bill_requested_at : Option ℕ
  pub total_kurus : ℤ
  pub order_count : ℕ
  pub phone_count : ℕ

-- `new Set(ids).size`.
pub distinct_count : List ℕ → ℕ
distinct_count [] = 0
distinct_count (i ∷ ids) =
    let rest = distinct_count ids in if includes_id ids i then rest else suc rest

pub table_bill : List Order → TableVisit → TableBill
unfolding distinct_count
table_bill orders v =
    let mine = find_many (owed v.id) orders in
    record {
      visit_id = v.id;
      table_id = v.table_id;
      status = v.status;
      opened_at = v.opened_at;
      bill_requested_at = v.bill_requested_at;
      total_kurus = sum_by (λ o. o.total_kurus) mine;
      order_count = length mine;
      phone_count = distinct_count (map (λ o. o.session_id) mine);
    }

abbrev pub on_list : TableBill → Bool
on_list b = ltb 0 b.order_count || is_bill_requested b.status

pub desk_bills : StaffClaims → Db → List TableBill
unfolding table_bill
desk_bills staff db = find_many on_list (
    map (table_bill db.orders)
      (find_many (λ v. (v.venue_id == staff.venue_id) && not (is_closed v.status)) db.visits))

-- The guest's view: the table's total and the share of the phone.
pub record BillView : Type 0 where
  pub bill_requested : Bool
  pub total_kurus : ℤ
  pub your_total_kurus : ℤ
  pub phone_count : ℕ

share_or_zero : Option BillPhone → ℤ
share_or_zero none = pos 0
share_or_zero (some p) = p.total_kurus

is_some : Option ℕ → Bool
is_some none = false
is_some (some _) = true

view_of : ℕ → Option Bill → Reply BillView
unfolding share_or_zero is_some
view_of session none = fail 409 no_visit
view_of session (some b) = ok (record {
  bill_requested = is_some b.bill_requested_at;
  total_kurus = b.total_kurus;
  your_total_kurus = share_or_zero (find_first (λ p. p.session_id == session) b.phones);
  phone_count = length b.phones;
})

view_visit : ℕ → Option ℕ → Db → Reply BillView
unfolding view_of build_bill
view_visit session none db = fail 409 no_visit
view_visit session (some v) db = view_of session (build_bill v db)

pub get_bill : Option ActiveSession → Db → Reply BillView
unfolding view_visit
get_bill none db = fail 401 no_session
get_bill (some s) db = view_visit s.id s.visit_id db
