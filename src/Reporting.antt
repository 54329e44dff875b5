-- ===== src/Reporting.antt =====
-- The figures of the admin screen: src/lib/reporting.ts. The bounds of a period are arguments; what
-- `dayBounds` takes from the server's calendar and the percentage of a change, which is computed in
-- floating point, are left out.
pub mod Takings
use restaurant_app.Prelude.{
  ℕ, suc, ◌+◌, ◌-◌, ◌*◌, ◌/◌, Bool, true, false, not, ◌&&◌, ◌||◌, List, [], ◌∷◌, Option, none, some,
  String, ltb, leb, ◌==◌, if◌then◌else◌, find_many, count, any, length, str_eq,
}
use restaurant_app.Prelude.Int.{ℤ, pos, negsuc, sum_by}
use restaurant_app.Schema.{Db, Order, OrderItem, TableVisit}
use restaurant_app.Schema.Status.{rejected, is_status, not_void, is_closed, is_bill_requested}
use restaurant_app.Bill.{owed}

pub record PeriodReport : Type 0 where
  pub settled_kurus : ℤ
  pub cash_kurus : ℤ
  pub card_kurus : ℤ
  pub settled_visits : ℕ
  pub avg_check_kurus : ℤ
  pub orders_placed : ℕ
  pub orders_rejected : ℕ
  pub items_sold : ℕ

abbrev pub within : ℕ → ℕ → ℕ → Bool
within from to t = leb from t && ltb t to

abbrev pub at_within : ℕ → ℕ → Option ℕ → Bool
at_within from to none = false
at_within from to (some t) = within from to t

abbrev pub text_is : String → Option String → Bool
text_is k none = false
text_is k (some j) = str_eq j k

-- A visit that was settled in the period.
unfoldable pub is_taken : (venue from to : ℕ) → TableVisit → Bool
is_taken venue from to v =
    (v.venue_id == venue)
    && is_closed v.status
    && text_is "settled" v.closed_reason
    && at_within from to v.closed_at

abbrev or_zero : Option ℤ → ℤ
or_zero none = pos 0
or_zero (some a) = a

abbrev first_amount : Option ℤ → Option ℤ → ℤ
first_amount none total = or_zero total
first_amount (some paid) total = paid

abbrev pub amount_of : TableVisit → ℤ
amount_of v = first_amount v.paid_amount_kurus v.total_kurus

-- `Math.round(a / n)`: the nearest integer, the upper one of two.
pub round_div : ℤ → ℕ → ℤ
round_div (pos a) n = pos ((2 * a + n) / (2 * n))
round_div (negsuc a) n =
    if leb (2 * suc a) n then pos 0 else negsuc ((2 * suc a - n + 2 * n - 1) / (2 * n) - 1)

abbrev average : ℤ → ℕ → ℤ
average total n = if ltb 0 n then round_div total n else pos 0

abbrev pub placed_in : (venue from to : ℕ) → Order → Bool
placed_in venue from to o = (o.venue_id == venue) && within from to o.created_at

-- An item of an order that counts.
abbrev pub sold_in : (venue from to : ℕ) → List Order → OrderItem → Bool
sold_in venue from to orders i =
    any (λ o. (o.id == i.order_id) && (placed_in venue from to o && not_void o.status)) orders

unfoldable pub sum_qty : List OrderItem → ℕ
sum_qty [] = 0
sum_qty (i ∷ is) = i.qty + sum_qty is

unfoldable pub period_report : (venue from to : ℕ) → Db → PeriodReport
unfolding round_div
period_report venue from to db =
    let visits = find_many (is_taken venue from to) db.visits in
    let settled = sum_by amount_of visits in
    record {
      settled_kurus = settled;
      cash_kurus = sum_by amount_of (find_many (λ v. text_is "cash" v.payment_method) visits);
      card_kurus = sum_by amount_of (find_many (λ v. text_is "card" v.payment_method) visits);
      settled_visits = length visits;
      avg_check_kurus = average settled (length visits);
      orders_placed = count (placed_in venue from to) db.orders;
      orders_rejected =
          count (λ o. placed_in venue from to o && is_status o.status rejected) db.orders;
      items_sold = sum_qty (find_many (sold_in venue from to db.orders) db.items);
    }

pub record OpenTablesSummary : Type 0 where
  pub count : ℕ
  pub running_kurus : ℤ
  pub bill_requested : ℕ

abbrev pub sitting : ℕ → TableVisit → Bool
sitting venue v = (v.venue_id == venue) && not (is_closed v.status)

abbrev pub running : List Order → TableVisit → ℤ
running orders v = sum_by (λ o. o.total_kurus) (find_many (owed v.id) orders)

unfoldable pub open_tables : ℕ → Db → OpenTablesSummary
open_tables venue db =
    let visits = find_many (sitting venue) db.visits in
    record {
      count = length visits;
      running_kurus = sum_by (running db.orders) visits;
      bill_requested = length (find_many (λ v. is_bill_requested v.status) visits);
    }
