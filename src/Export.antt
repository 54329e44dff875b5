-- ===== src/Export.antt =====
-- The export of the order log as CSV: src/app/api/admin/orders/export/route.ts. Text is the list of
-- its characters' codes. `iso` is the platform's `toISOString`, `fixed` gives an amount in
-- hundredths as a number with two decimals. An order always has its table.
pub mod Cells
mod Tests
use restaurant_app.Prelude.{
  ℕ, zero, suc, ◌+◌, ◌-◌, ◌*◌, ◌/◌, min, Bool, true, false, not, ◌&&◌, ◌||◌, List, [], ◌∷◌, ◌++◌,
  map, Option, none, some, String, ltb, ◌==◌, if◌then◌else◌, find_many, find_first, order_by,
  includes_id,
}
use restaurant_app.Prelude.Int.{ℤ, pos, ◌*ℤ◌}
use restaurant_app.Prelude.Texts.{Text, codes, join, decimal, decimal_from}
use restaurant_app.Schema.{Db, Order, OrderItem, Table, TableVisit}
use restaurant_app.Schema.Status.{
  OrderStatus, received, accepted, preparing, ready, served, rejected, cancelled,
}
use restaurant_app.Api.{StaffClaims, Reply, ok, fail, unauthorized}
use restaurant_app.OrderLog.{
  Numeric, not_finite, negative, fraction, day_ms, max_days, method_of, visit_by_id, name_of,
}

-- `/^[=+\-@\t\r]/`.
abbrev pub is_trigger : ℕ → Bool
is_trigger c = includes_id (b'=' ∷ b'+' ∷ b'-' ∷ b'@' ∷ 0x09 ∷ 0x0d ∷ []) c

abbrev pub starts_formula : Text → Bool
starts_formula [] = false
starts_formula (c ∷ s) = is_trigger c

abbrev pub safe : Text → Text
safe s = if starts_formula s then 0x27 ∷ s else s

unfoldable pub double_quotes : Text → Text
double_quotes [] = []
double_quotes (c ∷ s) =
    let rest = double_quotes s in if c == 0x22 then 0x22 ∷ 0x22 ∷ rest else c ∷ rest

unfoldable pub esc : Text → Text
unfolding double_quotes
esc s = 0x22 ∷ double_quotes (safe s) ++ 0x22 ∷ []

abbrev csv_header : Text
csv_header =
    codes
      "order_number,created_at,table,status,reject_reason,item,qty,unit_price_try,line_total_try,note,modifiers,order_total_try,payment_status,payment_method,visit_outcome"

abbrev status_text : OrderStatus → Text
status_text received = codes "received"
status_text accepted = codes "accepted"
status_text preparing = codes "preparing"
status_text ready = codes "ready"
status_text served = codes "served"
status_text rejected = codes "rejected"
status_text cancelled = codes "cancelled"

abbrev text_or_empty : Option String → Text
text_or_empty none = []
text_or_empty (some s) = codes s

abbrev outcome_of : Option TableVisit → Option String
outcome_of none = none
outcome_of (some v) = v.closed_reason

-- `join("; ")` of the modifiers' names.
abbrev join_names : List Text → Text
join_names [] = []
join_names (n ∷ []) = n
join_names (n ∷ m ∷ ns) = n ++ codes "; " ++ join_names (m ∷ ns)

abbrev export_range_ms : Numeric → ℕ
export_range_ms not_finite = 30 * day_ms
export_range_ms negative = 30 * day_ms
export_range_ms (fraction top bottom) =
    if top == 0 then 30 * day_ms else min ((top * day_ms + bottom - 1) / bottom) (max_days * day_ms)

module _ (iso : ℕ → Text) (fixed : ℤ → Text) where
  item_cells : Db → Order → OrderItem → List Text
  unfolding esc decimal
  item_cells db o i =
      decimal o.number
      ∷ iso o.created_at
      ∷ esc (codes (name_of (find_first (λ t. t.id == o.table_id) db.tables)))
      ∷ status_text o.status
      ∷ esc (text_or_empty o.reject_reason)
      ∷ esc (codes i.name_snapshot)
      ∷ decimal i.qty
      ∷ fixed i.unit_price_kurus
      ∷ fixed (i.unit_price_kurus *ℤ pos i.qty)
      ∷ esc (codes i.note)
      ∷ esc (join_names (map (λ m. codes m.name) i.modifiers))
      ∷ fixed o.total_kurus
      ∷ (if o.paid then codes "paid" else codes "unpaid")
      ∷ text_or_empty (method_of (visit_by_id o.visit_id db.visits))
      ∷ text_or_empty (outcome_of (visit_by_id o.visit_id db.visits))
      ∷ []

  order_rows : Db → Order → List OrderItem → List Text
  unfolding item_cells join
  order_rows db o [] = []
  order_rows db o (i ∷ is) = join b',' (item_cells db o i) ∷ order_rows db o is

  export_rows : Db → List Order → List Text
  unfolding order_rows
  export_rows db [] = []
  export_rows db (o ∷ os) =
      order_rows db o (find_many (λ i. i.order_id == o.id) db.items) ++ export_rows db os

  pub get_export : Option StaffClaims → (now : ℕ) → Numeric → Db → Reply Text
  unfolding export_rows join
  get_export none now days db = fail 401 unauthorized
  get_export (some staff) now days db =
      let orders =
        order_by (λ o. o.created_at)
          (find_many
            (λ o. (o.venue_id == staff.venue_id) && ltb now (o.created_at + export_range_ms days))
            db.orders) in
      ok (join b'\n' (csv_header ∷ export_rows db orders))
