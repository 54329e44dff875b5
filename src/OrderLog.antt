-- ===== src/OrderLog.antt =====
-- The admin's log of orders, page by page: src/lib/pagination.ts and
-- src/app/api/admin/orders/route.ts. A number read off the query string is `Numeric`. The
-- database's `cursor` with `skip: 1` starts after the row that it names, and gives nothing if there
-- is no such row among those asked for.
pub mod Pages
pub mod Limits
mod Tests
use restaurant_app.Prelude.{
  ℕ, zero, suc, ◌+◌, ◌-◌, ◌*◌, ◌/◌, min, Bool, true, false, ◌&&◌, ◌||◌, List, [], ◌∷◌, map, Option,
  none, some, String, ltb, leb, ◌==◌, if◌then◌else◌, find_many, find_first, length, take,
}
use restaurant_app.Prelude.Int.{ℤ}
use restaurant_app.Schema.{Db, Order, OrderItem, Table, TableVisit}
use restaurant_app.Schema.Status.{OrderStatus}
use restaurant_app.Api.{StaffClaims, Reply, ok, fail, unauthorized, uncaught}

abbrev pub order_page_size : ℕ
order_page_size = 50

abbrev pub order_max_page_size : ℕ
order_max_page_size = 200

-- `Number(raw)`: not finite, below zero, or the fraction `top / bottom`, whose bottom is not zero.
pub data Numeric : Type 0 where
  not_finite negative : Numeric
  fraction : (top bottom : ℕ) → Numeric

pub page_limit : Numeric → ℕ
page_limit not_finite = order_page_size
page_limit negative = order_page_size
page_limit (fraction top bottom) =
    if top == 0 then order_page_size else min (top / bottom) order_max_page_size

pub record Page (A : Type 0) : Type 0 where
  pub items : List A
  pub next_cursor : Option ℕ

abbrev pub last_of : {A : Type 0} → List A → Option A
last_of [] = none
last_of (x ∷ []) = some x
last_of (x ∷ y ∷ ys) = last_of (y ∷ ys)

-- The read of the last item's id throws if there is none.
abbrev pub page_ending : {A : Type 0} → (A → ℕ) → List A → Option A → Option (Page A)
page_ending id items none = none
page_ending id items (some x) = some (record { items = items; next_cursor = some (id x) })

pub split_page : {A : Type 0} → (A → ℕ) → List A → ℕ → Option (Page A)
split_page id rows limit =
    if leb (length rows) limit
    then some (record { items = rows; next_cursor = none })
    else page_ending id (take limit rows) (last_of (take limit rows))

abbrev pub max_days : ℕ
max_days = 365

abbrev pub day_ms : ℕ
day_ms = 86_400_000

-- How far back the log goes. `new Date` cuts the fraction of a millisecond off.
range_ms : Numeric → ℕ
range_ms not_finite = 7 * day_ms
range_ms negative = 7 * day_ms
range_ms (fraction top bottom) =
    if top == 0 then 7 * day_ms else min ((top * day_ms + bottom - 1) / bottom) (max_days * day_ms)

-- `orderBy: [{ createdAt: "desc" }, { id: "desc" }]`.
abbrev newer : Order → Order → Bool
newer a b = ltb b.created_at a.created_at || (a.created_at == b.created_at) && ltb b.id a.id

insert_newer : Order → List Order → List Order
insert_newer o [] = o ∷ []
insert_newer o (p ∷ ps) = let rest = insert_newer o ps in if newer o p then o ∷ p ∷ ps else p ∷ rest

sort_newer : List Order → List Order
unfolding insert_newer
sort_newer [] = []
sort_newer (o ∷ os) = insert_newer o (sort_newer os)

pub order_log : (venue now : ℕ) → Numeric → List Order → List Order
unfolding sort_newer range_ms
order_log venue now days orders =
    sort_newer
      (find_many (λ o. (o.venue_id == venue) && ltb now (o.created_at + range_ms days)) orders)

pub after_cursor : {A : Type 0} → (A → ℕ) → ℕ → List A → List A
after_cursor id c [] = []
after_cursor id c (x ∷ xs) = let rest = after_cursor id c xs in if id x == c then xs else rest

pub from_cursor : {A : Type 0} → (A → ℕ) → Option ℕ → List A → List A
unfolding after_cursor
from_cursor id none xs = xs
from_cursor id (some c) xs = after_cursor id c xs

abbrev pub read_page : {A : Type 0} → (A → ℕ) → ℕ → Option ℕ → List A → Option (Page A)
read_page id limit cursor rows = split_page id (take (limit + 1) (from_cursor id cursor rows)) limit

-- An item's name and quantity.
pub record LogItem : Type 0 where
  pub name : String
  pub qty : ℕ

pub record LogRow : Type 0 where
  pub id : ℕ
  pub number : ℕ
  pub status : OrderStatus
  pub paid : Bool
  pub payment_method : Option String
  pub total_kurus : ℤ
  pub created_at : ℕ
  pub table_name : String
  pub items : List LogItem

abbrev pub method_of : Option TableVisit → Option String
method_of none = none
method_of (some v) = v.payment_method

abbrev pub visit_by_id : Option ℕ → List TableVisit → Option TableVisit
visit_by_id none visits = none
visit_by_id (some i) visits = find_first (λ v. v.id == i) visits

-- A row always has its table.
abbrev pub name_of : Option Table → String
name_of none = ""
name_of (some t) = t.name

abbrev log_item : OrderItem → LogItem
log_item i = record { name = i.name_snapshot; qty = i.qty }

abbrev log_row : Db → Order → LogRow
log_row db o = record {
  id = o.id;
  number = o.number;
  status = o.status;
  paid = o.paid;
  payment_method = method_of (visit_by_id o.visit_id db.visits);
  total_kurus = o.total_kurus;
  created_at = o.created_at;
  table_name = name_of (find_first (λ t. t.id == o.table_id) db.tables);
  items = map log_item (find_many (λ i. i.order_id == o.id) db.items);
}

page_reply : Db → Option (Page Order) → Reply (Page LogRow)
page_reply db none = fail 500 uncaught
page_reply db (some p) =
    ok (record { items = map (log_row db) p.items; next_cursor = p.next_cursor })

pub get_orders :
    Option StaffClaims
    → (now : ℕ) → (days limit : Numeric) → (cursor : Option ℕ) → Db
    → Reply (Page LogRow)
unfolding page_reply page_limit split_page order_log from_cursor
get_orders none now days limit cursor db = fail 401 unauthorized
get_orders (some staff) now days limit cursor db =
    page_reply db (
      read_page (λ o. o.id) (page_limit limit) cursor (order_log staff.venue_id now days db.orders))
