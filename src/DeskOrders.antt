-- ===== src/DeskOrders.antt =====
-- The list of orders at the desk: src/app/api/desk/orders/route.ts.
mod Tests
use restaurant_app.Prelude.{
  ℕ, ◌+◌, Bool, true, false, ◌&&◌, List, [], ◌∷◌, map, Option, none, some, String, ltb, ◌==◌,
  if◌then◌else◌, find_many, find_first, order_by,
}
use restaurant_app.Prelude.Int.{ℤ}
use restaurant_app.Schema.{
  Db, Order, OrderItem, OrderEdit, LineChange, PosDelivery, ModifierSnapshot,
}
use restaurant_app.Schema.Status.{OrderStatus, DeliveryStatus, in_flight}
use restaurant_app.Api.{StaffClaims, ActiveSession, Reply, ok, fail, unauthorized, no_session}
use restaurant_app.OrderEdit.{live_items}
use restaurant_app.Bill.{is_of}
use restaurant_app.OrderLog.{name_of}

abbrev one_day_ms : ℕ
one_day_ms = 86_400_000

pub record DeskItem : Type 0 where
  pub id : ℕ
  pub name : String
  pub qty : ℕ
  pub note : String
  pub modifiers : List String

pub record DeskEdit : Type 0 where
  pub staff_name : String
  pub after_print : Bool
  pub changes : List LineChange

pub record DeskOrder : Type 0 where
  pub id : ℕ
  pub number : ℕ
  pub status : OrderStatus
  pub reject_reason : Option String
  pub total_kurus : ℤ
  pub created_at : ℕ
  pub table_name : String
  pub table_id : ℕ
  pub new_session : Bool
  pub pos_status : Option DeliveryStatus
  pub items : List DeskItem
  pub edits : List DeskEdit

-- `all` is the last day's, otherwise what is in flight.
abbrev shown_at_desk : Bool → (venue now : ℕ) → Order → Bool
shown_at_desk all venue now o =
    (o.venue_id == venue)
    && (if all then ltb now (o.created_at + one_day_ms) else in_flight o.status)

-- The first order of its session among those that are listed.
abbrev is_that_order : ℕ → Option Order → Bool
is_that_order i none = false
is_that_order i (some o) = o.id == i

abbrev is_first_listed : List Order → Order → Bool
is_first_listed orders o =
    is_that_order o.id (find_first (λ p. p.session_id == o.session_id) orders)

-- `orderBy: { createdAt: "desc" }, take: 1`.
newest_delivery : List PosDelivery → Option PosDelivery
newest_delivery [] = none
newest_delivery (d ∷ ds) = elim (newest_delivery ds) [
  | none ↦ some d
  | some e ↦ if ltb e.created_at d.created_at then some d else some e
]

abbrev delivery_status : Option PosDelivery → Option DeliveryStatus
delivery_status none = none
delivery_status (some d) = some d.status

abbrev desk_item : OrderItem → DeskItem
desk_item i = record {
  id = i.id;
  name = i.name_snapshot;
  qty = i.qty;
  note = i.note;
  modifiers = map (λ m. m.name) i.modifiers;
}

abbrev desk_edit : OrderEdit → DeskEdit
desk_edit e = record { staff_name = e.staff_name; after_print = e.after_print; changes = e.changes }

desk_order : Db → List Order → Order → DeskOrder
unfolding newest_delivery
desk_order db orders o = record {
  id = o.id;
  number = o.number;
  status = o.status;
  reject_reason = o.reject_reason;
  total_kurus = o.total_kurus;
  created_at = o.created_at;
  table_name = name_of (find_first (λ t. t.id == o.table_id) db.tables);
  table_id = o.table_id;
  new_session = is_first_listed orders o;
  pos_status =
      delivery_status (newest_delivery (find_many (λ d. d.order_id == o.id) db.deliveries));
  items = map desk_item (live_items o.id db.items);
  edits =
      map desk_edit (order_by (λ e. e.created_at) (find_many (λ e. e.order_id == o.id) db.edits));
}

pub get_desk_orders : Option StaffClaims → (all : Bool) → (now : ℕ) → Db → Reply (List DeskOrder)
unfolding desk_order
get_desk_orders none all now db = fail 401 unauthorized
get_desk_orders (some staff) all now db =
    let orders =
      order_by (λ o. o.created_at) (find_many (shown_at_desk all staff.venue_id now) db.orders) in
    ok (map (desk_order db orders) orders)
