-- ===== src/Examples.antt =====
-- A small restaurant for the tests: one venue, one table, a menu, a waiter, a phone, two orders.
use restaurant_app.Prelude.{◌+◌, ℕ, true, false, [], ◌∷◌, none, some}
use restaurant_app.Prelude.Int.{pos, negsuc}
use restaurant_app.Schema.{
  TableVisit, TableSession, Db, Order, OrderItem, MenuItem, ModifierGroup, ModifierOption,
}
use restaurant_app.Schema.Status.{opened, served, ready, cancelled, OrderStatus, received, accepted}
use restaurant_app.Api.{StaffClaims, ActiveSession, Client, desk}

abbrev pub waiter : StaffClaims
waiter = record { sub = 1; venue_id = 1; role = desk; name = "Ayşe"; ver = 0 }

abbrev pub phone : ActiveSession
phone = record {
  id = 3;
  venue_id = 1;
  table_id = 2;
  table_code = "A1";
  table_name = "Masa 1";
  visit_id = some 9;
}

abbrev pub browser : Client
browser = record { ip = "10.0.0.7"; user_agent = "Safari" }

abbrev pub order_at : (id number : ℕ) → OrderStatus → Order
order_at id number status = record {
  id = id;
  venue_id = 1;
  table_id = 2;
  session_id = 3;
  visit_id = some 9;
  number = number;
  status = status;
  reject_reason = none;
  total_kurus = pos 700;
  paid = false;
  payment_provider = none;
  idempotency_key = none;
  created_at = 1_000;
}

abbrev pub coffee_row : (id order qty : ℕ) → OrderItem
coffee_row id order qty = record {
  id = id;
  order_id = order;
  item_id = some 5;
  name_snapshot = "Kahve";
  unit_price_kurus = pos 250;
  qty = qty;
  note = "";
  modifiers = [];
  voided_at = none;
}

abbrev pub tea_row : (id order : ℕ) → OrderItem
tea_row id order = record {
  id = id;
  order_id = order;
  item_id = some 6;
  name_snapshot = "Çay";
  unit_price_kurus = pos 200;
  qty = 1;
  note = "";
  modifiers = [];
  voided_at = none;
}

abbrev oat_milk : ModifierOption
oat_milk = record { id = 70; name_tr = "Yulaf"; price_delta_kurus = pos 50 }

abbrev small_cup : ModifierOption
small_cup = record { id = 71; name_tr = "Küçük"; price_delta_kurus = negsuc 29 }

abbrev extras : ModifierGroup
extras = record { id = 7; min_select = 0; max_select = 2; options = oat_milk ∷ small_cup ∷ [] }

abbrev pub coffee : MenuItem
coffee = record {
  id = 5;
  venue_id = 1;
  name_tr = "Kahve";
  price_kurus = pos 250;
  available = true;
  modifier_groups = extras ∷ [];
}

abbrev pub empty_db : Db
empty_db = record {
  tables = [];
  menu = coffee ∷ [];
  sessions = [];
  visits = [];
  orders = [];
  items = [];
  edits = [];
  deliveries = [];
  attempts = [];
  events = [];
  jobs = [];
}

-- An accepted order of two coffees and a tea, and one just received.
abbrev pub busy_db : Db
busy_db = record empty_db {
  orders = order_at 10 1 accepted ∷ order_at 11 2 received ∷ [];
  items = coffee_row 20 10 2 ∷ tea_row 21 10 ∷ coffee_row 22 11 1 ∷ [];
}

abbrev pub party : TableVisit
party = record {
  id = 9;
  venue_id = 1;
  table_id = 2;
  status = opened;
  opened_at = 500;
  bill_requested_at = none;
  closed_at = none;
  closed_reason = none;
  total_kurus = none;
  payment_method = none;
  paid_amount_kurus = none;
  closed_by_staff_id = none;
}

abbrev guest : (id : ℕ) → TableSession
guest id = record {
  id = id;
  venue_id = 1;
  table_id = 2;
  token = 77 + id;
  visit_id = some 9;
  created_at = 500;
  last_seen_at = 900;
  expires_at = 9_000_000;
  revoked_at = none;
}

-- A party with two phones, an order from each, and one that it withdrew.
abbrev pub party_db : Db
party_db = record busy_db {
  visits = party ∷ [];
  sessions = guest 3 ∷ guest 4 ∷ [];
  orders =
      order_at 10 1 served
      ∷ record (order_at 11 2 ready) { total_kurus = pos 250; session_id = 4 }
      ∷ record (order_at 12 3 cancelled) { total_kurus = pos 0 }
      ∷ [];
}
