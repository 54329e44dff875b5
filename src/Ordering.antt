-- ===== src/Ordering.antt =====
-- Placing an order: the POST handler of app/api/orders/route.ts (under src/), with the creation loop
-- `createOrderWithNextNumber`. What the database does by itself is its two unique indexes,
-- (venueId, number) and (sessionId, idempotencyKey): an insert that breaks one is refused, and
-- `key_first` says which of the two it reports when both are broken. `between k` is what other
-- requests do to the database between the read and the insert of the creation loop's round `k`.
-- The ids of the new rows are given: `new_ids 0` for the order, the others for its items.
pub mod Insert
pub mod Accepted
pub mod Numbers
pub mod Limits
pub mod Replay
pub mod Total
mod Tests
use restaurant_app.Prelude.{
  ℕ, zero, suc, ◌+◌, ◌≡◌, Bool, true, false, not, ◌&&◌, ◌||◌, List, [], ◌∷◌, ◌++◌, Option, none,
  some, String, ltb, leb, max, ◌==◌, if◌then◌else◌, find_first, count, any, str_eq,
}
use restaurant_app.Prelude.Int.{ℤ}
use restaurant_app.Schema.{Db, Order, OrderItem, order_created}
use restaurant_app.Schema.Status.{received, in_flight}
use restaurant_app.Api.{
  ActiveSession, Client, Reply, ok, fail, no_session, invalid_order, rate_limited, item_unavailable,
  invalid_modifiers, order_failed, uncaught, publish, log_attempt, subject_of, nobody,
}
use restaurant_app.Pricing.{
  OrderInput, PricedLine, Priced, priced, unavailable, unknown_option, bad_modifiers, valid_order,
  offered, price_all, order_total,
}

abbrev pub max_orders_per_session_window : ℕ
max_orders_per_session_window = 5

abbrev pub session_window_ms : ℕ
session_window_ms = 600_000

abbrev pub max_open_orders_per_table : ℕ
max_open_orders_per_table = 10

abbrev pub number_retries : ℕ
number_retries = 5

-- The argument of `createOrderWithNextNumber`.
pub record NewOrder : Type 0 where
  pub venue_id : ℕ
  pub table_id : ℕ
  pub session_id : ℕ
  pub visit_id : Option ℕ
  pub total_kurus : ℤ
  pub idempotency_key : Option String
  pub items : List PricedLine

-- The highest ticket number of the venue, 0 if it has no order.
pub last_number : ℕ → List Order → ℕ
last_number venue [] = 0
last_number venue (o ∷ os) =
    let rest = last_number venue os in if o.venue_id == venue then max o.number rest else rest

abbrev pub has_number : ℕ → ℕ → Order → Bool
has_number venue n o = (o.venue_id == venue) && (o.number == n)

abbrev key_eq : Option String → String → Bool
key_eq none k = false
key_eq (some j) k = str_eq j k

abbrev pub has_key : ℕ → String → Order → Bool
has_key session k o = (o.session_id == session) && key_eq o.idempotency_key k

abbrev pub key_taken : ℕ → Option String → List Order → Bool
key_taken session none orders = false
key_taken session (some k) orders = any (has_key session k) orders

pub order_row : ℕ → ℕ → ℕ → NewOrder → Order
order_row id n now new = record {
  id = id;
  venue_id = new.venue_id;
  table_id = new.table_id;
  session_id = new.session_id;
  visit_id = new.visit_id;
  number = n;
  status = received;
  reject_reason = none;
  total_kurus = new.total_kurus;
  paid = false;
  payment_provider = none;
  idempotency_key = new.idempotency_key;
  created_at = now;
}

pub item_rows : ℕ → (ℕ → ℕ) → ℕ → List PricedLine → List OrderItem
item_rows order ids k [] = []
item_rows order ids k (p ∷ ps) =
    record {
      id = ids k;
      order_id = order;
      item_id = some p.item_id;
      name_snapshot = p.name_snapshot;
      unit_price_kurus = p.unit_price_kurus;
      qty = p.qty;
      note = p.note;
      modifiers = p.modifiers;
      voided_at = none;
    }
    ∷ item_rows order ids (suc k) ps

pub data Inserted : Type 0 where
  inserted : Db → Order → Inserted
  key_conflict number_conflict : Inserted

module _ (key_first : Bool) (new_ids : ℕ → ℕ) (now : ℕ) (new : NewOrder) where
  insert_fresh : ℕ → Db → Inserted
  unfolding order_row item_rows
  insert_fresh n db =
      let row = order_row (new_ids 0) n now new in
      inserted
        (record db {
          orders = db.orders ++ row ∷ [];
          items = db.items ++ item_rows (new_ids 0) new_ids 1 new.items;
        })
        row

  pub insert : ℕ → Db → Inserted
  unfolding insert_fresh
  insert n db =
      let by_key = key_taken new.session_id new.idempotency_key db.orders in
      let by_number = any (has_number new.venue_id n) db.orders in
      if by_key && by_number
      then (if key_first then key_conflict else number_conflict)
      else if by_key
      then key_conflict
      else if by_number
      then number_conflict
      else insert_fresh n db

pub data Created : Type 0 where
  created existing : Order → Created
  exhausted vanished : Created

-- `findFirstOrThrow` by the session and the key.
pub read_found : Option Order → Created
read_found none = vanished
read_found (some o) = existing o

pub read_back : ℕ → Option String → List Order → Created
unfolding read_found
read_back session none orders = vanished
read_back session (some k) orders = read_found (find_first (has_key session k) orders)

-- What a round makes of the answer to its insert: `again` is the outcome of the rounds after it.
pub round_end : NewOrder → Inserted → Db → Db × Created → Db × Created
unfolding read_back
round_end new (inserted db' o) met again = (db', created o)
round_end new key_conflict met again =
    (met, read_back new.session_id new.idempotency_key met.orders)
round_end new number_conflict met again = again

module _ (key_first : Bool) (between : ℕ → Db → Db) (new_ids : ℕ → ℕ) (now : ℕ)
    (new : NewOrder) where
  -- The rounds from `attempt` on, of which `left` are left.
  pub create_from : (left attempt : ℕ) → Db → Db × Created
  unfolding round_end insert
  create_from zero attempt db = (db, exhausted)
  create_from (suc left) attempt db =
      let met = between attempt db in
      round_end new (insert key_first new_ids now new (last_number new.venue_id db.orders + 1) met)
        met (create_from left (suc attempt) met)

  pub create_order : Db → Db × Created
  create_order db = create_from number_retries 0 db

pub record Receipt : Type 0 where
  pub order_id : ℕ
  pub number : ℕ
  pub replayed : Bool

abbrev receipt_of : Bool → Order → Receipt
receipt_of replayed o = record { order_id = o.id; number = o.number; replayed = replayed }

-- `createdAt > now - SESSION_WINDOW_MS`.
abbrev pub is_recent : ℕ → ℕ → Order → Bool
is_recent now session o = (o.session_id == session) && ltb now (o.created_at + session_window_ms)

abbrev pub is_open : ℕ → Order → Bool
is_open table o = (o.table_id == table) && in_flight o.status

pub over_limit : ℕ → ActiveSession → List Order → Bool
over_limit now s orders =
    leb max_orders_per_session_window (count (is_recent now s.id) orders)
    || leb max_open_orders_per_table (count (is_open s.table_id) orders)

module _ (key_first : Bool) (between : ℕ → Db → Db) (new_ids : ℕ → ℕ) (client : Client) (now : ℕ)
    (s : ActiveSession) (input : OrderInput) where
  abbrev log : String → Option ℕ → Db → Db
  log outcome order = log_attempt client now outcome (subject_of s order)

  finish_created : Db × Created → Db × Reply Receipt
  finish_created (db, exhausted) = (log "number_conflict" none db, fail 503 order_failed)
  finish_created (db, vanished) = (db, fail 500 uncaught)
  finish_created (db, created o) = (
    publish (order_created s.venue_id o.id s.id s.table_id) (log "ok" (some o.id) db),
    ok (receipt_of false o),
  )
  finish_created (db, existing o) = (
    publish (order_created s.venue_id o.id s.id s.table_id) (log "ok" (some o.id) db),
    ok (receipt_of false o),
  )

  abbrev pub new_order : List PricedLine → NewOrder
  new_order ps = record {
    venue_id = s.venue_id;
    table_id = s.table_id;
    session_id = s.id;
    visit_id = s.visit_id;
    total_kurus = order_total ps;
    idempotency_key = input.idempotency_key;
    items = ps;
  }

  pub place_priced : Priced (List PricedLine) → Db → Db × Reply Receipt
  unfolding finish_created create_order
  place_priced (priced ps) db =
      finish_created (create_order key_first between new_ids now (new_order ps) db)
  place_priced (unavailable i) db = (log "validation_error" none db, fail 409 (item_unavailable i))
  place_priced unknown_option db = (log "validation_error" none db, fail 400 invalid_order)
  place_priced (bad_modifiers g) db = (db, fail 400 (invalid_modifiers g))

  place_new : Db → Db × Reply Receipt
  unfolding over_limit place_priced
  place_new db =
      if over_limit now s db.orders
      then (log "rate_limited" none db, fail 429 rate_limited)
      else place_priced (price_all (offered s.venue_id input db.menu) input.items) db

  place_keyed : Option Order → Db → Db × Reply Receipt
  unfolding place_new
  place_keyed none db = place_new db
  place_keyed (some o) db = (db, ok (receipt_of true o))

  abbrev pub by_key : Option String → List Order → Option Order
  by_key none orders = none
  by_key (some k) orders = find_first (has_key s.id k) orders

  -- With a session: validation, replay check, limits, pricing, creation.
  pub place : Db → Db × Reply Receipt
  unfolding place_keyed
  place db =
      if valid_order input
      then place_keyed (by_key input.idempotency_key db.orders) db
      else (log "validation_error" none db, fail 400 invalid_order)

-- The handler. `may_log` is the answer of `writeBudget`; the body is none if it has not the shape of
-- an order at all.
pub post_order :
    Bool
    → (ℕ → Db → Db)
    → (ℕ → ℕ)
    → (may_log : Bool) → Client
    → ℕ
    → Option ActiveSession
    → Option OrderInput
    → Db
    → Db × Reply Receipt
unfolding place
post_order key_first between ids may_log client now none body db = (
  if may_log then log_attempt client now "expired_session" nobody db else db,
  fail 401 no_session,
)
post_order key_first between ids may_log client now (some s) none db =
    (log_attempt client now "validation_error" (subject_of s none) db, fail 400 invalid_order)
post_order key_first between ids may_log client now (some s) (some input) db =
    place key_first between ids client now s input db
