-- ===== src/Schema/Status.antt =====
-- The status columns: src/lib/orderStatus.ts, and the comments of prisma/schema.prisma.
use restaurant_app.Prelude.{ℕ, ◌≡◌, ◌↔◌, Bool, true, false, List, [], ◌∷◌, any, arith, not, ◌==◌}

pub data OrderStatus : Type 0 where
  received accepted preparing ready served rejected cancelled : OrderStatus

-- `closed` ends a visit; the source's `open` is `opened` here.
pub data VisitStatus : Type 0 where
  opened bill_requested closed : VisitStatus

pub data DeliveryStatus : Type 0 where
  pending claimed sent failed : DeliveryStatus

pub data Adapter : Type 0 where
  console escpos_bridge : Adapter

-- Comparison of status strings, `===`.
abbrev rank : OrderStatus → ℕ
rank received = 0
rank accepted = 1
rank preparing = 2
rank ready = 3
rank served = 4
rank rejected = 5
rank cancelled = 6

abbrev pub is_status : OrderStatus → OrderStatus → Bool
is_status s t = rank s == rank t

abbrev pub includes : List OrderStatus → OrderStatus → Bool
includes ss s = any (is_status s) ss

pub is_status_iff : (s t : OrderStatus) → (is_status s t ≡ true) ↔ (s ≡ t)
is_status_iff s t = ground arith

abbrev pub void_statuses : List OrderStatus
void_statuses = rejected ∷ cancelled ∷ []

abbrev pub in_flight_statuses : List OrderStatus
in_flight_statuses = received ∷ accepted ∷ preparing ∷ ready ∷ []

abbrev pub in_flight : OrderStatus → Bool
in_flight = includes in_flight_statuses

abbrev pub not_void : OrderStatus → Bool
not_void s = not (includes void_statuses s)

abbrev pub customer_cancellable : OrderStatus
customer_cancellable = received

abbrev pub is_closed : VisitStatus → Bool
is_closed closed = true
is_closed _ = false

abbrev pub is_bill_requested : VisitStatus → Bool
is_bill_requested bill_requested = true
is_bill_requested _ = false

abbrev pub is_pending : DeliveryStatus → Bool
is_pending pending = true
is_pending _ = false

abbrev pub is_claimed : DeliveryStatus → Bool
is_claimed claimed = true
is_claimed _ = false

abbrev pub is_bridge : Adapter → Bool
is_bridge escpos_bridge = true
is_bridge console = false
