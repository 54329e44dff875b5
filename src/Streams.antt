-- ===== src/Streams.antt =====
-- What the live streams let through: src/app/api/session/stream/route.ts and
-- src/app/api/desk/stream/route.ts. A stream asks of each event whether it passes, and then what to send
-- for it.
pub mod OwnTable
use restaurant_app.Prelude.{
  ℕ, Bool, true, false, ◌&&◌, Option, none, some, String, ◌==◌, if◌then◌else◌, find_first,
}
use restaurant_app.Schema.{
  Db, Order, BusEvent, order_created, order_updated, menu_changed, session_revoked, bill_requested,
  bill_updated, visit_closed,
}
use restaurant_app.Schema.Status.{OrderStatus}
use restaurant_app.Api.{StaffClaims, ActiveSession}

-- What a phone is sent.
pub data PhoneMessage : Type 0 where
  menu_news revoked_news closed_news bill_news : PhoneMessage
  order_news : (order : ℕ) → OrderStatus → Option String → PhoneMessage

pub phone_passes : ActiveSession → BusEvent → Bool
phone_passes s (order_created venue order session table) =
    (venue == s.venue_id) && (table == s.table_id)
phone_passes s (order_updated venue order session table) =
    (venue == s.venue_id) && (table == s.table_id)
phone_passes s (bill_requested venue visit table) = (venue == s.venue_id) && (table == s.table_id)
phone_passes s (bill_updated venue visit table) = (venue == s.venue_id) && (table == s.table_id)
phone_passes s (visit_closed venue visit table) = (venue == s.venue_id) && (table == s.table_id)
phone_passes s (session_revoked venue session) = (venue == s.venue_id) && (session == s.id)
phone_passes s (menu_changed venue) = venue == s.venue_id

-- An order that was moved to another table meanwhile is not sent.
order_message : ActiveSession → Option Order → Option PhoneMessage
order_message s none = none
order_message s (some o) =
    if o.table_id == s.table_id then some (order_news o.id o.status o.reject_reason) else none

phone_message : ActiveSession → BusEvent → Db → Option PhoneMessage
unfolding order_message
phone_message s (menu_changed venue) db = some menu_news
phone_message s (session_revoked venue session) db = some revoked_news
phone_message s (visit_closed venue visit table) db = some closed_news
phone_message s (bill_requested venue visit table) db = some bill_news
phone_message s (bill_updated venue visit table) db = some bill_news
phone_message s (order_created venue order session table) db =
    order_message s (find_first (λ o. o.id == order) db.orders)
phone_message s (order_updated venue order session table) db =
    order_message s (find_first (λ o. o.id == order) db.orders)

pub phone_stream : ActiveSession → BusEvent → Db → Option PhoneMessage
unfolding phone_passes phone_message
phone_stream s e db = if phone_passes s e then phone_message s e db else none

pub desk_passes : StaffClaims → BusEvent → Bool
desk_passes staff (order_created venue order session table) = venue == staff.venue_id
desk_passes staff (order_updated venue order session table) = venue == staff.venue_id
desk_passes staff (bill_requested venue visit table) = venue == staff.venue_id
desk_passes staff (bill_updated venue visit table) = venue == staff.venue_id
desk_passes staff (visit_closed venue visit table) = venue == staff.venue_id
desk_passes staff (menu_changed venue) = false
desk_passes staff (session_revoked venue session) = false
