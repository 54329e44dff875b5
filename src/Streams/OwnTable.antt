-- ===== src/Streams/OwnTable.antt =====
-- A phone hears of no other table's orders: src/app/api/session/stream/route.ts.
use restaurant_app.Prelude.{
  ℕ, ◌≡◌, inl, inr, Option, some, String, arith, find_first, ◌==◌, Bool-cases, Option-cases,
}
use restaurant_app.Schema.{
  Db, Order, BusEvent, order_created, order_updated, menu_changed, session_revoked, bill_requested,
  bill_updated, visit_closed,
}
use restaurant_app.Schema.Status.{OrderStatus}
use restaurant_app.Api.{ActiveSession}
use restaurant_app.Streams.{order_news, order_message, phone_message, phone_passes, phone_stream}

-- The message is of an order in the database that stands at the phone's own table, as it is.
pub record IsOwn (s : ActiveSession) (db : Db) (i : ℕ) (status : OrderStatus) : Type 0 where
  pub order : Order
  pub named : ℕ
  pub there : find_first (λ o. o.id == named) db.orders ≡ some order
  pub same : order.id ≡ i
  pub own : order.table_id ≡ s.table_id
  pub present : order.status ≡ status

order_message-IsOwn :
    (s : ActiveSession) (db : Db) (named i : ℕ) (status : OrderStatus) (reason : Option String)
    → order_message s (find_first (λ o. o.id == named) db.orders)
      ≡ some (order_news i status reason)
    → IsOwn s db i status
unfolding order_message
order_message-IsOwn s db named i status reason e =
    elim (Option-cases (find_first (λ o. o.id == named) db.orders)) [
      | inl f ↦ absurd (ground (arith, f, e))
      | inr (o, f) ↦ record {
        order = o;
        named = named;
        there = f;
        same = ground (arith, f, e);
        own = ground (arith, f, e);
        present = ground (arith, f, e);
      }
    ]

phone_message-IsOwn :
    (s : ActiveSession) (e : BusEvent) (db : Db) (i : ℕ) (status : OrderStatus)
    (reason : Option String)
    → phone_message s e db ≡ some (order_news i status reason)
    → IsOwn s db i status
unfolding phone_message
phone_message-IsOwn s (menu_changed venue) db i status reason h = cc
phone_message-IsOwn s (session_revoked venue session) db i status reason h = cc
phone_message-IsOwn s (visit_closed venue visit table) db i status reason h = cc
phone_message-IsOwn s (bill_requested venue visit table) db i status reason h = cc
phone_message-IsOwn s (bill_updated venue visit table) db i status reason h = cc
phone_message-IsOwn s (order_created venue order session table) db i status reason h =
    order_message-IsOwn s db order i status reason h
phone_message-IsOwn s (order_updated venue order session table) db i status reason h =
    order_message-IsOwn s db order i status reason h

-- Whatever is published, a phone is told only of orders at its own table, and of their present status.
pub phone_stream-IsOwn :
    (s : ActiveSession) (e : BusEvent) (db : Db) (i : ℕ) (status : OrderStatus)
    (reason : Option String)
    → phone_stream s e db ≡ some (order_news i status reason)
    → IsOwn s db i status
unfolding phone_stream
phone_stream-IsOwn s e db i status reason h = elim (Bool-cases (phone_passes s e)) [
  | inl p ↦ phone_message-IsOwn s e db i status reason (rw p at h)
  | inr n ↦ absurd (ground (arith, n, h))
]
