-- ===== src/OrderStatus/Races.antt =====
-- The desk and a customer at the same order: the read of one request, the whole of the other, then
-- the write of the first. The customer's write asks again for the status it has read
-- (app/api/orders/[id]/cancel/route.ts); the desk's does not (app/api/desk/orders/[id]/route.ts).
use restaurant_app.Prelude.{
  ℕ, ◌≡◌, refl, ap, true, false, Option, none, some, String, arith, ◌==◌, if◌then◌else◌, inl, inr,
  Bool-cases, ==_iff, find_first, count, update_many,
}
use restaurant_app.Prelude.Rows.{
  count-update_many_zero, find_first-update_many, find_first-and, find_first_passes, count_pos,
}
use restaurant_app.Schema.{Db, Order}
use restaurant_app.Schema.Status.{
  OrderStatus, received, accepted, includes, is_status, customer_cancellable,
}
use restaurant_app.Api.{StaffClaims, ActiveSession, Client, ok, fail, already_accepted}
use restaurant_app.OrderStatus.{
  write, decide_found, cancel_found, transitions, order_is, set_status, cancellable, desk_read,
  desk_write, cancel_read, cancel_write, withdraw, cancel_order,
}
use restaurant_app.OrderStatus.Lifecycle.{desk_read-eq-write, desk_write-orders}

not-received_of_includes :
    (from t : OrderStatus) → includes (transitions from) t ≡ true → is_status received t ≡ false
not-received_of_includes from t h = ground arith

-- If the desk's write comes between a withdrawal's read and its write, the withdrawal is refused and
-- changes nothing, whatever the desk has read, and when.
pub cancel_write_after_desk_write :
    (staff : StaffClaims) (i : ℕ) (to : Option OrderStatus) (reason : String) (then_db db : Db)
    (t : OrderStatus) (r : Option String) (client : Client) (now : ℕ) (session : ActiveSession)
    → desk_read staff i to reason then_db ≡ write t r
    → let db' = (desk_write staff i (write t r) db).0 in
      cancel_write client now session i none db' ≡ (db', fail 409 already_accepted)
unfolding cancel_write
cancel_write_after_desk_write staff i to reason then_db db t r client now session e =
    let (o, _, legal, _) = desk_read-eq-write staff i to reason then_db t r e in
    let gone : count (cancellable i) (desk_write staff i (write t r) db).0.orders ≡ 0 =
      rw (desk_write-orders staff i t r db) (
        count-update_many_zero (cancellable i) (order_is i) (set_status t r) db.orders
          (λ x. moved x (not-received_of_includes o.status t legal))) in
    rw (gone, cancel_write)
  where
    moved :
        (x : Order)
        → is_status received t ≡ false
        → cancellable i (if order_is i x then set_status t r x else x) ≡ false
    moved x n = ground (arith, n)

gone_after_cancel :
    (client : Client) (now : ℕ) (session : ActiveSession) (i : ℕ) (db : Db)
    → count (cancellable i) (cancel_write client now session i none db).0.orders ≡ 0
unfolding cancel_write
gone_after_cancel client now session i db =
    elim (Bool-cases (count (cancellable i) db.orders == 0)) [
      | inl e ↦ rw (e, cancel_write) ((==_iff _ _).0 e)
      | inr e ↦
          rw (e, cancel_write)
            (count-update_many_zero (cancellable i) (cancellable i) withdraw db.orders
              (λ x. ground arith))
    ]

-- Of two taps that have both found the order still received, the second to write is refused and
-- changes nothing.
pub cancel_write_twice :
    (client : Client) (now now' : ℕ) (session : ActiveSession) (i : ℕ) (db : Db)
    → let db' = (cancel_write client now session i none db).0 in
      cancel_write client now' session i none db' ≡ (db', fail 409 already_accepted)
cancel_write_twice client now now' session i db =
    closed (cancel_write client now session i none db).0 (gone_after_cancel client now session i db)
  where
    closed :
        (db' : Db)
        → count (cancellable i) db'.orders ≡ 0
        → cancel_write client now' session i none db' ≡ (db', fail 409 already_accepted)
    closed db' e = unfold cancel_write in rw e

module _ (staff : StaffClaims) (i : ℕ) (reason : String) (db : Db) (o : Order)
    (found : find_first (order_is i) db.orders ≡ some o) where
  desk_decides :
      o.venue_id ≡ staff.venue_id
      → o.status ≡ received
      → desk_read staff i (some accepted) reason db ≡ write accepted none
  unfolding desk_read decide_found
  desk_decides v st =
      rw
        (find_first-and (order_is i) (λ o. o.venue_id == staff.venue_id) db.orders {x = o} found
          ((==_iff _ _).1 v))
        (ground arith)

module _ (client : Client) (now : ℕ) (session : ActiveSession) (i : ℕ) (db : Db) (o : Order)
    (found : find_first (order_is i) db.orders ≡ some o) where
  cancel_reads : o.session_id ≡ session.id → o.status ≡ received → cancel_read session i db ≡ none
  unfolding cancel_read cancel_found
  cancel_reads s st =
      rw
        (find_first-and (order_is i) (λ o. o.session_id == session.id) db.orders {x = o} found
          ((==_iff _ _).1 s))
        (ground arith)

  -- A withdrawal of a received order by the session that placed it succeeds.
  pub cancel_succeeds :
      o.session_id ≡ session.id
      → o.status ≡ received
      → ((cancel_order client now (some session) i db).0.orders
          ≡ update_many (cancellable i) withdraw db.orders)
        × ((cancel_order client now (some session) i db).1 ≡ ok tt)
  unfolding cancel_order cancel_write
  cancel_succeeds s st =
      let hit =
        find_first-and (order_is i) (λ o. is_status customer_cancellable o.status) db.orders {x = o}
          found (ground arith) in
      let e = count_pos (cancellable i) db.orders {x = o} hit in
      (rw (cancel_reads s st, cancel_write, e) refl, rw (cancel_reads s st, cancel_write, e) refl)

-- The other way round the desk wins as well, after the customer was told that the order is
-- withdrawn: if the withdrawal is served between the desk's read and its write, both are answered
-- with success and the order ends up accepted.
pub desk_write_after_cancel :
    (staff : StaffClaims) (session : ActiveSession) (client : Client) (now i : ℕ) (reason : String)
    (db : Db) (o : Order)
    → find_first (order_is i) db.orders ≡ some o
    → o.venue_id ≡ staff.venue_id
    → o.session_id ≡ session.id
    → o.status ≡ received
    → let cancelled_db = cancel_order client now (some session) i db in
      let final = desk_write staff i (desk_read staff i (some accepted) reason db) cancelled_db.0 in
      (cancelled_db.1 ≡ ok tt)
      × (final.1 ≡ ok accepted)
      × (find_first (order_is i) final.0.orders
          ≡ some (record o { status = accepted; reject_reason = none }))
desk_write_after_cancel staff session client now i reason db o found v s st =
    let decided = desk_decides staff i reason db o found v st in
    let (orders, told) = cancel_succeeds client now session i db o found s st in
    (
      told,
      rw decided (unfold desk_write in refl),
      rw (decided, desk_write-orders, orders, find_first-update_many, find_first-update_many, found)
          (ap some (twice o (find_first_passes (order_is i) db.orders found) st)),
    )
  where
    twice :
        (x : Order)
        → order_is i x ≡ true
        → x.status ≡ received
        → (let y = if cancellable i x then withdraw x else x in
            if order_is i y then set_status accepted none y else y)
          ≡ record x { status = accepted; reject_reason = none }
    twice x p q = let c : cancellable i x ≡ true = ground (arith, p) in rw (c, p)
