-- ===== src/OrderStatus/Tests.antt =====
-- Runs of the requests that change an order's status, and the theorems at concrete inputs.
use restaurant_app.Prelude.{
  ◌≡◌, refl, List, [], ◌∷◌, none, some, Pointwise, find_first, count, update_many, arith,
}
use restaurant_app.Schema.{Db}
use restaurant_app.Schema.Status.{received, accepted, preparing, ready, rejected}
use restaurant_app.Api.{
  ok, fail, invalid_transition, reason_required, already_accepted, accepted_since,
}
use restaurant_app.Examples.{waiter, phone, browser, order_at, busy_db}
use restaurant_app.OrderStatus.{
  write, order_is, desk_read, desk_write, patch_order, cancel_read, cancel_write, cancel_order,
}
use restaurant_app.OrderStatus.Lifecycle.{
  Later, Request, patches, cancels, serve_all, serve_all-Later,
}
use restaurant_app.OrderStatus.Races.{cancel_write_after_desk_write, desk_write_after_cancel}

serving : Unit {0}
unfolding patch_order desk_read desk_write cancel_order cancel_read cancel_write find_first count
    update_many
serving = tt

replies :
    ((patch_order (some waiter) 11 (some accepted) "" busy_db).1 ≡ ok accepted)
    × ((patch_order (some waiter) 11 (some ready) "" busy_db).1
        ≡ fail 409 (invalid_transition received))
    × ((patch_order (some waiter) 11 (some rejected) "" busy_db).1 ≡ fail 400 reason_required)
    × ((cancel_order browser 5_000 (some phone) 11 busy_db).1 ≡ ok tt)
    × ((cancel_order browser 5_000 (some phone) 10 busy_db).1 ≡ fail 409 (accepted_since accepted))
unfolding serving
replies = (refl, refl, refl, refl, refl)

abbrev evening : List Request
evening =
    patches (some waiter) 10 (some preparing) ""
    ∷ cancels browser 5_000 (some phone) 11
    ∷ patches (some waiter) 11 (some accepted) ""
    ∷ patches (some waiter) 10 (some ready) ""
    ∷ []

serve_all-Later_example : Pointwise Later busy_db.orders (serve_all evening busy_db).orders
serve_all-Later_example = serve_all-Later evening busy_db (omega arith)

-- The desk accepts order 11 between the read and the write of its withdrawal.
desk_first : desk_read waiter 11 (some accepted) "" busy_db ≡ write accepted none
unfolding serving
desk_first = refl

abbrev accepted_db : Db
accepted_db = (desk_write waiter 11 (write accepted none) busy_db).0

cancel_write_after_desk_write_example :
    cancel_write browser 5_000 phone 11 none accepted_db ≡ (accepted_db, fail 409 already_accepted)
cancel_write_after_desk_write_example =
    cancel_write_after_desk_write waiter 11 (some accepted) "" busy_db busy_db accepted none browser
      5_000 phone desk_first

desk_write_after_cancel_example :
    let cancelled_db = cancel_order browser 5_000 (some phone) 11 busy_db in
    let final =
      desk_write waiter 11 (desk_read waiter 11 (some accepted) "" busy_db) cancelled_db.0 in
    (cancelled_db.1 ≡ ok tt)
    × (final.1 ≡ ok accepted)
    × (find_first (order_is 11) final.0.orders ≡ some (order_at 11 2 accepted))
desk_write_after_cancel_example =
    desk_write_after_cancel waiter phone browser 5_000 11 "" busy_db (order_at 11 2 received)
      (unfold find_first in refl) refl refl refl
