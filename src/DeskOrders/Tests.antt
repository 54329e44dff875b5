-- ===== src/DeskOrders/Tests.antt =====
-- The flag of a new session at the desk.
use restaurant_app.Prelude.{
  ◌≡◌, refl, true, false, List, [], ◌∷◌, Bool, map, some, find_first, find_many, order_by,
}
use restaurant_app.Schema.Status.{served, received}
use restaurant_app.Api.{Reply, ok, fail}
use restaurant_app.Examples.{order_at, waiter, empty_db}
use restaurant_app.DeskOrders.{DeskOrder, get_desk_orders, desk_order, newest_delivery}

abbrev flags : Reply (List DeskOrder) → List Bool
flags (ok os) = map (λ o. o.new_session) os
flags (fail status e) = []

-- A phone's second order is marked as of a new session once its first is served.
second_order :
    (flags (
        get_desk_orders
          (some waiter)
          false
          2_000
          (record empty_db { orders = order_at 10 1 received ∷ order_at 11 2 received ∷ [] }))
      ≡ true ∷ false ∷ [])
    × (flags (
          get_desk_orders
            (some waiter)
            false
            2_000
            (record empty_db { orders = order_at 10 1 served ∷ order_at 11 2 received ∷ [] }))
        ≡ true ∷ [])
unfolding get_desk_orders desk_order newest_delivery find_first find_many order_by
second_order = (refl, refl)
