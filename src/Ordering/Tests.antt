-- ===== src/Ordering/Tests.antt =====
-- Runs of the order route, and the theorems at concrete inputs.
use restaurant_app.Prelude.{
  ℕ, ◌+◌, ◌≤◌, ◌≡◌, ◌≢◌, refl, true, false, [], ◌∷◌, none, some, arith, All, find_first, find_many,
  count, ltb, if◌then◌else◌,
}
use restaurant_app.Prelude.Int.{pos, sum_by, ◌+ℤ◌, ◌*ℤ◌}
use restaurant_app.Schema.{Db}
use restaurant_app.Schema.Status.{received}
use restaurant_app.Api.{ok}
use restaurant_app.Pricing.{OrderInput, valid_order, chosen, bad_group, price_all}
use restaurant_app.OrderEdit.{live_items, line_total}
use restaurant_app.Examples.{phone, browser, order_at, busy_db}
use restaurant_app.Ordering.{
  NewOrder, order_row, item_rows, created, exhausted, last_number, insert, create_order, over_limit,
  is_recent, is_open, insert_fresh, round_end, create_from, finish_created, place_priced, place_new,
  place_keyed, place,
}
use restaurant_app.Ordering.Numbers.{create_order-ne-exhausted}
use restaurant_app.Ordering.Limits.{place-open_limit}
use restaurant_app.Ordering.Replay.{place-place}
use restaurant_app.Ordering.Total.{place-total}
use restaurant_app.Cart.{Phone, CartLine, start_submit, end_submit}
use restaurant_app.Cart.Retry.{place-retried}

abbrev two_coffees : OrderInput
two_coffees = record {
  items = record { item_id = 5; qty = 2; note = ""; option_ids = 70 ∷ [] } ∷ [];
  idempotency_key = some "3f0c9a6e-7b21";
}

abbrev ids_from : ℕ → ℕ → ℕ
ids_from n k = n + k

-- No request comes in between.
abbrev quiet : ℕ → Db → Db
quiet k db = db

-- Another order of the venue gets in between, twice.
abbrev busy : ℕ → Db → Db
busy k db =
    if ltb k 2 then record db { orders = order_at (12 + k) (3 + k) received ∷ db.orders } else db

abbrev placed_db : Db
placed_db = (place true quiet (ids_from 50) browser 9_000 phone two_coffees busy_db).0

placing : Unit {0}
unfolding place place_keyed place_new place_priced over_limit finish_created create_order
    create_from round_end insert insert_fresh last_number order_row item_rows price_all valid_order
    find_first find_many count chosen bad_group ◌+ℤ◌ ◌*ℤ◌
placing = tt

placed :
    place true quiet (ids_from 50) browser 9_000 phone two_coffees busy_db
    ≡ (placed_db, ok (record { order_id = 50; number = 3; replayed = false }))
unfolding placing
placed = refl

abbrev new : NewOrder
new = record {
  venue_id = 1;
  table_id = 2;
  session_id = 3;
  visit_id = some 9;
  total_kurus = pos 0;
  idempotency_key = none;
  items = [];
}

-- The two orders that got in between took the numbers 3 and 4.
third_round :
    (create_order true busy (ids_from 50) 9_000 new busy_db).1 ≡ created (order_row 50 5 9_000 new)
unfolding placing
third_round = refl

create_order-ne-exhausted_example :
    (create_order true busy (ids_from 50) 9_000 new busy_db).1 ≢ exhausted
create_order-ne-exhausted_example =
    create_order-ne-exhausted true busy (ids_from 50) 9_000 new 2 busy_db (omega arith)
      (λ met. refl)

place-open_limit_example :
    (count (is_open 2) placed_db.orders ≤ 10) × (count (is_recent 9_000 3) placed_db.orders ≤ 5)
place-open_limit_example =
    place-open_limit true quiet (ids_from 50) browser 9_000 phone two_coffees 2 busy_db
      (λ k met. refl) (unfold count in omega arith) (unfold count in omega arith)

-- Sent again, the same tap is answered with the same order.
place-place_example :
    place true busy (ids_from 60) browser 9_500 phone two_coffees placed_db
    ≡ (placed_db, ok (record { order_id = 50; number = 3; replayed = true }))
place-place_example =
    place-place true quiet (ids_from 50) browser 9_000 phone two_coffees "3f0c9a6e-7b21" busy_db
      placed_db (record { order_id = 50; number = 3; replayed = false }) busy (ids_from 60) browser
      9_500 two_coffees refl placed refl (unfold valid_order in refl)

place-total_example :
    All
      (λ o. o.id ≡ 50 → o.total_kurus ≡ sum_by line_total (live_items 50 placed_db.items))
      placed_db.orders
place-total_example =
    place-total true quiet (ids_from 50) browser 9_000 phone two_coffees busy_db (λ k met. refl)
      (omega arith) (omega arith)

abbrev line_5 : CartLine
line_5 = record { key = "a"; item_id = 5; qty = 2; note = ""; option_ids = 70 ∷ [] }

abbrev line_6 : CartLine
line_6 = record { key = "b"; item_id = 6; qty = 1; note = ""; option_ids = [] }

abbrev hungry : Phone
hungry = record { cart = line_5 ∷ []; submitting = false; idempotency_key = none; expired = false }

abbrev waiting : Phone
waiting = record hungry { submitting = true; idempotency_key = some "3f0c9a6e-7b21" }

-- The guest has added a dish before the second tap.
abbrev tapped : Phone
tapped = record waiting { cart = line_5 ∷ line_6 ∷ [] }

abbrev both_dishes : OrderInput
both_dishes = record {
  items =
      record { item_id = 5; qty = 2; note = ""; option_ids = 70 ∷ [] }
      ∷ record { item_id = 6; qty = 1; note = ""; option_ids = [] }
      ∷ [];
  idempotency_key = some "3f0c9a6e-7b21";
}

place-retried_example :
    place true busy (ids_from 60) browser 9_500 phone both_dishes placed_db
    ≡ (placed_db, ok (record { order_id = 50; number = 3; replayed = true }))
unfolding valid_order start_submit end_submit
place-retried_example =
    place-retried true quiet (ids_from 50) browser 9_000 phone busy_db placed_db
      (record { order_id = 50; number = 3; replayed = false }) "3f0c9a6e-7b21" hungry waiting
      two_coffees (line_5 ∷ line_6 ∷ []) "0000-fresh" tapped both_dishes busy (ids_from 60) browser
      9_500 refl placed refl refl
