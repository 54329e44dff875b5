-- ===== src/OrderEdit/Tests.antt =====
-- Runs of the correction of an order, and the theorems at concrete inputs.
use restaurant_app.Prelude.{
  ◌≡◌, refl, false, map, ◌==◌, List, [], ◌∷◌, All, arith, Pointwise, find_first, find_many, count,
  update_many,
}
use restaurant_app.Prelude.Int.{pos, ◌+ℤ◌, ◌*ℤ◌, sum_by}
use restaurant_app.Schema.{Db}
use restaurant_app.Schema.Status.{received, accepted}
use restaurant_app.Examples.{waiter, order_at, coffee_row, busy_db}
use restaurant_app.OrderEdit.{
  EditLine, EditPlan, Edited, done, refused, unknown_line, empties_order, no_change, conflict,
  live_items, line_total, edits_of, edit_read, write_lines, edit_commit, edit_write, edit_order,
}
use restaurant_app.OrderEdit.Laws.{edit_write-total}
use restaurant_app.OrderEdit.Conflicts.{NoMore, edit_write-NoMore}
use restaurant_app.OrderEdit.Duplicates.{twice_named, edit_order-twice_named}

editing : Unit {0}
unfolding edit_order edit_read edit_write edit_commit edits_of write_lines find_first find_many
    count update_many ◌+ℤ◌ ◌*ℤ◌
editing = tt

abbrev one_coffee : List EditLine
one_coffee = record { item_id = 20; qty = 1 } ∷ record { item_id = 21; qty = 0 } ∷ []

abbrev one_coffee_plan : EditPlan
one_coffee_plan = record {
  order = order_at 10 1 accepted;
  edits =
      record { id = 20; name = "Kahve"; from_qty = 2; to_qty = 1 }
      ∷ record { id = 21; name = "Çay"; from_qty = 1; to_qty = 0 }
      ∷ [];
  total_kurus = pos 250;
  after_print = false;
}

abbrev edited_db : Db
edited_db = (edit_order waiter 5_000 10 one_coffee busy_db).0

edited : edit_order waiter 5_000 10 one_coffee busy_db ≡ (edited_db, done one_coffee_plan)
unfolding editing
edited = refl

refusals :
    ((edit_order waiter 0 10 (record { item_id = 22; qty = 0 } ∷ []) busy_db).1
      ≡ refused unknown_line)
    × ((edit_order waiter 0 10 (record { item_id = 20; qty = 3 } ∷ []) busy_db).1
        ≡ refused unknown_line)
    × ((edit_order waiter 0 10 (record { item_id = 20; qty = 2 } ∷ []) busy_db).1
        ≡ refused no_change)
    × ((edit_order waiter 0 11 (record { item_id = 22; qty = 0 } ∷ []) busy_db).1
        ≡ refused empties_order)
unfolding editing
refusals = (refl, refl, refl, refl)

-- Another order came in between the read and the transaction.
abbrev met_db : Db
met_db = record busy_db { orders = order_at 12 2 received ∷ busy_db.orders }

abbrev met_edited : Db
met_edited = (edit_write waiter 5_000 (edit_read 1 10 one_coffee busy_db) met_db).0

edit_write-total_example :
    All
      (λ o. o.id ≡ 10 → o.total_kurus ≡ sum_by line_total (live_items 10 met_edited.items))
      met_edited.orders
unfolding editing
edit_write-total_example =
    edit_write-total waiter 5_000 10 one_coffee busy_db met_db met_edited one_coffee_plan
      (omega arith) (omega arith) (omega arith) refl refl

-- Two corrections of different lines, both read before either is written: neither is refused, and
-- the stored total is that of the second alone.
abbrev fewer_coffees : List EditLine
fewer_coffees = record { item_id = 20; qty = 1 } ∷ []

abbrev no_tea : List EditLine
no_tea = record { item_id = 21; qty = 0 } ∷ []

abbrev crossed : Db × Edited EditPlan
crossed =
    edit_write waiter 6_000 (edit_read 1 10 no_tea busy_db)
      (edit_write waiter 5_000 (edit_read 1 10 fewer_coffees busy_db) busy_db).0

crossed_total :
    (map (λ o. o.total_kurus) (find_many (λ o. o.id == 10) crossed.0.orders) ≡ pos 500 ∷ [])
    × (sum_by line_total (live_items 10 crossed.0.items) ≡ pos 250)
unfolding editing
crossed_total = (refl, refl)

edit_write-NoMore_example : Pointwise NoMore busy_db.items edited_db.items
unfolding edit_order
edit_write-NoMore_example =
    edit_write-NoMore waiter 5_000 10 one_coffee busy_db busy_db edited_db one_coffee_plan edited

-- The plan of `one_coffee`, written a second time.
abbrev written_twice : Db × Edited EditPlan
written_twice = edit_write waiter 6_000 (edit_read 1 10 one_coffee busy_db) edited_db

written_again : written_twice ≡ (written_twice.0, refused conflict)
unfolding editing
written_again = refl

abbrev two_cups_db : Db
two_cups_db = record busy_db { items = coffee_row 20 10 2 ∷ coffee_row 22 11 2 ∷ [] }

abbrev one_cup_db : Db
one_cup_db = (edit_order waiter 0 11 (twice_named (coffee_row 22 11 2) 1) two_cups_db).0

edit_order-twice_named_example :
    (live_items 11 one_cup_db.items ≡ coffee_row 22 11 1 ∷ [])
    × All (λ o. o.id ≡ 11 → o.total_kurus ≡ pos 250 *ℤ pos 2 +ℤ pos 0) one_cup_db.orders
edit_order-twice_named_example =
    edit_order-twice_named waiter 0 1 two_cups_db (order_at 11 2 received) (coffee_row 22 11 2)
      (omega arith) (omega arith) (unfold find_first in refl) refl (unfold find_many in refl)
      (omega arith) (omega arith)
