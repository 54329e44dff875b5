-- ===== src/Ordering/Total.antt =====
-- The total of an order when it is placed (src/app/api/orders/route.ts).
use restaurant_app.Prelude.{
  ℕ, suc, ◌≡◌, ◌≢◌, refl, ap, ◌∙◌, Bool, false, List, [], ◌∷◌, ◌++◌, arith, All, All-append,
  find_many,
}
use restaurant_app.Prelude.Int.{◌+ℤ◌, sum_by}
use restaurant_app.Prelude.Rows.{All-mono}
use restaurant_app.Prelude.Keys.{find_many_none, find_many-append}
use restaurant_app.Schema.{Db, OrderItem}
use restaurant_app.Api.{ActiveSession, Client}
use restaurant_app.Pricing.{OrderInput, PricedLine, order_total}
use restaurant_app.OrderEdit.{live_items, live_of, line_total}
use restaurant_app.Ordering.{order_row, item_rows, place}
use restaurant_app.Ordering.Limits.{Outcome, kept, added, place-Outcome}

item_rows-live :
    (order : ℕ) (ids : ℕ → ℕ) (k : ℕ) (ps : List PricedLine)
    → live_items order (item_rows order ids k ps) ≡ item_rows order ids k ps
unfolding item_rows find_many
item_rows-live order ids k [] = refl
item_rows-live order ids k (p ∷ ps) = ground (arith, item_rows-live order ids (suc k) ps)

sum_by-item_rows :
    (order : ℕ) (ids : ℕ → ℕ) (k : ℕ) (ps : List PricedLine)
    → sum_by line_total (item_rows order ids k ps) ≡ order_total ps
unfolding item_rows
sum_by-item_rows order ids k [] = refl
sum_by-item_rows order ids k (p ∷ ps) = ap (◌+ℤ◌ _) (sum_by-item_rows order ids (suc k) ps)

-- The items of a new order are the rows that were written with it.
live_items-new :
    (order : ℕ) (ids : ℕ → ℕ) (ps : List PricedLine) (items : List OrderItem)
    → All (λ it. it.order_id ≢ order) items
    → live_items order (items ++ item_rows order ids 1 ps) ≡ item_rows order ids 1 ps
live_items-new order ids ps items fresh =
    find_many-append (live_of order) items (item_rows order ids 1 ps)
    ∙ rw
        (find_many_none (live_of order) items (
          All-mono {P = λ it. it.order_id ≢ order} {Q = λ it. live_of order it ≡ false}
            (λ it ne. ground (arith, ne)) items fresh))
        (item_rows-live order ids 1 ps)

-- When an order is placed, with no other request in between and under a new id, its stored total is
-- the sum, over its lines, of unit price times quantity.
pub place-total :
    (key_first : Bool) (between : ℕ → Db → Db) (new_ids : ℕ → ℕ) (client : Client) (now : ℕ)
    (s : ActiveSession) (input : OrderInput) (db : Db)
    → ((k : ℕ) (met : Db) → between k met ≡ met)
    → All (λ o. o.id ≢ new_ids 0) db.orders
    → All (λ it. it.order_id ≢ new_ids 0) db.items
    → let db' = (place key_first between new_ids client now s input db).0 in
      All
        (λ o.
          o.id ≡ new_ids 0 → o.total_kurus ≡ sum_by line_total (live_items (new_ids 0) db'.items))
        db'.orders
place-total key_first between new_ids client now s input db alone ids fresh =
    go _ (place-Outcome key_first between new_ids client now s input alone db)
  where
    go :
        (db' : Db)
        → Outcome key_first between new_ids client now s input alone db db'
        → All
            (λ o.
              o.id ≡ new_ids 0
              → o.total_kurus ≡ sum_by line_total (live_items (new_ids 0) db'.items))
            db'.orders
    go db' (kept e _) = rw e (
        All-mono {P = λ o. o.id ≢ new_ids 0}
          {Q = λ o.
            o.id ≡ new_ids 0 → o.total_kurus ≡ sum_by line_total (live_items (new_ids 0) db'.items)}
          (λ o ne same. absurd (ne same)) db.orders ids)
    go db' (added lines o w p row e es) =
        rw (e, es, live_items-new (new_ids 0) new_ids lines db.items fresh, sum_by-item_rows)
          (All-append _ db.orders (o ∷ [])
            (All-mono {P = λ o. o.id ≢ new_ids 0}
              {Q = λ o. o.id ≡ new_ids 0 → o.total_kurus ≡ order_total lines}
              (λ o ne same. absurd (ne same)) db.orders ids)
            ((λ _. ap (λ x. x.total_kurus) row ∙ unfold order_row in refl), tt))
