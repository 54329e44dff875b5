-- ===== src/OrderLog/Tests.antt =====
-- A log of three orders with pages of two, and the theorems at it.
use restaurant_app.Prelude.{
  ℕ, zero, suc, ◌≡◌, ◌≢◌, refl, List, [], ◌∷◌, ◌++◌, none, some, arith, All, find_many,
}
use restaurant_app.Schema.{Order}
use restaurant_app.Schema.Status.{served}
use restaurant_app.Api.{fail, uncaught}
use restaurant_app.Examples.{order_at, waiter, busy_db}
use restaurant_app.OrderLog.{
  not_finite, fraction, page_limit, order_log, sort_newer, insert_newer, get_orders, range_ms,
  from_cursor,
}
use restaurant_app.OrderLog.Pages.{follow, follow-order_log}
use restaurant_app.OrderLog.Limits.{get_orders_fails}

limits :
    (page_limit not_finite ≡ 50)
    × (page_limit (fraction 0 1) ≡ 50)
    × (page_limit (fraction 25 2) ≡ 12)
    × (page_limit (fraction 9_000 1) ≡ 200)
unfolding page_limit
limits = (refl, refl, refl, refl)

abbrev log_now : ℕ → List Order
log_now zero = order_at 10 1 served ∷ order_at 11 2 served ∷ order_at 12 3 served ∷ []
log_now (suc _) =
    order_at 10 1 served ∷ order_at 11 2 served ∷ order_at 12 3 served ∷ order_at 13 4 served ∷ []

abbrev arrived : ℕ → List Order
arrived zero = []
arrived (suc _) = order_at 13 4 served ∷ []

abbrev all_rows : List Order
all_rows = order_at 12 3 served ∷ order_at 11 2 served ∷ order_at 10 1 served ∷ []

sorted : (k : ℕ) → order_log 1 2_000 not_finite (log_now k) ≡ arrived k ++ all_rows
unfolding order_log sort_newer insert_newer range_ms find_many
sorted zero = refl
sorted (suc k) = refl

fresh : (k : ℕ) → All (λ y. All (λ z. y.id ≢ z.id) all_rows) (arrived k)
fresh zero = tt
fresh (suc k) = ((omega arith, (omega arith, (omega arith, tt))), tt)

follow-order_log_example :
    follow (λ o. o.id) (λ k. order_log 1 2_000 not_finite (log_now k)) 2 4 0 none ≡ all_rows
follow-order_log_example =
    follow-order_log 1 2_000 not_finite log_now arrived all_rows 1 4 sorted fresh refl
      ((omega arith, (omega arith, tt)), ((omega arith, tt), (tt, tt))) (omega arith)

get_orders_fails_example :
    get_orders (some waiter) 2_000 not_finite (fraction 1 2) none busy_db ≡ fail 500 uncaught
unfolding order_log sort_newer insert_newer range_ms find_many from_cursor
get_orders_fails_example =
    get_orders_fails waiter 2_000 not_finite 1 2 none busy_db (omega arith) (omega arith)
      (omega arith)
