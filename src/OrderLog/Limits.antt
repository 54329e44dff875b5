-- ===== src/OrderLog/Limits.antt =====
-- Page sizes that fail a request (src/lib/pagination.ts, src/app/api/admin/orders/route.ts).
use restaurant_app.Prelude.{ℕ, ◌<◌, ◌≡◌, refl, ap, List, [], ◌∷◌, Option, none, some, arith, length}
use native.Mathlib.Nat.{div-eq_of_lt}
use restaurant_app.Schema.{Order, Db}
use restaurant_app.Api.{StaffClaims, fail, uncaught}
use restaurant_app.OrderLog.{
  Numeric, fraction, page_limit, get_orders, page_reply, order_log, split_page, from_cursor,
}
use restaurant_app.OrderLog.Pages.{page_of}

page_limit-zero : (top bottom : ℕ) → 0 < top → top < bottom → page_limit (fraction top bottom) ≡ 0
unfolding page_limit
page_limit-zero top bottom p h = rw (div-eq_of_lt h) (ground (arith, p))

page_of-zero :
    (id : Order → ℕ) (limit : ℕ) (rows : List Order)
    → 0 < length rows
    → limit ≡ 0
    → page_of id limit rows ≡ none
unfolding split_page
page_of-zero id limit [] h e = absurd (omega (arith, h))
page_of-zero id limit (x ∷ xs) h e = rw e refl

-- A page size between 0 and 1 fails the request wherever a row would be on the page: the size is
-- rounded down to 0, and the id of the last of no items is read.
pub get_orders_fails :
    (staff : StaffClaims) (now : ℕ) (days : Numeric) (top bottom : ℕ) (cursor : Option ℕ) (db : Db)
    → 0 < top
    → top < bottom
    → 0 < length (from_cursor (λ o. o.id) cursor (order_log staff.venue_id now days db.orders))
    → get_orders (some staff) now days (fraction top bottom) cursor db ≡ fail 500 uncaught
unfolding get_orders page_reply
get_orders_fails staff now days top bottom cursor db pos small some_row =
    ap (page_reply db) (page_of-zero _ _ _ some_row (page_limit-zero top bottom pos small))
