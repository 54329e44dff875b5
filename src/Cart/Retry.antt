-- ===== src/Cart/Retry.antt =====
-- A tap on "order" whose answer is lost, and the next tap: src/components/CustomerApp.tsx with
-- src/app/api/orders/route.ts.
use restaurant_app.Prelude.{ℕ, ◌≡◌, ◌∙◌, ap, true, Bool, List, some, String, arith}
use restaurant_app.Schema.{Db}
use restaurant_app.Api.{ActiveSession, Client, ok}
use restaurant_app.Pricing.{OrderInput, valid_order}
use restaurant_app.Ordering.{Receipt, place}
use restaurant_app.Ordering.Replay.{place-place}
use restaurant_app.Cart.{CartLine, Phone, key_or, start_submit, end_submit, lost}

start_submit-keyed :
    (fresh : String) (p p' : Phone) (req : OrderInput)
    → start_submit fresh p ≡ (p', some req)
    → (p'.idempotency_key ≡ some (key_or fresh p.idempotency_key))
      × (req.idempotency_key ≡ some (key_or fresh p.idempotency_key))
unfolding start_submit
start_submit-keyed fresh p p' req e = ground arith

-- A guest taps "order", the server answers with a receipt but the answer is lost, and the guest
-- taps again, with whatever the cart holds by then: no second order is placed. The server changes
-- nothing and sends the first order's receipt again, marked as replayed. The second request is well
-- formed.
pub place-retried :
    (key_first : Bool) (between : ℕ → Db → Db) (new_ids : ℕ → ℕ) (client : Client) (now : ℕ)
    (s : ActiveSession) (db db' : Db) (r : Receipt) (fresh : String) (p p' : Phone)
    (req : OrderInput) (cart : List CartLine) (fresh' : String) (q : Phone) (req' : OrderInput)
    (between' : ℕ → Db → Db) (new_ids' : ℕ → ℕ) (client' : Client) (now' : ℕ)
    → start_submit fresh p ≡ (p', some req)
    → place key_first between new_ids client now s req db ≡ (db', ok r)
    → start_submit fresh' (record (end_submit lost p') { cart = cart }) ≡ (q, some req')
    → valid_order req' ≡ true
    → place key_first between' new_ids' client' now' s req' db'
      ≡ (db', ok (record r { replayed = true }))
unfolding end_submit
place-retried key_first between new_ids client now s db db' r fresh p p' req cart fresh' q req'
      between' new_ids' client' now' first answer second valid =
    let k = key_or fresh p.idempotency_key in
    let (kept, keyed) = start_submit-keyed fresh p p' req first in
    let again = (start_submit-keyed fresh' _ q req' second).1 in
    place-place key_first between new_ids client now s req k db db' r between' new_ids' client' now'
      req' keyed answer (again ∙ ap (λ o. some (key_or fresh' o)) kept) valid
