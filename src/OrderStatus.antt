-- ===== src/OrderStatus.antt =====
-- An order's status changes: the desk's, app/api/desk/orders/[id]/route.ts, and the customer's
-- withdrawal, app/api/orders/[id]/cancel/route.ts (under src/). Each handler is cut at its first
-- database read, so that other requests may come between the read and the write.
pub mod Lifecycle
pub mod Races
mod Tests
use restaurant_app.Prelude.{
  ℕ, zero, suc, ◌+◌, ◌≡◌, Bool, true, false, not, ◌&&◌, List, [], ◌∷◌, Option, none, some, String,
  ◌==◌, if◌then◌else◌, find_first, count, update_many, str_eq,
}
use restaurant_app.Schema.{Db, Order, order_updated, print_order}
use restaurant_app.Schema.Status.{
  OrderStatus, received, accepted, preparing, ready, served, rejected, cancelled, is_status,
  includes, customer_cancellable,
}
use restaurant_app.Api.{
  StaffClaims, ActiveSession, Client, ApiError, Reply, ok, fail, unauthorized, no_session,
  not_found, invalid_transition, reason_required, already_accepted, accepted_since, publish,
  background, log_attempt, subject_of,
}

-- `transitions[from] ?? []`.
abbrev pub transitions : OrderStatus → List OrderStatus
transitions received = accepted ∷ rejected ∷ []
transitions accepted = preparing ∷ ready ∷ rejected ∷ []
transitions preparing = ready ∷ rejected ∷ []
transitions ready = served ∷ []
transitions _ = []

-- `slice(0, n)`, of characters.
abbrev pub cut : ℕ → String → String
cut n String.[] = ""
cut zero s = ""
cut (suc n) (String.◌∷◌ c s) = String.◌∷◌ c (cut n s)

abbrev pub order_is : ℕ → Order → Bool
order_is i o = o.id == i

-- The status in the request's body is none if it is no status at all.
-- The read and the checks: what is to be written, or the refusal. `reason` is "" if none is given.
pub data Decision : Type 0 where
  refuse : ℕ → ApiError → Decision
  write : OrderStatus → Option String → Decision

decide_found : Option OrderStatus → String → Option Order → Decision
decide_found to reason none = refuse 404 not_found
decide_found none reason (some o) = refuse 409 (invalid_transition o.status)
decide_found (some to) reason (some o) =
    if not (includes (transitions o.status) to)
    then refuse 409 (invalid_transition o.status)
    else if is_status rejected to && str_eq reason ""
    then refuse 400 reason_required
    else write to (if is_status rejected to then some (cut 200 reason) else none)

pub desk_read : StaffClaims → ℕ → Option OrderStatus → String → Db → Decision
unfolding decide_found
desk_read staff i to reason db =
    decide_found to reason
      (find_first (λ o. order_is i o && (o.venue_id == staff.venue_id)) db.orders)

abbrev pub set_status : OrderStatus → Option String → Order → Order
set_status to reason o = record o { status = to; reject_reason = reason }

-- `where: { id }` alone: the status that was read is not asked for again.
abbrev pub write_status : ℕ → OrderStatus → Option String → Db → Db
write_status i to reason db = record db {
  orders = update_many (order_is i) (set_status to reason) db.orders;
}

announce : StaffClaims → ℕ → Option Order → Db → Db
announce staff i none db = db
announce staff i (some o) db = publish (order_updated staff.venue_id i o.session_id o.table_id) db

-- The write and what follows it: on acceptance the ticket is queued in the background.
pub desk_write : StaffClaims → ℕ → Decision → Db → Db × Reply OrderStatus
unfolding announce
desk_write staff i (refuse code e) db = (db, fail code e)
desk_write staff i (write to reason) db =
    let db₁ = write_status i to reason db in
    let db₂ = if is_status accepted to then background (print_order i) db₁ else db₁ in
    (announce staff i (find_first (order_is i) db₁.orders) db₂, ok to)

pub patch_order : Option StaffClaims → ℕ → Option OrderStatus → String → Db → Db × Reply OrderStatus
unfolding desk_read desk_write
patch_order none i to reason db = (db, fail 401 unauthorized)
patch_order (some staff) i to reason db = desk_write staff i (desk_read staff i to reason db) db

-- The customer's withdrawal: the read and its checks.
cancel_found : Option Order → Option (Reply (Unit {0}))
cancel_found none = some (fail 404 not_found)
cancel_found (some o) =
    if is_status customer_cancellable o.status
    then none
    else some (fail 409 (accepted_since o.status))

pub cancel_read : ActiveSession → ℕ → Db → Option (Reply (Unit {0}))
unfolding cancel_found
cancel_read session i db =
    cancel_found (find_first (λ o. order_is i o && (o.session_id == session.id)) db.orders)

abbrev pub cancellable : ℕ → Order → Bool
cancellable i o = order_is i o && is_status customer_cancellable o.status

abbrev withdraw : Order → Order
withdraw o = record o { status = cancelled }

-- The conditional write, and what follows it.
pub cancel_write :
    Client → ℕ → ActiveSession → ℕ → Option (Reply (Unit {0})) → Db → Db × Reply (Unit {0})
cancel_write client now session i (some refusal) db = (db, refusal)
cancel_write client now session i none db =
    if count (cancellable i) db.orders == 0
    then (db, fail 409 already_accepted)
    else let db₁ = record db { orders = update_many (cancellable i) withdraw db.orders } in
      let db₂ = log_attempt client now "customer_cancelled" (subject_of session (some i)) db₁ in
      (publish (order_updated session.venue_id i session.id session.table_id) db₂, ok tt)

pub cancel_order : Client → ℕ → Option ActiveSession → ℕ → Db → Db × Reply (Unit {0})
unfolding cancel_read cancel_write
cancel_order client now none i db = (db, fail 401 no_session)
cancel_order client now (some session) i db =
    cancel_write client now session i (cancel_read session i db) db
