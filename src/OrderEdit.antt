-- ===== src/OrderEdit.antt =====
-- Desk-side corrections to a placed order: lib/orderEdit.ts and its route
-- app/api/desk/orders/[id]/items/route.ts (under src/). The edit is cut at the transaction:
-- `edit_read` reads the order and computes, `edit_commit` is the transaction, which may run on a
-- database that other requests have changed since. Ids of items are unique.
pub mod Plan
pub mod Total
pub mod Commit
pub mod Laws
pub mod Conflicts
pub mod Duplicates
mod Tests
use restaurant_app.Prelude.{
  ℕ, suc, ◌+◌, ◌<◌, ◌≤◌, ◌≡◌, Bool, true, false, not, ◌&&◌, ◌||◌, List, [], ◌∷◌, ◌++◌, map, Option,
  none, some, String, ltb, leb, ◌==◌, if◌then◌else◌, find_many, find_first, count, update_many, any,
  every, length,
}
use restaurant_app.Prelude.Int.{sum_by, ℤ, pos, ◌+ℤ◌, ◌*ℤ◌}
use restaurant_app.Schema.{
  Db, Order, OrderItem, OrderEdit, LineChange, PosDelivery, order_updated, print_amendment,
}
use restaurant_app.Schema.Status.{OrderStatus, in_flight, in_flight_statuses}
use restaurant_app.OrderStatus.{order_is}
use restaurant_app.Api.{StaffClaims, publish, background}

-- `EDITABLE_STATUSES` is `IN_FLIGHT_STATUSES`.
abbrev pub editable : OrderStatus → Bool
editable = in_flight

pub record EditLine : Type 0 where
  pub item_id : ℕ
  pub qty : ℕ

-- `orderEditSchema`: 1 to 30 lines, quantities 0 to 20.
pub valid_edit : List EditLine → Bool
valid_edit lines = leb 1 (length lines) && leb (length lines) 30 && every (λ l. leb l.qty 20) lines

pub data EditError : Type 0 where
  unauthorized invalid not_found unknown_line no_change empties_order conflict : EditError
  not_editable : OrderStatus → EditError

pub record LineEdit : Type 0 where
  pub id : ℕ
  pub name : String
  pub from_qty : ℕ
  pub to_qty : ℕ

-- What the transaction is to write.
pub record EditPlan : Type 0 where
  pub order : Order
  pub edits : List LineEdit
  pub total_kurus : ℤ
  pub after_print : Bool

pub data Edited (A : Type 0) : Type 0 where
  done : A → Edited A
  refused : EditError → Edited A

abbrev is_null : Option ℕ → Bool
is_null none = true
is_null (some t) = false

abbrev pub item_is : ℕ → OrderItem → Bool
item_is i it = it.id == i

abbrev pub is_live : OrderItem → Bool
is_live it = is_null it.voided_at

abbrev pub live_of : ℕ → OrderItem → Bool
live_of i it = (it.order_id == i) && is_live it

abbrev pub live_items : ℕ → List OrderItem → List OrderItem
live_items i items = find_many (live_of i) items

-- The quantity that the input asks for: its first line about the item, or what it was.
abbrev pub line_for : List EditLine → OrderItem → Option EditLine
line_for lines it = find_first (λ l. l.item_id == it.id) lines

abbrev or_qty : Option EditLine → ℕ → ℕ
or_qty none q = q
or_qty (some l) q = l.qty

pub qty_after : List EditLine → OrderItem → ℕ
qty_after lines it = or_qty (line_for lines it) it.qty

abbrev pub line_total : OrderItem → ℤ
line_total it = it.unit_price_kurus *ℤ pos it.qty

abbrev pub total_after : List EditLine → OrderItem → ℤ
total_after lines it = it.unit_price_kurus *ℤ pos (qty_after lines it)

abbrev pub edit_of : OrderItem → EditLine → LineEdit
edit_of it l = record { id = it.id; name = it.name_snapshot; from_qty = it.qty; to_qty = l.qty }

-- One line of input: the live item that it is about, if there is one, then the edits that the lines
-- after it lead to, if those are all acceptable.
pub edit_line : EditLine → Option OrderItem → Option (List LineEdit) → Option (List LineEdit)
edit_line l none rest = none
edit_line l (some it) none = none
edit_line l (some it) (some es) =
    if ltb it.qty l.qty then none else if l.qty == it.qty then some es else some (edit_of it l ∷ es)

-- The loop over the input: the changes in order; none if a line is about no live item or asks for
-- more than there is.
pub edits_of : List OrderItem → List EditLine → Option (List LineEdit)
unfolding edit_line
edits_of live [] = some []
edits_of live (l ∷ ls) = edit_line l (find_first (item_is l.item_id) live) (edits_of live ls)

abbrev change_of : LineEdit → LineChange
change_of e = record { name = e.name; from_qty = e.from_qty; to_qty = e.to_qty }

is_empty {ℓ} : {A : Type ℓ} → List A → Bool
is_empty [] = true
is_empty (x ∷ xs) = false

pub plan_lines :
    Order → Bool → List OrderItem → List EditLine → Option (List LineEdit) → Edited EditPlan
unfolding is_empty qty_after
plan_lines o printed live lines none = refused unknown_line
plan_lines o printed live lines (some edits) =
    let remaining = find_many (λ it. ltb 0 (qty_after lines it)) live in
    if is_empty edits
    then refused no_change
    else if is_empty remaining
    then refused empties_order
    else done (record {
      order = o;
      edits = edits;
      total_kurus = sum_by (total_after lines) remaining;
      after_print = printed;
    })

pub plan_order : List OrderItem → List PosDelivery → List EditLine → Option Order → Edited EditPlan
unfolding plan_lines edits_of
plan_order items deliveries lines none = refused not_found
plan_order items deliveries lines (some o) =
    if not (editable o.status)
    then refused (not_editable o.status)
    else let live = live_items o.id items in
      let printed = not (count (λ (d : PosDelivery). d.order_id == o.id) deliveries == 0) in
      plan_lines o printed live lines (edits_of live lines)

pub edit_read : (venue i : ℕ) → List EditLine → Db → Edited EditPlan
unfolding plan_order
edit_read venue i lines db =
    plan_order db.items db.deliveries lines
      (find_first (λ o. order_is i o && (o.venue_id == venue)) db.orders)

-- `where: { id, qty: fromQty, voidedAt: null }`.
abbrev pub unchanged_since : LineEdit → OrderItem → Bool
unchanged_since e it = item_is e.id it && (it.qty == e.from_qty) && is_live it

abbrev pub write_qty : ℕ → ℕ → OrderItem → OrderItem
write_qty now n it =
    if n == 0 then record it { qty = 0; voided_at = some now } else record it { qty = n }

-- The loop of conditional writes; none if one of them writes no row.
pub write_lines : ℕ → List LineEdit → List OrderItem → Option (List OrderItem)
write_lines now [] items = some items
write_lines now (e ∷ es) items =
    let rest =
      write_lines now es (update_many (unchanged_since e) (write_qty now e.to_qty) items) in
    if count (unchanged_since e) items == 0 then none else rest

abbrev pub still_editable : ℕ → Order → Bool
still_editable i o = order_is i o && editable o.status

abbrev pub set_total : ℤ → Order → Order
set_total t o = record o { total_kurus = t }

abbrev edit_row : StaffClaims → EditPlan → ℕ → OrderEdit
edit_row staff plan now = record {
  order_id = plan.order.id;
  staff_id = staff.sub;
  staff_name = staff.name;
  changes = map change_of plan.edits;
  after_print = plan.after_print;
  created_at = now;
}

commit_written : StaffClaims → ℕ → EditPlan → Db → Option (List OrderItem) → Option Db
commit_written staff now plan db none = none
commit_written staff now plan db (some items) =
    if count (still_editable plan.order.id) db.orders == 0
    then none
    else some (record db {
      items = items;
      orders = update_many (still_editable plan.order.id) (set_total plan.total_kurus) db.orders;
      edits = db.edits ++ edit_row staff plan now ∷ [];
    })

-- The transaction: all of it, or none of it.
pub edit_commit : StaffClaims → ℕ → EditPlan → Db → Option Db
unfolding commit_written
edit_commit staff now plan db =
    commit_written staff now plan db (write_lines now plan.edits db.items)

abbrev pub announce_edit : StaffClaims → EditPlan → Db → Db
announce_edit staff plan db =
    publish (order_updated staff.venue_id plan.order.id plan.order.session_id plan.order.table_id)
      db

finish : StaffClaims → EditPlan → Db → Option Db → Db × Edited EditPlan
finish staff plan db none = (db, refused conflict)
finish staff plan db (some db') = (announce_edit staff plan db', done plan)

pub edit_write : StaffClaims → ℕ → Edited EditPlan → Db → Db × Edited EditPlan
unfolding finish
edit_write staff now (refused e) db = (db, refused e)
edit_write staff now (done plan) db = finish staff plan db (edit_commit staff now plan db)

pub edit_order : StaffClaims → (now i : ℕ) → List EditLine → Db → Db × Edited EditPlan
unfolding edit_write
edit_order staff now i lines db = edit_write staff now (edit_read staff.venue_id i lines db) db

-- The amendment ticket, if the kitchen already holds paper.
amend : StaffClaims → ℕ → Db × Edited EditPlan → Db × Edited EditPlan
amend staff i (db, refused e) = (db, refused e)
amend staff i (db, done plan) =
    let job = print_amendment i (map change_of plan.edits) staff.name in
    (if plan.after_print then background job db else db, done plan)

-- The route.
pub patch_items : Option StaffClaims → (now i : ℕ) → List EditLine → Db → Db × Edited EditPlan
unfolding edit_order amend valid_edit
patch_items none now i lines db = (db, refused unauthorized)
patch_items (some staff) now i lines db =
    if valid_edit lines
    then amend staff i (edit_order staff now i lines db)
    else (db, refused invalid)
