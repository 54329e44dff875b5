-- ===== src/OrderEdit/Commit.antt =====
-- Inversion of `editOrder`: what a success rests on, and that a refusal writes nothing.
use restaurant_app.Prelude.{
  ℕ, ◌≡◌, refl, ◌∙◌, ◌⊎◌, inl, inr, Bool, true, false, ◌&&◌, List, Option, none, some, arith,
  find_many, find_first, count, update_many, Bool-cases, ltb, ◌==◌,
}
use restaurant_app.Prelude.Int.{sum_by}
use restaurant_app.Schema.{Db, Order, OrderItem, PosDelivery}
use restaurant_app.Api.{StaffClaims}
use restaurant_app.OrderStatus.{order_is}
use restaurant_app.OrderEdit.{
  editable, EditError, not_editable, EditLine, LineEdit, EditPlan, Edited, done, refused,
  live_items, qty_after, edits_of, total_after, plan_lines, plan_order, edit_read, write_lines,
  commit_written, still_editable, set_total, edit_commit, announce_edit, finish, conflict,
  edit_write,
}

-- What a plan says of the order and the items that it was computed from.
pub record IsPlanned (items : List OrderItem) (lines : List EditLine) (o : Order) (plan : EditPlan)
    : Type 0 where
  pub order : plan.order ≡ o
  pub open_status : editable o.status ≡ true
  pub edits : edits_of (live_items o.id items) lines ≡ some plan.edits
  pub total :
      plan.total_kurus
      ≡ sum_by
          (total_after lines)
          (find_many (λ it. ltb 0 (qty_after lines it)) (live_items o.id items))

plan_lines-eq-done :
    (o : Order) (printed : Bool) (items : List OrderItem) (lines : List EditLine)
    (edits : Option (List LineEdit)) (plan : EditPlan)
    → edits_of (live_items o.id items) lines ≡ edits
    → editable o.status ≡ true
    → plan_lines o printed (live_items o.id items) lines edits ≡ done plan
    → IsPlanned items lines o plan
unfolding plan_lines
plan_lines-eq-done o printed items lines none plan k s e = cc
plan_lines-eq-done o printed items lines (some es) plan k s e = record {
  order = ground arith;
  open_status = s;
  edits = ground (arith, k);
  total = ground arith;
}

plan_order-eq-done :
    (items : List OrderItem) (deliveries : List PosDelivery) (lines : List EditLine)
    (found : Option Order) (plan : EditPlan)
    → plan_order items deliveries lines found ≡ done plan
    → (o : Order) × (found ≡ some o) × IsPlanned items lines o plan
unfolding plan_order
plan_order-eq-done items deliveries lines none plan e = cc
plan_order-eq-done items deliveries lines (some o) plan e = elim (Bool-cases (editable o.status)) [
  | inl s ↦ (o, refl, plan_lines-eq-done o _ items lines _ plan refl s (rw (s, plan_order) at e))
  | inr s ↦ let e' : refused (not_editable o.status) ≡ done plan = rw (s, plan_order) at e in cc
]

pub edit_read-eq-done :
    (venue i : ℕ) (lines : List EditLine) (db : Db) (plan : EditPlan)
    → edit_read venue i lines db ≡ done plan
    → (o : Order) × (find_first (λ o. order_is i o && (o.venue_id == venue)) db.orders ≡ some o)
      × IsPlanned db.items lines o plan
unfolding edit_read
edit_read-eq-done venue i lines db plan e = plan_order-eq-done db.items db.deliveries lines _ plan e

-- What a committed transaction has written.
pub record IsCommitted (now : ℕ) (plan : EditPlan) (db db' : Db) : Type 0 where
  pub there : (count (still_editable plan.order.id) db.orders == 0) ≡ false
  pub lines : write_lines now plan.edits db.items ≡ some db'.items
  pub orders :
      db'.orders ≡ update_many (still_editable plan.order.id) (set_total plan.total_kurus) db.orders

commit_written-eq-some :
    (staff : StaffClaims) (now : ℕ) (plan : EditPlan) (db db' : Db)
    (written : Option (List OrderItem))
    → write_lines now plan.edits db.items ≡ written
    → commit_written staff now plan db written ≡ some db'
    → IsCommitted now plan db db'
unfolding commit_written
commit_written-eq-some staff now plan db db' none w e = cc
commit_written-eq-some staff now plan db db' (some items) w e = record {
  there = ground arith;
  lines = w ∙ ground arith;
  orders = ground arith;
}

finish-cases :
    (staff : StaffClaims) (plan : EditPlan) (db db' : Db) (committed : Option Db)
    (r : Edited EditPlan)
    → finish staff plan db committed ≡ (db', r)
    → ((r ≡ refused conflict) × (db' ≡ db) × (committed ≡ none))
      ⊎ ((c : Db) × (committed ≡ some c) × (r ≡ done plan) × (db' ≡ announce_edit staff plan c))
unfolding finish
finish-cases staff plan db db' none r e = ground arith
finish-cases staff plan db db' (some c) r e = inr (c, refl, ground arith, ground arith)

pub edit_write-eq-done :
    (staff : StaffClaims) (now : ℕ) (read : Edited EditPlan) (plan : EditPlan) (db db' : Db)
    → edit_write staff now read db ≡ (db', done plan)
    → (read ≡ done plan) × IsCommitted now plan db db'
unfolding edit_write edit_commit
edit_write-eq-done staff now (refused x) plan db db' e = ground arith
edit_write-eq-done staff now (done q) plan db db' e =
    elim (finish-cases staff q db db' (edit_commit staff now q db) (done plan) e) [
      | inl (r, _, _) ↦ cc
      | inr (c, w, r, d) ↦
          let same : q ≡ plan = ground arith in
          let h = commit_written-eq-some staff now q db c _ refl w in
          rw (← same) (refl, rw d (record { there = h.there; lines = h.lines; orders = h.orders }))
    ]

-- An edit that is refused for whatever reason, in the middle of the transaction too, leaves the
-- database as it was.
pub edit_write_refused :
    (staff : StaffClaims) (now : ℕ) (read : Edited EditPlan) (db db' : Db) (x : EditError)
    → edit_write staff now read db ≡ (db', refused x)
    → db' ≡ db
unfolding edit_write
edit_write_refused staff now (refused y) db db' x e = ground arith
edit_write_refused staff now (done q) db db' x e =
    elim (finish-cases staff q db db' (edit_commit staff now q db) (refused x) e) [
      | inl (_, d, _) ↦ d
      | inr (c, w, r, d) ↦ cc
    ]
