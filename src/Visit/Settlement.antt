-- ===== src/Visit/Settlement.antt =====
-- What a settlement at the till does: `settleVisit` of src/lib/visit.ts.
use restaurant_app.Prelude.{
  ℕ, ◌≡◌, ap, inl, inr, true, false, ◌&&◌, some, arith, ◌==◌, if◌then◌else◌, find_first, count,
  update_many, Option-cases,
}
use restaurant_app.Prelude.Int.{ℤ}
use restaurant_app.Prelude.Rows.{find_first-update_many, find_first_passes}
use restaurant_app.Schema.{Db, TableVisit}
use restaurant_app.Schema.Status.{is_closed}
use restaurant_app.Bill.{is_visit, build_bill}
use restaurant_app.Visit.{
  Payment, settled, already_closed, still_open, close_settled, in_flight_of, bill_total, billed,
  settle_write, settle_found, settle_visit,
}

-- A settlement that succeeded.
pub record IsSettled (now i venue : ℕ) (p : Payment) (db db' : Db) (total : ℤ) : Type 0 where
  pub visit : TableVisit
  pub there : find_first (λ v. is_visit i v && (v.venue_id == venue)) db.visits ≡ some visit
  pub was_open : is_closed visit.status ≡ false
  pub cooked : p.force ≡ false → count (in_flight_of i) db.orders ≡ 0
  pub of_bill : total ≡ bill_total (build_bill i db)
  pub visits : db'.visits ≡ update_many (still_open i) (close_settled now p total) db.visits
  pub sessions : db'.sessions ≡ (settle_write now i p (build_bill i db) db).sessions
  pub orders : db'.orders ≡ (settle_write now i p (build_bill i db) db).orders

settle_found-settled :
    (now i venue : ℕ) (p : Payment) (db db' : Db) (total : ℤ) (v : TableVisit)
    → find_first (λ v. is_visit i v && (v.venue_id == venue)) db.visits ≡ some v
    → settle_found now i venue p (some v) db ≡ (db', settled total)
    → IsSettled now i venue p db db' total
unfolding settle_found settle_write
settle_found-settled now i venue p db db' total v f e = record {
  visit = v;
  there = f;
  was_open = ground arith;
  cooked = λ k. ground arith;
  of_bill = ground arith;
  visits = ground arith;
  sessions = ground arith;
  orders = ground arith;
}

pub settle_visit-IsSettled :
    (now i venue : ℕ) (p : Payment) (db db' : Db) (total : ℤ)
    → settle_visit now i venue p db ≡ (db', settled total)
    → IsSettled now i venue p db db' total
unfolding settle_visit settle_found
settle_visit-IsSettled now i venue p db db' total e =
    elim (Option-cases (find_first (λ v. is_visit i v && (v.venue_id == venue)) db.visits)) [
      | inl f ↦ cc
      | inr (v, f) ↦ settle_found-settled now i venue p db db' total v f (rw f at e)
    ]

-- A visit is settled once: on the database that a success leaves, every further settlement of the
-- visit by the same venue, with whatever payment and at whatever time, is refused as already closed
-- and changes nothing.
pub settle_visit_twice :
    (now i venue : ℕ) (p : Payment) (db db' : Db) (total : ℤ) (now' : ℕ) (p' : Payment)
    → settle_visit now i venue p db ≡ (db', settled total)
    → settle_visit now' i venue p' db' ≡ (db', already_closed)
unfolding settle_visit settle_found
settle_visit_twice now i venue p db db' total now' p' e =
    let h = settle_visit-IsSettled now i venue p db db' total e in
    let found : find_first (λ v. is_visit i v && (v.venue_id == venue)) db'.visits
        ≡ some (close_settled now p total h.visit) =
      rw (h.visits, find_first-update_many, h.there)
        (ap some (closes h.visit (find_first_passes _ db.visits h.there) h.was_open)) in
    rw found
  where
    closes :
        (v : TableVisit)
        → (is_visit i v && (v.venue_id == venue)) ≡ true
        → is_closed v.status ≡ false
        → (if still_open i v then close_settled now p total v else v) ≡ close_settled now p total v
    closes v q k = ground (arith, q, k)

settle_found-items :
    (now i venue : ℕ) (p : Payment) (db db' : Db) (total : ℤ) (v : TableVisit)
    → settle_found now i venue p (some v) db ≡ (db', settled total)
    → db'.items ≡ db.items
unfolding settle_found settle_write
settle_found-items now i venue p db db' total v e = ground arith

pub settle_visit-items :
    (now i venue : ℕ) (p : Payment) (db db' : Db) (total : ℤ)
    → settle_visit now i venue p db ≡ (db', settled total)
    → db'.items ≡ db.items
unfolding settle_visit settle_found
settle_visit-items now i venue p db db' total e =
    elim (Option-cases (find_first (λ v. is_visit i v && (v.venue_id == venue)) db.visits)) [
      | inl f ↦ cc
      | inr (v, f) ↦ settle_found-items now i venue p db db' total v (rw f at e)
    ]

-- A settlement writes to the orders of its bill that they are paid, no more.
pub settle_visit-orders :
    (now i venue : ℕ) (p : Payment) (db db' : Db) (total : ℤ)
    → settle_visit now i venue p db ≡ (db', settled total)
    → db'.orders
      ≡ update_many
          (billed (build_bill i db))
          (λ o. record o { paid = true; payment_provider = some p.payment_method })
          db.orders
unfolding settle_write
settle_visit-orders now i venue p db db' total e =
    (settle_visit-IsSettled now i venue p db db' total e).orders
