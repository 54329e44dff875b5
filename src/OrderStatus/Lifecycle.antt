-- ===== src/OrderStatus/Lifecycle.antt =====
-- The life of an order under the desk's and the customer's requests, taken one after the other.
use restaurant_app.Prelude.{
  ℕ, ◌≤◌, ◌<◌, ◌≡◌, refl, ap, ◌⊎◌, inl, inr, true, ◌&&◌, List, [], ◌∷◌, Option, none, some, String,
  arith, ◌==◌, Pointwise, find_first, count, update_many, Bool-cases,
}
use restaurant_app.Prelude.Rows.{
  Distinct, find_first-Distinct, All-mono, All-always, Pointwise-refl, Pointwise-update_many,
  Pointwise-trans, Distinct-Pointwise,
}
use restaurant_app.Schema.{Db, Order}
use restaurant_app.Schema.Status.{OrderStatus, received, accepted, preparing, ready, includes}
use restaurant_app.Api.{StaffClaims, ActiveSession, Client, Reply}
use restaurant_app.OrderStatus.{
  Decision, write, refuse, decide_found, transitions, order_is, set_status, desk_read, desk_write,
  patch_order, cancel_read, cancel_write, cancellable, cancel_order,
}

-- How far an order has come; 4 is the end.
abbrev pub stage : OrderStatus → ℕ
stage received = 0
stage accepted = 1
stage preparing = 2
stage ready = 3
stage _ = 4

transitions_rise :
    (from to : OrderStatus) → includes (transitions from) to ≡ true → stage from < stage to
transitions_rise from to h = ground arith

-- The same order later: only the status and the reason may have changed, and if anything has, the
-- order is further on.
pub record Later (o o' : Order) : Type 0 where
  pub same : o' ≡ record o { status = o'.status; reject_reason = o'.reject_reason }
  pub moved : (o' ≡ o) ⊎ (stage o.status < stage o'.status)

Later-refl : (o : Order) → Later o o
Later-refl o = record { same = refl; moved = inl refl }

Later-trans : (a b c : Order) → Later a b → Later b c → Later a c
Later-trans a b c h k = record {
  same = ground (arith, h.same, k.same);
  moved = ground (arith, h.moved, k.moved);
}

decide_found-eq-write :
    (to : Option OrderStatus) (reason : String) (found : Option Order) (t : OrderStatus)
    (r : Option String)
    → decide_found to reason found ≡ write t r
    → (o : Order) × (found ≡ some o) × (includes (transitions o.status) t ≡ true) × (to ≡ some t)
unfolding decide_found
decide_found-eq-write to reason none t r e = cc
decide_found-eq-write none reason (some o) t r e = cc
decide_found-eq-write (some to) reason (some o) t r e = (o, refl, ground arith, ground arith)

-- A decision to write rests on an order of the venue and a legal transition.
pub desk_read-eq-write :
    (staff : StaffClaims) (i : ℕ) (to : Option OrderStatus) (reason : String) (db : Db)
    (t : OrderStatus) (r : Option String)
    → desk_read staff i to reason db ≡ write t r
    → (o : Order) × (find_first (λ o. order_is i o && (o.venue_id == staff.venue_id)) db.orders
        ≡ some o)
      × (includes (transitions o.status) t ≡ true)
      × (to ≡ some t)
unfolding desk_read
desk_read-eq-write staff i to reason db t r e = decide_found-eq-write to reason _ t r e

pub desk_write-orders :
    (staff : StaffClaims) (i : ℕ) (t : OrderStatus) (r : Option String) (db : Db)
    → (desk_write staff i (write t r) db).0.orders
      ≡ update_many (order_is i) (set_status t r) db.orders
unfolding desk_write
desk_write-orders staff i t r db = ground arith

abbrev pub DistinctIds : List Order → Type 0
DistinctIds = Distinct (λ o. o.id)

patch_decided-Later :
    (staff : StaffClaims) (i : ℕ) (to : Option OrderStatus) (reason : String) (db : Db)
    (d : Decision)
    → desk_read staff i to reason db ≡ d
    → DistinctIds db.orders
    → Pointwise Later db.orders (desk_write staff i d db).0.orders
patch_decided-Later staff i to reason db (refuse code e) h ids =
    unfold desk_write in Pointwise-refl Later Later-refl db.orders
patch_decided-Later staff i to reason db (write t r) h ids =
    let (o, found, legal, _) = desk_read-eq-write staff i to reason db t r h in
    rw (desk_write-orders staff i t r db) (
      Pointwise-update_many Later Later-refl _ _ db.orders (
        All-mono {P = λ x. x.id ≡ i → x ≡ o}
          {Q = λ x. order_is i x ≡ true → Later x (set_status t r x)}
          (λ x only hit. step o x legal (only (ground arith))) db.orders
          (find_first-Distinct (λ o. o.id) _ i db.orders (λ y hy. ground arith) ids found)))
  where
    step :
        (o x : Order)
        → includes (transitions o.status) t ≡ true
        → x ≡ o
        → Later x (set_status t r x)
    step o x legal e = record {
      same = refl;
      moved = inr (transitions_rise x.status t (ground arith));
    }

pub patch_order-Later :
    (staff : Option StaffClaims) (i : ℕ) (to : Option OrderStatus) (reason : String) (db : Db)
    → DistinctIds db.orders
    → Pointwise Later db.orders (patch_order staff i to reason db).0.orders
unfolding patch_order
patch_order-Later none i to reason db ids = Pointwise-refl Later Later-refl db.orders
patch_order-Later (some staff) i to reason db ids =
    patch_decided-Later staff i to reason db _ refl ids

cancel_write-Later :
    (client : Client) (now : ℕ) (session : ActiveSession) (i : ℕ) (d : Option (Reply (Unit {0})))
    (db : Db)
    → Pointwise Later db.orders (cancel_write client now session i d db).0.orders
unfolding cancel_write
cancel_write-Later client now session i (some refusal) db =
    Pointwise-refl Later Later-refl db.orders
cancel_write-Later client now session i none db =
    elim (Bool-cases (count (cancellable i) db.orders == 0)) [
      | inl e ↦ rw (e, cancel_write) (Pointwise-refl Later Later-refl db.orders)
      | inr e ↦
          rw (e, cancel_write)
            (Pointwise-update_many Later Later-refl _ _ db.orders
              (All-always (λ x hit. record { same = refl; moved = inr (ground arith) }) db.orders))
    ]

pub cancel_order-Later :
    (client : Client) (now : ℕ) (session : Option ActiveSession) (i : ℕ) (db : Db)
    → Pointwise Later db.orders (cancel_order client now session i db).0.orders
unfolding cancel_order
cancel_order-Later client now none i db = Pointwise-refl Later Later-refl db.orders
cancel_order-Later client now (some session) i db =
    cancel_write-Later client now session i (cancel_read session i db) db

-- The requests that change an order's status.
pub data Request : Type 0 where
  patches : Option StaffClaims → ℕ → Option OrderStatus → String → Request
  cancels : Client → ℕ → Option ActiveSession → ℕ → Request

pub serve : Request → Db → Db
serve (patches staff i to reason) db = (patch_order staff i to reason db).0
serve (cancels client now session i) db = (cancel_order client now session i db).0

pub serve_all : List Request → Db → Db
serve_all [] db = db
serve_all (r ∷ rs) db = serve_all rs (serve r db)

serve-Later :
    (r : Request) (db : Db) → DistinctIds db.orders → Pointwise Later db.orders (serve r db).orders
unfolding serve
serve-Later (patches staff i to reason) db ids = patch_order-Later staff i to reason db ids
serve-Later (cancels client now session i) db ids = cancel_order-Later client now session i db

-- Of requests for a change of status by the desk and withdrawals by guests, however many are served,
-- one after the other, and no other request: every order is still there with its money, its table and
-- its number, and either it is as it was or it is further on in its life. So an order that was served,
-- rejected or cancelled stays so, with its reason. Orders have distinct ids.
pub serve_all-Later :
    (rs : List Request) (db : Db)
    → DistinctIds db.orders
    → Pointwise Later db.orders (serve_all rs db).orders
unfolding serve_all
serve_all-Later [] db ids = Pointwise-refl Later Later-refl db.orders
serve_all-Later (r ∷ rs) db ids =
    Pointwise-trans Later Later-trans db.orders _ _ (serve-Later r db ids) (
      serve_all-Later rs (serve r db) (
        Distinct-Pointwise Later (λ o. o.id) (λ x y h. ap (λ o. o.id) h.same) _ _
          (serve-Later r db ids) ids))

-- What is further on from an end is nothing.
pub Later-final : {o o' : Order} → stage o.status ≡ 4 → Later o o' → o' ≡ o
Later-final {o} {o'} e h = ground (arith, h.moved, stage-le o'.status)
  where
    stage-le : (s : OrderStatus) → stage s ≤ 4
    stage-le s = ground arith
