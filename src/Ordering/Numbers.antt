-- ===== src/Ordering/Numbers.antt =====
-- Ticket numbers: `createOrderWithNextNumber` of src/app/api/orders/route.ts.
use mathlib.Core.Bool.{false≢true}
use native.Mathlib.Decide.{ℕ_discrete}
use restaurant_app.Prelude.{
  ℕ, zero, suc, ◌+◌, ◌≤◌, ◌<◌, ◌≡◌, ◌≢◌, refl, sym, ◌∙◌, Bool, false, List, [], ◌∷◌, ◌++◌, arith,
  All, any,
}
use restaurant_app.Prelude.Rows.{All-mono}
use restaurant_app.Schema.{Db, Order, OrderItem}
use restaurant_app.Ordering.{
  NewOrder, last_number, has_number, key_taken, order_row, item_rows, Inserted, inserted,
  key_conflict, number_conflict, insert_fresh, insert, Created, created, exhausted, read_back,
  read_found, round_end, create_from, create_order,
}
use restaurant_app.Ordering.Insert.{insert-number_conflict}

-- The next number is above every number of the venue.
last_number-ge :
    (venue : ℕ) (os : List Order)
    → All (λ o. o.venue_id ≡ venue → o.number ≤ last_number venue os) os
unfolding last_number
last_number-ge venue [] = tt
last_number-ge venue (o ∷ os) = (
  λ e. ground (arith, e),
  All-mono {P = λ x. x.venue_id ≡ venue → x.number ≤ last_number venue os}
      {Q = λ x. x.venue_id ≡ venue → x.number ≤ last_number venue (o ∷ os)}
      (λ x h e. higher x (h e)) os (last_number-ge venue os),
)
  where
    higher : (x : Order) → x.number ≤ last_number venue os → x.number ≤ last_number venue (o ∷ os)
    higher x h = ground (arith, h)

any-has_number_above :
    (venue n : ℕ) (os : List Order)
    → All (λ o. o.venue_id ≡ venue → o.number ≤ n) os
    → any (has_number venue (n + 1)) os ≡ false
any-has_number_above venue n [] h = refl
any-has_number_above venue n (o ∷ os) (h, hs) =
    ground (arith, h, any-has_number_above venue n os hs)

pub next_number_free :
    (venue : ℕ) (os : List Order) → any (has_number venue (last_number venue os + 1)) os ≡ false
next_number_free venue os = any-has_number_above venue _ os (last_number-ge venue os)

module _ (key_first : Bool) (between : ℕ → Db → Db) (new_ids : ℕ → ℕ) (now : ℕ)
    (new : NewOrder) where
  read_back-ne-exhausted :
      (session : ℕ) (orders : List Order) → read_back session new.idempotency_key orders ≢ exhausted
  unfolding read_back read_found
  read_back-ne-exhausted session orders = ground arith

  round_end-ne-exhausted :
      (r : Inserted) (met : Db) (again : Db × Created)
      → (r ≡ number_conflict → again.1 ≢ exhausted)
      → (round_end new r met again).1 ≢ exhausted
  unfolding round_end
  round_end-ne-exhausted (inserted db o) met again h e = cc
  round_end-ne-exhausted key_conflict met again h e = read_back-ne-exhausted _ met.orders e
  round_end-ne-exhausted number_conflict met again h e = h refl e

  create_from-ne-exhausted :
      (j : ℕ)
      → ((db : Db) → (between j db).orders ≡ db.orders)
      → (left attempt : ℕ) (db : Db) → attempt ≤ j
      → j < attempt + left
      → (create_from key_first between new_ids now new left attempt db).1 ≢ exhausted
  unfolding create_from
  create_from-ne-exhausted j quiet zero attempt db lo hi = absurd (omega arith)
  create_from-ne-exhausted j quiet (suc left) attempt db lo hi =
      round_end-ne-exhausted _ (between attempt db) _ (elim (ℕ_discrete attempt j) [
        | yes here ↦ λ refused. absurd (free here refused)
        | no later ↦
            λ _. create_from-ne-exhausted j quiet left (suc attempt) _ (omega arith) (omega arith)
      ])
    where
      free :
          attempt ≡ j
          → insert key_first new_ids now new
              (last_number new.venue_id db.orders + 1)
              (between attempt db)
            ≡ number_conflict
          → ⊥
      free here refused =
          let taken =
            insert-number_conflict key_first new_ids now new _ (between attempt db) refused in
          let same : (between attempt db).orders ≡ db.orders = rw here (quiet db) in
          false≢true (sym (next_number_free new.venue_id db.orders) ∙ (rw same at taken))

-- The retries suffice: if in one of the five rounds no other request touches the orders between the
-- read of the last number and the insert, the creation does not give up.
pub create_order-ne-exhausted :
    (key_first : Bool) (between : ℕ → Db → Db) (new_ids : ℕ → ℕ) (now : ℕ) (new : NewOrder) (j : ℕ)
    (db : Db)
    → j < 5
    → ((met : Db) → (between j met).orders ≡ met.orders)
    → (create_order key_first between new_ids now new db).1 ≢ exhausted
unfolding create_order
create_order-ne-exhausted key_first between new_ids now new j db h quiet =
    create_from-ne-exhausted key_first between new_ids now new j quiet 5 0 db (omega arith)
      (omega arith)

-- A database to which an order and its items have been added.
abbrev pub with_order : Db → Order → List OrderItem → Db
with_order db o items = record db { orders = db.orders ++ o ∷ []; items = db.items ++ items }

-- With no other request in between, an order with a new key gets the number after the venue's highest
-- one, in the first round.
pub create_order_alone :
    (key_first : Bool) (between : ℕ → Db → Db) (new_ids : ℕ → ℕ) (now : ℕ) (new : NewOrder)
    (db : Db)
    → ((k : ℕ) (met : Db) → between k met ≡ met)
    → key_taken new.session_id new.idempotency_key db.orders ≡ false
    → let o = order_row (new_ids 0) (last_number new.venue_id db.orders + 1) now new in
      create_order key_first between new_ids now new db
      ≡ (with_order db o (item_rows (new_ids 0) new_ids 1 new.items), created o)
unfolding create_order create_from insert insert_fresh round_end
create_order_alone key_first between new_ids now new db alone free =
    rw (alone, free, next_number_free) refl
