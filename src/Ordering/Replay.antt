-- ===== src/Ordering/Replay.antt =====
-- Idempotent submission (src/app/api/orders/route.ts): a key that was used is answered with the order
-- it created.
use restaurant_app.Prelude.{
  ℕ, zero, suc, ◌≡◌, refl, ap, ◌∙◌, inl, inr, Bool, true, false, Option, none, some, String, arith,
  find_first, any, str_eq_iff,
}
use restaurant_app.Prelude.Keys.{find_first-append_new}
use restaurant_app.Schema.{Db, Order}
use restaurant_app.Api.{ActiveSession, Client, ok}
use restaurant_app.Pricing.{OrderInput, valid_order}
use restaurant_app.Ordering.Insert.{insert-eq-inserted}
use restaurant_app.Ordering.Accepted.{told, IsCreated, IsReplayed, place-eq-ok}
use restaurant_app.Ordering.{
  NewOrder, has_key, order_row, Inserted, inserted, key_conflict, number_conflict, insert, Created,
  read_found, read_back, round_end, create_from, create_order, Receipt, new_order, place_keyed,
  place,
}

module _ (key_first : Bool) (new_ids : ℕ → ℕ) (now : ℕ) (new : NewOrder) (k : String)
    (keyed : new.idempotency_key ≡ some k) where
  insert_found :
      (n : ℕ) (db db' : Db) (o : Order)
      → insert key_first new_ids now new n db ≡ inserted db' o
      → find_first (has_key new.session_id k) db'.orders ≡ some o
  insert_found n db db' o e =
      let h = insert-eq-inserted key_first new_ids now new n db db' o e in
      let free : any (has_key new.session_id k) db.orders ≡ false = rw keyed at h.key_free in
      rw h.orders (
        find_first-append_new (has_key new.session_id k) db.orders o free
          (rw h.row (unfold order_row in ground (arith, keyed, str_eq_iff k k))))

  read_found-told :
      (found : Option Order) (o : Order) → told (read_found found) ≡ some o → found ≡ some o
  unfolding read_found
  read_found-told none o t = cc
  read_found-told (some x) o t = t

  round_end-told :
      (r : Inserted) (met : Db) (again : Db × Created) (n : ℕ) (db' : Db) (c : Created) (o : Order)
      → insert key_first new_ids now new n met ≡ r
      → (again ≡ (db', c)
          → told c ≡ some o
          → find_first (has_key new.session_id k) db'.orders ≡ some o)
      → round_end new r met again ≡ (db', c)
      → told c ≡ some o
      → find_first (has_key new.session_id k) db'.orders ≡ some o
  unfolding round_end read_back
  round_end-told (inserted db'' x) met again n db' c o i ih e t =
      insert_found n met db' o (i ∙ ground (arith, t))
  round_end-told key_conflict met again n db' c o i ih e t =
      let same : met ≡ db' = ap (λ r. r.0) e in
      let read : read_found (find_first (has_key new.session_id k) met.orders) ≡ c =
        rw keyed at (ap (λ r. r.1) e) in
      rw (← same) (read_found-told _ o (ap told read ∙ t))
  round_end-told number_conflict met again n db' c o i ih e t = ih e t

  -- Whatever happens between the rounds, the order that the creation speaks of is the one that the
  -- session's key finds afterwards.
  create_from-told :
      (between : ℕ → Db → Db) (left attempt : ℕ) (db db' : Db) (c : Created) (o : Order)
      → create_from key_first between new_ids now new left attempt db ≡ (db', c)
      → told c ≡ some o
      → find_first (has_key new.session_id k) db'.orders ≡ some o
  unfolding create_from
  create_from-told between zero attempt db db' c o e t = absurd (ground (arith, t))
  create_from-told between (suc left) attempt db db' c o e t =
      round_end-told _ (between attempt db) _ _ db' c o refl
        (create_from-told between left (suc attempt) (between attempt db) db' c o) e t

-- A success names the order that the key finds from then on.
abbrev Recorded : ℕ → String → Db → Receipt → Type 0
Recorded session k db' r =
    (o : Order) × (find_first (has_key session k) db'.orders ≡ some o)
    × (r.order_id ≡ o.id)
    × (r.number ≡ o.number)

module _ (key_first : Bool) (between : ℕ → Db → Db) (new_ids : ℕ → ℕ) (client : Client) (now : ℕ)
    (s : ActiveSession) (input : OrderInput) (k : String)
    (keyed : input.idempotency_key ≡ some k) where
  IsReplayed-Recorded :
      (db db' : Db) (r : Receipt)
      → IsReplayed key_first between new_ids client now s input db db' r
      → Recorded s.id k db' r
  IsReplayed-Recorded db db' r h = (
    h.order,
    rw h.unchanged (rw keyed at h.known),
    ap (λ x. x.order_id) h.receipt,
    ap (λ x. x.number) h.receipt,
  )

  IsCreated-Recorded :
      (db db' : Db) (r : Receipt)
      → IsCreated key_first between new_ids client now s input db db' r
      → Recorded s.id k db' r
  IsCreated-Recorded db db' r h = (
    h.order,
    rw h.orders (
        create_from-told key_first new_ids now
          (new_order key_first between new_ids client now s input h.lines) k keyed between 5 0 db
          h.outcome.0 h.outcome.1 h.order (unfold create_order in h.ran) h.of),
    ap (λ x. x.order_id) h.receipt,
    ap (λ x. x.number) h.receipt,
  )

  place-Recorded :
      (db db' : Db) (r : Receipt)
      → place key_first between new_ids client now s input db ≡ (db', ok r)
      → Recorded s.id k db' r
  place-Recorded db db' r e =
      elim (place-eq-ok key_first between new_ids client now s input db db' r e) [
        | inl h ↦ IsReplayed-Recorded db db' r h
        | inr h ↦ IsCreated-Recorded db db' r h
      ]

-- Once a submission has been answered with success, a valid submission by the same session with the
-- same key, on the database that the first left, is answered with the same order and number and
-- writes nothing: whatever it orders, at whatever time, and whatever other requests did while the
-- first was creating its order.
pub place-place :
    (key_first : Bool) (between : ℕ → Db → Db) (new_ids : ℕ → ℕ) (client : Client) (now : ℕ)
    (s : ActiveSession) (input : OrderInput) (k : String) (db db' : Db) (r : Receipt)
    (between' : ℕ → Db → Db) (new_ids' : ℕ → ℕ) (client' : Client) (now' : ℕ) (input' : OrderInput)
    → input.idempotency_key ≡ some k
    → place key_first between new_ids client now s input db ≡ (db', ok r)
    → input'.idempotency_key ≡ some k
    → valid_order input' ≡ true
    → place key_first between' new_ids' client' now' s input' db'
      ≡ (db', ok (record r { replayed = true }))
unfolding place place_keyed
place-place key_first between new_ids client now s input k db db' r between' new_ids' client' now'
      input' keyed e keyed' valid =
    let (o, found, i, n) =
      place-Recorded key_first between new_ids client now s input k keyed db db' r e in
    rw (valid, keyed', found) (ground (arith, i, n))
