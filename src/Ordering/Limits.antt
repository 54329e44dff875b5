-- ===== src/Ordering/Limits.antt =====
-- The limits on orders, and the price of what is created (src/app/api/orders/route.ts), where the
-- requests are served one after the other.
use native.Mathlib.Decide.{ℕ_discrete}
use restaurant_app.Prelude.{
  ℕ, ◌+◌, ◌≤◌, ◌≡◌, refl, ap, ◌∙◌, inl, inr, Bool, false, List, [], ◌∷◌, ◌++◌, Option, none, some,
  String, arith, any, find_first, count, Bool-cases, if◌then◌else◌,
}
use restaurant_app.Prelude.Rows.{count_append}
use restaurant_app.Schema.{Db, Order}
use restaurant_app.Api.{ActiveSession, Client}
use restaurant_app.Pricing.{
  OrderInput, PricedLine, Priced, priced, unavailable, unknown_option, bad_modifiers, valid_order,
  offered, price_all,
}
use restaurant_app.Ordering.{
  key_taken, last_number, order_row, item_rows, finish_created, new_order, is_recent, is_open,
  over_limit, place_priced, place_new, place_keyed, by_key, place,
}
use restaurant_app.Ordering.Numbers.{create_order_alone}

any_of_find_first :
    {A : Type 0} (p : A → Bool) (xs : List A) → find_first p xs ≡ none → any p xs ≡ false
unfolding find_first
any_of_find_first p [] e = refl
any_of_find_first p (x ∷ xs) e = ground (arith, any_of_find_first p xs)

module _ (key_first : Bool) (between : ℕ → Db → Db) (new_ids : ℕ → ℕ) (client : Client) (now : ℕ)
    (s : ActiveSession) (input : OrderInput)
    (alone : (k : ℕ) (met : Db) → between k met ≡ met) where
  -- The branches of a submission, as to the orders and items.
  pub data Outcome (db db' : Db) : Type 0 where
    kept : db'.orders ≡ db.orders → db'.items ≡ db.items → Outcome db db'
    added :
        (lines : List PricedLine) (o : Order)
        → over_limit now s db.orders ≡ false
        → price_all (offered s.venue_id input db.menu) input.items ≡ priced lines
        → o
          ≡ order_row
              (new_ids 0)
              (last_number s.venue_id db.orders + 1)
              now
              (new_order key_first between new_ids client now s input lines)
        → db'.orders ≡ db.orders ++ o ∷ []
        → db'.items ≡ db.items ++ item_rows (new_ids 0) new_ids 1 lines
        → Outcome db db'

  key_free :
      (db : Db) (k : Option String)
      → by_key key_first between new_ids client now s input k db.orders ≡ none
      → key_taken s.id k db.orders ≡ false
  key_free db none e = refl
  key_free db (some k) e = any_of_find_first _ db.orders e

  place_priced-Outcome :
      (db : Db) (p : Priced (List PricedLine))
      → over_limit now s db.orders ≡ false
      → by_key key_first between new_ids client now s input input.idempotency_key db.orders ≡ none
      → price_all (offered s.venue_id input db.menu) input.items ≡ p
      → Outcome db (place_priced key_first between new_ids client now s input p db).0
  unfolding place_priced
  place_priced-Outcome db (priced lines) w f e =
      let new = new_order key_first between new_ids client now s input lines in
      rw (create_order_alone key_first between new_ids now new db alone (key_free db _ f))
        (unfold finish_created in added lines _ w e refl refl refl)
  place_priced-Outcome db (unavailable i) w f e = kept refl refl
  place_priced-Outcome db unknown_option w f e = kept refl refl
  place_priced-Outcome db (bad_modifiers g) w f e = kept refl refl

  place_keyed-Outcome :
      (db : Db) (found : Option Order)
      → by_key key_first between new_ids client now s input input.idempotency_key db.orders ≡ found
      → Outcome db (place_keyed key_first between new_ids client now s input found db).0
  unfolding place_keyed place_new
  place_keyed-Outcome db (some o) f = kept refl refl
  place_keyed-Outcome db none f = elim (Bool-cases (over_limit now s db.orders)) [
    | inl over ↦ rw over (kept refl refl)
    | inr fine ↦ rw fine (place_priced-Outcome db _ fine f refl)
  ]

  pub place-Outcome :
      (db : Db) → Outcome db (place key_first between new_ids client now s input db).0
  unfolding place
  place-Outcome db = elim (Bool-cases (valid_order input)) [
    | inl valid ↦ rw valid (place_keyed-Outcome db _ refl)
    | inr bad ↦ rw bad (kept refl refl)
  ]

  room :
      (table : ℕ) (db : Db) (o : Order)
      → o.table_id ≡ s.table_id
      → over_limit now s db.orders ≡ false
      → count (is_open table) db.orders ≤ 10
      → count (is_open table) db.orders + (if is_open table o then 1 else 0) ≤ 10
  unfolding over_limit
  room table db o t w h = elim (ℕ_discrete s.table_id table) [
    | yes same ↦ rw (← same) (ground (arith, w))
    | no other ↦ ground (arith, w)
  ]

  Outcome-open :
      (table : ℕ) (db db' : Db)
      → Outcome db db'
      → count (is_open table) db.orders ≤ 10
      → count (is_open table) db'.orders ≤ 10
  Outcome-open table db db' (kept e _) h = rw e h
  Outcome-open table db db' (added lines o w p row e _) h =
      rw (e, count_append (is_open table) db.orders o)
        (room table db o (ap (λ x. x.table_id) row ∙ unfold order_row in refl) w h)

  Outcome-recent :
      (db db' : Db)
      → Outcome db db'
      → count (is_recent now s.id) db.orders ≤ 5
      → count (is_recent now s.id) db'.orders ≤ 5
  Outcome-recent db db' (kept e _) h = rw e h
  Outcome-recent db db' (added lines o w p row e _) h =
      rw (e, count_append (is_recent now s.id) db.orders o) (unfold over_limit in ground (arith, w))

-- If at most ten of a table's orders are open and at most five of the session's are recent, then both
-- are so after a submission by the session, at that table or at another, with no other request in
-- between.
pub place-open_limit :
    (key_first : Bool) (between : ℕ → Db → Db) (new_ids : ℕ → ℕ) (client : Client) (now : ℕ)
    (s : ActiveSession) (input : OrderInput) (table : ℕ) (db : Db)
    → ((k : ℕ) (met : Db) → between k met ≡ met)
    → count (is_open table) db.orders ≤ 10
    → count (is_recent now s.id) db.orders ≤ 5
    → let db' = (place key_first between new_ids client now s input db).0 in
      (count (is_open table) db'.orders ≤ 10) × (count (is_recent now s.id) db'.orders ≤ 5)
place-open_limit key_first between new_ids client now s input table db alone h k =
    let made = place-Outcome key_first between new_ids client now s input alone db in
    (
      Outcome-open key_first between new_ids client now s input alone table db _ made h,
      Outcome-recent key_first between new_ids client now s input alone db _ made k,
    )
