-- ===== src/Ordering/Accepted.antt =====
-- Inversion of the POST handler of src/app/api/orders/route.ts: what an answer of success rests on.
use restaurant_app.Prelude.{
  ℕ, ◌≡◌, refl, ◌⊎◌, inl, inr, Bool, true, false, List, Option, none, some, arith, Bool-cases,
}
use restaurant_app.Schema.{Db, Order}
use restaurant_app.Api.{ActiveSession, Client, ok}
use restaurant_app.Pricing.{
  OrderInput, PricedLine, Priced, priced, unavailable, unknown_option, bad_modifiers, valid_order,
  offered, price_all,
}
use restaurant_app.Ordering.{
  Created, created, existing, exhausted, vanished, create_order, Receipt, receipt_of,
  finish_created, new_order, place_priced, place_new, place_keyed, by_key, place, over_limit,
}

-- The order that an outcome of the creation speaks of.
abbrev pub told : Created → Option Order
told (created o) = some o
told (existing o) = some o
told _ = none

module _ (key_first : Bool) (between : ℕ → Db → Db) (new_ids : ℕ → ℕ) (client : Client) (now : ℕ)
    (s : ActiveSession) (input : OrderInput) (db : Db) where
  -- A new order was asked for, and the creation succeeded.
  pub record IsCreated (db' : Db) (r : Receipt) : Type 0 where
    pub within_limits : over_limit now s db.orders ≡ false
    pub lines : List PricedLine
    pub sold : price_all (offered s.venue_id input db.menu) input.items ≡ priced lines
    pub outcome : Db × Created
    pub ran :
        create_order key_first between new_ids now
          (new_order key_first between new_ids client now s input lines)
          db
        ≡ outcome
    pub order : Order
    pub of : told outcome.1 ≡ some order
    pub orders : db'.orders ≡ outcome.0.orders
    pub items : db'.items ≡ outcome.0.items
    pub receipt : r ≡ receipt_of false order

  -- The key was known already: nothing is written.
  pub record IsReplayed (db' : Db) (r : Receipt) : Type 0 where
    pub order : Order
    pub known :
        by_key key_first between new_ids client now s input input.idempotency_key db.orders
        ≡ some order
    pub unchanged : db' ≡ db
    pub receipt : r ≡ receipt_of true order

  finish_created-eq-ok :
      (lines : List PricedLine) (made : Db × Created) (db' : Db) (r : Receipt)
      → over_limit now s db.orders ≡ false
      → price_all (offered s.venue_id input db.menu) input.items ≡ priced lines
      → create_order key_first between new_ids now
          (new_order key_first between new_ids client now s input lines)
          db
        ≡ made
      → finish_created key_first between new_ids client now s input made ≡ (db', ok r)
      → IsCreated db' r
  unfolding finish_created
  finish_created-eq-ok lines (db₁, created o) db' r w p c e = record {
    within_limits = w;
    lines = lines;
    sold = p;
    outcome = (db₁, created o);
    ran = c;
    order = o;
    of = refl;
    orders = ground arith;
    items = ground arith;
    receipt = ground arith;
  }
  finish_created-eq-ok lines (db₁, existing o) db' r w p c e = record {
    within_limits = w;
    lines = lines;
    sold = p;
    outcome = (db₁, existing o);
    ran = c;
    order = o;
    of = refl;
    orders = ground arith;
    items = ground arith;
    receipt = ground arith;
  }
  finish_created-eq-ok lines (db₁, exhausted) db' r w p c e = absurd (ground arith)
  finish_created-eq-ok lines (db₁, vanished) db' r w p c e = absurd (ground arith)

  place_priced-eq-ok :
      (p : Priced (List PricedLine)) (db' : Db) (r : Receipt)
      → over_limit now s db.orders ≡ false
      → price_all (offered s.venue_id input db.menu) input.items ≡ p
      → place_priced key_first between new_ids client now s input p db ≡ (db', ok r)
      → IsCreated db' r
  unfolding place_priced
  place_priced-eq-ok (priced lines) db' r w p e = finish_created-eq-ok lines _ db' r w p refl e
  place_priced-eq-ok (unavailable i) db' r w p e = absurd (ground arith)
  place_priced-eq-ok unknown_option db' r w p e = absurd (ground arith)
  place_priced-eq-ok (bad_modifiers g) db' r w p e = absurd (ground arith)

  place_new-eq-ok :
      (db' : Db) (r : Receipt)
      → place_new key_first between new_ids client now s input db ≡ (db', ok r)
      → IsCreated db' r
  place_new-eq-ok db' r e = elim (Bool-cases (over_limit now s db.orders)) [
    | inl over ↦ absurd (refused over (unfold place_new in e))
    | inr fine ↦ place_priced-eq-ok _ db' r fine refl (unfold place_new in rw fine at e)
  ]
    where
      refused :
          over_limit now s db.orders ≡ true
          → place_new key_first between new_ids client now s input db ≡ (db', ok r)
          → ⊥
      refused over e = unfold place_new in ground (arith, over)

  place_keyed-eq-ok :
      (found : Option Order) (db' : Db) (r : Receipt)
      → by_key key_first between new_ids client now s input input.idempotency_key db.orders ≡ found
      → place_keyed key_first between new_ids client now s input found db ≡ (db', ok r)
      → IsReplayed db' r ⊎ IsCreated db' r
  unfolding place_keyed
  place_keyed-eq-ok none db' r f e = inr (place_new-eq-ok db' r e)
  place_keyed-eq-ok (some o) db' r f e =
      inl (record { order = o; known = f; unchanged = ground arith; receipt = ground arith })

  -- A success is a replay or a creation.
  pub place-eq-ok :
      (db' : Db) (r : Receipt)
      → place key_first between new_ids client now s input db ≡ (db', ok r)
      → IsReplayed db' r ⊎ IsCreated db' r
  place-eq-ok db' r e = elim (Bool-cases (valid_order input)) [
    | inl valid ↦ place_keyed-eq-ok _ db' r refl (unfold place in rw valid at e)
    | inr bad ↦ absurd (refused bad e)
  ]
    where
      refused :
          valid_order input ≡ false
          → place key_first between new_ids client now s input db ≡ (db', ok r)
          → ⊥
      refused bad e = unfold place in ground (arith, bad)
