-- ===== src/Ordering/Insert.antt =====
-- Inversion of an insert under the two unique indexes of the Order table.
use restaurant_app.Prelude.{ℕ, ◌≡◌, Bool, true, false, [], ◌∷◌, ◌++◌, arith, any}
use restaurant_app.Schema.{Db, Order}
use restaurant_app.Ordering.{
  NewOrder, has_number, key_taken, order_row, item_rows, inserted, number_conflict, insert_fresh,
  insert,
}

-- A row that went in: it is new under both indexes, and the tables have grown by it and its items.
pub record IsInserted (new_ids : ℕ → ℕ) (now : ℕ) (new : NewOrder) (n : ℕ) (db db' : Db) (o : Order)
    : Type 0 where
  pub key_free : key_taken new.session_id new.idempotency_key db.orders ≡ false
  pub number_free : any (has_number new.venue_id n) db.orders ≡ false
  pub row : o ≡ order_row (new_ids 0) n now new
  pub orders : db'.orders ≡ db.orders ++ o ∷ []
  pub items : db'.items ≡ db.items ++ item_rows (new_ids 0) new_ids 1 new.items

module _ (key_first : Bool) (new_ids : ℕ → ℕ) (now : ℕ) (new : NewOrder) where
  insert-tests :
      (n : ℕ) (db db' : Db) (o : Order)
      → insert key_first new_ids now new n db ≡ inserted db' o
      → (key_taken new.session_id new.idempotency_key db.orders ≡ false)
        × (any (has_number new.venue_id n) db.orders ≡ false)
  unfolding insert
  insert-tests n db db' o e = ground arith

  pub insert-eq-inserted :
      (n : ℕ) (db db' : Db) (o : Order)
      → insert key_first new_ids now new n db ≡ inserted db' o
      → IsInserted new_ids now new n db db' o
  unfolding insert
  insert-eq-inserted n db db' o e =
      let (k, m) = insert-tests n db db' o e in
      let e' : insert_fresh key_first new_ids now new n db ≡ inserted db' o = rw (k, m) at e in
      record {
        key_free = k;
        number_free = m;
        row = unfold insert_fresh in ground arith;
        orders = unfold insert_fresh in ground arith;
        items = unfold insert_fresh in ground arith;
      }

  -- The number index refuses an insert only if the venue has that number already.
  pub insert-number_conflict :
      (n : ℕ) (db : Db)
      → insert key_first new_ids now new n db ≡ number_conflict
      → any (has_number new.venue_id n) db.orders ≡ true
  unfolding insert
  insert-number_conflict n db e = ground arith
