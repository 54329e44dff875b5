-- ===== src/Visit/Till.antt =====
-- Whose orders and phones a settlement touches: `settleVisit` of src/lib/visit.ts.
use restaurant_app.Prelude.{
  ℕ, ◌≡◌, ◌≢◌, refl, sym, ap, subst, ◌∙◌, inl, inr, Bool, true, false, ◌&&◌, ◌||◌, List, [], ◌∷◌,
  map, some, arith, All, Pointwise, ◌==◌, find_many, find_first, count, update_many, order_by,
  insert_by, includes_id, Bool-cases,
}
use restaurant_app.Prelude.Int.{ℤ, sum_by}
use restaurant_app.Prelude.Rows.{Distinct, All-update_many, All-always, All-mono}
use restaurant_app.Prelude.Keys.{All-pair}
use restaurant_app.Prelude.Sums.{sum_by-order_by}
use restaurant_app.Schema.{Db, Order, TableVisit}
use restaurant_app.Schema.Status.{is_closed}
use restaurant_app.Bill.{is_visit, owed, owed_orders, order_due, bill_of, bill_found, build_bill}
use restaurant_app.Bill.Shares.{sum_by-lines_of}
use restaurant_app.Visit.{
  Payment, settled, is_live_of, in_flight_of, bill_total, billed, settle_write, settle_visit,
}
use restaurant_app.Visit.Settlement.{settle_visit-IsSettled}

module _ {A : Type 0} (key : A → ℕ) where
  includes_id-order_by :
      (k : A → ℕ) (j : ℕ) (xs : List A)
      → includes_id (map key (order_by k xs)) j ≡ includes_id (map key xs) j
  unfolding order_by
  includes_id-order_by k j [] = refl
  includes_id-order_by k j (x ∷ xs) =
      put (order_by k xs) ∙ ap (λ b. (key x == j) || b) (includes_id-order_by k j xs)
    where
      put :
          (ys : List A)
          → includes_id (map key (insert_by k x ys)) j
            ≡ ((key x == j) || includes_id (map key ys) j)
      put [] = refl
      put (y ∷ ys) = ground (arith, put ys)

  includes_id_none :
      (p : A → Bool) (j : ℕ) (xs : List A)
      → All (λ y. j ≢ key y) xs
      → includes_id (map key (find_many p xs)) j ≡ false
  unfolding find_many
  includes_id_none p j [] h = refl
  includes_id_none p j (x ∷ xs) (h, hs) = ground (arith, h, includes_id_none p j xs hs)

  includes_id-find_many :
      (p : A → Bool) (xs : List A)
      → Distinct key xs
      → All (λ x. includes_id (map key (find_many p xs)) (key x) ≡ p x) xs
  unfolding find_many
  includes_id-find_many p [] d = tt
  includes_id-find_many p (x ∷ xs) (d, ds) = (
    ground (arith, includes_id_none p (key x) xs d),
    All-mono {P = λ y. (key x ≢ key y) × (includes_id (map key (find_many p xs)) (key y) ≡ p y)}
        (λ y h. ground (arith, h.0, h.1)) xs (All-pair _ _ xs d (includes_id-find_many p xs ds)),
  )

module _ {A : Type 0} (R : A → A → Type 0) where
  Pointwise-update_many_both :
      (p : A → Bool) (f : A → A) (xs : List A)
      → All (λ x. (p x ≡ true → R x (f x)) × (p x ≡ false → R x x)) xs
      → Pointwise R xs (update_many p f xs)
  unfolding update_many
  Pointwise-update_many_both p f [] h = tt
  Pointwise-update_many_both p f (x ∷ xs) (h, hs) = elim (Bool-cases (p x)) [
    | inl e ↦ rw e (h.0 e, Pointwise-update_many_both p f xs hs)
    | inr e ↦ rw e (h.1 e, Pointwise-update_many_both p f xs hs)
  ]

-- The orders that a bill names are those that are owed for.
billed-owed :
    (i : ℕ) (db : Db) (v : TableVisit)
    → Distinct (λ o. o.id) db.orders
    → All (λ o. billed (some (bill_of db.items (owed_orders i db.orders) v)) o ≡ owed i o) db.orders
unfolding bill_of
billed-owed i db v ids =
    All-mono
      (λ o h.
        includes_id-order_by (λ o. o.id) (λ o. o.created_at) o.id (find_many (owed i) db.orders)
        ∙ h)
      db.orders (includes_id-find_many (λ o. o.id) (owed i) db.orders ids)

abbrev pay : Payment → Order → Order
pay p o = record o { paid = true; payment_provider = some p.payment_method }

-- Paid if it is owed for by the party, else untouched.
pub record IsPaid (i : ℕ) (p : Payment) (o o' : Order) : Type 0 where
  pub paid :
      owed i o ≡ true → o' ≡ record o { paid = true; payment_provider = some p.payment_method }
  pub else_same : owed i o ≡ false → o' ≡ o

-- What a successful settlement of visit `i` for `total` means.
pub record IsPaidUp (i : ℕ) (p : Payment) (db db' : Db) (total : ℤ) : Type 0 where
  pub closed : All (λ v. is_visit i v ≡ true → is_closed v.status ≡ true) db'.visits
  pub phones : All (λ s. is_live_of i s ≡ false) db'.sessions
  pub cooked : p.force ≡ false → count (in_flight_of i) db.orders ≡ 0
  pub amount : total ≡ sum_by (order_due db.items) (find_many (owed i) db.orders)
  pub orders : Pointwise (IsPaid i p) db.orders db'.orders

bill_total-bill_of :
    (i : ℕ) (db : Db) (v : TableVisit)
    → bill_total (some (bill_of db.items (owed_orders i db.orders) v))
      ≡ sum_by (order_due db.items) (find_many (owed i) db.orders)
unfolding bill_of
bill_total-bill_of i db v =
    sum_by-lines_of db.items (owed_orders i db.orders)
    ∙ sum_by-order_by (order_due db.items) (λ o. o.created_at) (find_many (owed i) db.orders)

find_first-visit :
    (i venue : ℕ) (visits : List TableVisit) (v : TableVisit)
    → find_first (λ v. is_visit i v && (v.venue_id == venue)) visits ≡ some v
    → (w : TableVisit) × (find_first (is_visit i) visits ≡ some w)
unfolding find_first
find_first-visit i venue [] v e = cc
find_first-visit i venue (u ∷ us) v e = elim (Bool-cases (is_visit i u)) [
  | inl h ↦ (u, rw h refl)
  | inr h ↦ let (w, f) = find_first-visit i venue us v (rw h at e) in (w, rw h f)
]

-- If a settlement succeeds, the visit is closed and every session of it is revoked; without `force`
-- none of its orders was in the kitchen; the amount is what the live lines of its orders cost that
-- are neither rejected nor cancelled; and these orders, no others, are marked as paid. Orders have
-- distinct ids.
pub settle_visit-IsPaidUp :
    (now i venue : ℕ) (p : Payment) (db db' : Db) (total : ℤ)
    → Distinct (λ o. o.id) db.orders
    → settle_visit now i venue p db ≡ (db', settled total)
    → IsPaidUp i p db db' total
settle_visit-IsPaidUp now i venue p db db' total ids e =
    let h = settle_visit-IsSettled now i venue p db db' total e in
    let (w, found) = find_first-visit i venue db.visits h.visit h.there in
    let bill : build_bill i db ≡ some (bill_of db.items (owed_orders i db.orders) w) =
      unfold build_bill bill_found in rw found refl in
    record {
      closed = rw h.visits (
          All-update_many {P = λ _. Unit {0}} _ _ (λ v _ q. λ _. refl)
            (λ v _ q. λ k. ground (arith, q, k)) db.visits (All-always (λ _. tt) db.visits));
      phones = rw h.sessions (
          unfold settle_write in
          All-update_many {P = λ _. Unit {0}} _ _ (λ s _ q. ground arith) (λ s _ q. q) db.sessions
            (All-always (λ _. tt) db.sessions));
      cooked = h.cooked;
      amount = h.of_bill ∙ ap bill_total bill ∙ bill_total-bill_of i db w;
      orders =
          subst (λ os. Pointwise (IsPaid i p) db.orders os) (sym (h.orders ∙ written w bill))
            (Pointwise-update_many_both (IsPaid i p) _ _ db.orders
              (All-mono (λ o b. paid_or_same w o b) db.orders (billed-owed i db w ids)));
    }
  where
    written :
        (w : TableVisit)
        → build_bill i db ≡ some (bill_of db.items (owed_orders i db.orders) w)
        → (settle_write now i p (build_bill i db) db).orders
          ≡ update_many
              (billed (some (bill_of db.items (owed_orders i db.orders) w)))
              (pay p)
              db.orders
    written w b = unfold settle_write in ap (λ c. update_many (billed c) (pay p) db.orders) b

    paid_or_same :
        (w : TableVisit) (o : Order)
        → billed (some (bill_of db.items (owed_orders i db.orders) w)) o ≡ owed i o
        → (billed (some (bill_of db.items (owed_orders i db.orders) w)) o ≡ true
            → IsPaid i p o (pay p o))
          × (billed (some (bill_of db.items (owed_orders i db.orders) w)) o ≡ false
              → IsPaid i p o o)
    paid_or_same w o b = (
      λ hit. record { paid = λ _. refl; else_same = λ n. cc },
      λ miss. record { paid = λ n. cc; else_same = λ _. refl },
    )
