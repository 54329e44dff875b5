-- ===== src/Bill/Phones.antt =====
-- How many phones share a bill: the keys of `buildBill`'s map (src/lib/visit.ts) against the set that
-- src/app/api/desk/bills/route.ts counts.
use mathlib.Core.List.{append_assoc, append-nil}
use restaurant_app.Prelude.{
  ℕ, suc, ◌≡◌, refl, sym, ap, ◌∙◌, inl, inr, ◌||◌, List, [], ◌∷◌, ◌++◌, map, arith, if◌then◌else◌,
  order_by, insert_by, length, includes_id, Bool-cases,
}
use restaurant_app.Prelude.Int.{ℤ}
use restaurant_app.Schema.{Order, OrderItem}
use restaurant_app.Bill.{Share, add_share, shares_of, phones_from, order_due, distinct_count}

includes_id-append :
    (xs ys : List ℕ) (i : ℕ) → includes_id (xs ++ ys) i ≡ (includes_id xs i || includes_id ys i)
includes_id-append [] ys i = refl
includes_id-append (x ∷ xs) ys i = ground (arith, includes_id-append xs ys i)

-- Where a number stands does not matter.
distinct_count-last :
    (xs : List ℕ) (i : ℕ) → distinct_count (xs ++ i ∷ []) ≡ distinct_count (i ∷ xs)
unfolding distinct_count
distinct_count-last [] i = refl
distinct_count-last (x ∷ xs) i =
    ground (arith, distinct_count-last xs i, includes_id-append xs (i ∷ []) x)

abbrev pub session_ids : List Order → List ℕ
session_ids orders = map (λ o. o.session_id) orders

abbrev keys : List Share → List ℕ
keys shares = map (λ s. s.session_id) shares

keys-add_share :
    (i : ℕ) (amount : ℤ) (shares : List Share)
    → keys (add_share i amount shares)
      ≡ (if includes_id (keys shares) i then keys shares else keys shares ++ i ∷ [])
unfolding add_share
keys-add_share i amount [] = refl
keys-add_share i amount (s ∷ shares) = ground (arith, keys-add_share i amount shares)

distinct_count-insert_by :
    (key : Order → ℕ) (o : Order) (os : List Order) (i : ℕ)
    → (includes_id (session_ids (insert_by key o os)) i ≡ includes_id (session_ids (o ∷ os)) i)
      × (distinct_count (session_ids (insert_by key o os)) ≡ distinct_count (session_ids (o ∷ os)))
unfolding distinct_count
distinct_count-insert_by key o [] i = (refl, refl)
distinct_count-insert_by key o (x ∷ xs) i =
    ground
      (arith, distinct_count-insert_by key o xs i, distinct_count-insert_by key o xs x.session_id)

distinct_count-order_by :
    (key : Order → ℕ) (os : List Order) (i : ℕ)
    → (includes_id (session_ids (order_by key os)) i ≡ includes_id (session_ids os) i)
      × (distinct_count (session_ids (order_by key os)) ≡ distinct_count (session_ids os))
unfolding distinct_count order_by
distinct_count-order_by key [] i = (refl, refl)
distinct_count-order_by key (o ∷ os) i =
    let (here, _) = distinct_count-order_by key os o.session_id in
    let (in_rest, same) = distinct_count-order_by key os i in
    let (in_all, moved) = distinct_count-insert_by key o (order_by key os) i in
    (ground (arith, in_all, in_rest), moved ∙ ground (arith, here, same))

distinct_count-add_share :
    (i : ℕ) (amount : ℤ) (xs : List ℕ) (shares : List Share)
    → distinct_count (xs ++ keys (add_share i amount shares))
      ≡ distinct_count (i ∷ (xs ++ keys shares))
distinct_count-add_share i amount xs shares =
    rw (keys-add_share i amount shares) (elim (Bool-cases (includes_id (keys shares) i)) [
      | inl e ↦
          rw e (unfold distinct_count in ground (arith, e, includes_id-append xs (keys shares) i))
      | inr e ↦
          rw (e, ← append_assoc xs (keys shares) (i ∷ []))
            (distinct_count-last (xs ++ keys shares) i)
    ])

length_added :
    (i : ℕ) (amount : ℤ) (shares : List Share)
    → length (add_share i amount shares)
      ≡ (if includes_id (keys shares) i then length shares else suc (length shares))
unfolding add_share
length_added i amount [] = refl
length_added i amount (s ∷ shares) = ground (arith, length_added i amount shares)

length-add_share :
    (i : ℕ) (amount : ℤ) (shares : List Share)
    → distinct_count (keys shares) ≡ length shares
    → distinct_count (keys (add_share i amount shares)) ≡ length (add_share i amount shares)
length-add_share i amount shares h =
    distinct_count-add_share i amount [] shares
    ∙ unfold distinct_count in ground (arith, h, length_added i amount shares)

length-shares_of :
    (items : List OrderItem) (shares : List Share) (os : List Order)
    → distinct_count (keys shares) ≡ length shares
    → length (shares_of items shares os) ≡ distinct_count (session_ids os ++ keys shares)
unfolding shares_of
length-shares_of items shares [] h = sym h
length-shares_of items shares (o ∷ os) h =
    length-shares_of items (add_share o.session_id (order_due items o) shares) os
      (length-add_share o.session_id (order_due items o) shares h)
    ∙ distinct_count-add_share o.session_id (order_due items o) (session_ids os) shares

length-phones_from : (k : ℕ) (shares : List Share) → length (phones_from k shares) ≡ length shares
unfolding phones_from
length-phones_from k [] = refl
length-phones_from k (s ∷ shares) = ap suc (length-phones_from (suc k) shares)

-- As many phones share the bill of some orders as there are sessions among them, in whatever order
-- they are taken.
pub length-phones :
    (items : List OrderItem) (key : Order → ℕ) (os : List Order)
    → length (phones_from 1 (shares_of items [] (order_by key os)))
      ≡ distinct_count (session_ids os)
length-phones items key os =
    length-phones_from 1 _
    ∙ length-shares_of items [] (order_by key os) (unfold distinct_count in refl)
    ∙ ap distinct_count (append-nil (session_ids (order_by key os)))
    ∙ (distinct_count-order_by key os 0).1

pub length-order_by : (key : Order → ℕ) (os : List Order) → length (order_by key os) ≡ length os
unfolding order_by
length-order_by key [] = refl
length-order_by key (o ∷ os) = inserted (order_by key os) ∙ ap suc (length-order_by key os)
  where
    inserted : (xs : List Order) → length (insert_by key o xs) ≡ suc (length xs)
    inserted [] = refl
    inserted (x ∷ xs) = ground (arith, inserted xs)
