-- ===== src/OrderLog/Pages.antt =====
-- Following the cursors through the log (src/lib/pagination.ts, src/app/api/admin/orders/route.ts).
use restaurant_app.Prelude.{
  ℕ, zero, suc, ◌+◌, ◌≤◌, ◌<◌, ◌≡◌, ◌≢◌, refl, sym, ◌∙◌, ap, inl, inr, true, false, List, [], ◌∷◌,
  ◌++◌, Option, none, some, arith, All, leb, length, take, subst, Bool-cases,
}
use mathlib.Core.List.{append_assoc}
use restaurant_app.Schema.{Order}
use restaurant_app.Prelude.Rows.{Distinct}
use restaurant_app.OrderLog.{
  Numeric, order_log, Page, last_of, split_page, after_cursor, from_cursor, read_page,
}

module _ {A : Type 0} (id : A → ℕ) where
  -- The pages that a reader gets who starts at `cursor` and follows each page's cursor; at the page
  -- `k` the log is `log k`. It is given up where a page fails.
  unfoldable pub follow : (log : ℕ → List A) → (limit fuel k : ℕ) → Option ℕ → List A
  follow log limit zero k cursor = []
  follow log limit (suc fuel) k cursor = elim (read_page id limit cursor (log k)) [
    | none ↦ []
    | some p ↦ elim p.next_cursor [
      | none ↦ p.items
      | some c ↦ p.items ++ follow log limit fuel (suc k) (some c)
    ]
  ]

  follow-last :
      (log : ℕ → List A) (limit fuel k : ℕ) (cursor : Option ℕ) (items : List A)
      → read_page id limit cursor (log k) ≡ some (record { items = items; next_cursor = none })
      → follow log limit (suc fuel) k cursor ≡ items
  unfolding follow
  follow-last log limit fuel k cursor items e = rw (follow, e) refl

  follow-more :
      (log : ℕ → List A) (limit fuel k : ℕ) (cursor : Option ℕ) (items : List A) (c : ℕ)
      → read_page id limit cursor (log k) ≡ some (record { items = items; next_cursor = some c })
      → follow log limit (suc fuel) k cursor ≡ items ++ follow log limit fuel (suc k) (some c)
  unfolding follow
  follow-more log limit fuel k cursor items c e = rw (follow, e) refl

  after_cursor-append :
      (xs : List A) (x : A) (ys : List A)
      → All (λ y. id y ≢ id x) xs
      → after_cursor id (id x) (xs ++ x ∷ ys) ≡ ys
  unfolding after_cursor
  after_cursor-append [] x ys h = ground arith
  after_cursor-append (z ∷ zs) x ys (h, hs) = ground (arith, h, after_cursor-append zs x ys hs)

  -- The first `suc n` of a longer list, and the rest.
  record Cut (n : ℕ) (rows : List A) : Type 0 where
    front : List A
    last : A
    back : List A
    split : rows ≡ front ++ last ∷ back
    taken : take (suc n) rows ≡ front ++ last ∷ []
    ends : last_of (front ++ last ∷ []) ≡ some last
    shorter : length back < length rows

  last_of-cons : (x : A) (xs : List A) (y : A) → last_of (x ∷ xs ++ y ∷ []) ≡ last_of (xs ++ y ∷ [])
  last_of-cons x [] y = refl
  last_of-cons x (z ∷ zs) y = refl

  cut : (n : ℕ) (rows : List A) → n < length rows → Cut n rows
  cut n [] h = absurd (omega (arith, h))
  cut zero (x ∷ xs) h = record {
    front = [];
    last = x;
    back = xs;
    split = refl;
    taken = refl;
    ends = refl;
    shorter = omega arith;
  }
  cut (suc n) (x ∷ xs) h =
      let c = cut n xs (omega (arith, h)) in
      record {
        front = x ∷ c.front;
        last = c.last;
        back = c.back;
        split = ap (◌∷◌ x) c.split;
        taken = ap (◌∷◌ x) c.taken;
        ends = last_of-cons x c.front c.last ∙ c.ends;
        shorter = omega (arith, c.shorter);
      }

  take-take : (n : ℕ) (xs : List A) → take n (take (suc n) xs) ≡ take n xs
  take-take zero xs = refl
  take-take (suc n) [] = refl
  take-take (suc n) (x ∷ xs) = ap (◌∷◌ x) (take-take n xs)

  length-take : (n : ℕ) (xs : List A) → n ≤ length xs → length (take n xs) ≡ n
  length-take zero xs h = refl
  length-take (suc n) [] h = omega (arith, h)
  length-take (suc n) (x ∷ xs) h = omega (arith, length-take n xs (omega (arith, h)))

  take_all : (n : ℕ) (xs : List A) → length xs ≤ n → take n xs ≡ xs
  take_all zero [] h = refl
  take_all zero (x ∷ xs) h = absurd (omega (arith, h))
  take_all (suc n) [] h = refl
  take_all (suc n) (x ∷ xs) h = ap (◌∷◌ x) (take_all n xs (omega (arith, h)))

  -- The page that is read of these rows.
  abbrev pub page_of : ℕ → List A → Option (Page A)
  page_of limit rows = split_page id (take (limit + 1) rows) limit

  page_of-short :
      (limit : ℕ) (rows : List A)
      → leb (length rows) limit ≡ true
      → page_of limit rows ≡ some (record { items = rows; next_cursor = none })
  unfolding split_page
  page_of-short limit rows h = rw (take_all (limit + 1) rows (ground arith), h) refl

  page_of-long :
      (n : ℕ) (rows : List A)
      → leb (length rows) (suc n) ≡ false
      → (c : Cut n rows)
      → page_of (suc n) rows
        ≡ some (record { items = c.front ++ c.last ∷ []; next_cursor = some (id c.last) })
  unfolding split_page
  page_of-long n rows h c =
      let two : suc n + 1 ≡ suc (suc n) = omega arith in
      rw
        (
          two,
          length-take (suc (suc n)) rows (ground arith),
          take-take (suc n) rows,
          c.taken,
          c.ends,
        )
        (ground arith)

  All-middle : (P : A → Type 0) (x : A) (rest xs : List A) → All P (xs ++ x ∷ rest) → P x
  All-middle P x rest [] h = h.0
  All-middle P x rest (y ∷ ys) h = All-middle P x rest ys h.1

  seen :
      (xs done : List A) (x : A) (rest : List A)
      → All (λ y. All (λ z. id y ≢ id z) (done ++ x ∷ rest)) xs
      → Distinct id (done ++ x ∷ rest)
      → All (λ y. id y ≢ id x) (xs ++ done)
  seen [] [] x rest h d = tt
  seen [] (y ∷ done) x rest h (d, ds) = (All-middle _ x rest done d, seen [] done x rest tt ds)
  seen (y ∷ xs) done x rest (h, hs) d = (All-middle _ x rest done h, seen xs done x rest hs d)

module _ {A : Type 0} (id : A → ℕ) (log new : ℕ → List A) (rows : List A) (n : ℕ) where
  next_page :
      ((k : ℕ) → log k ≡ new k ++ rows)
      → ((k : ℕ) → All (λ y. All (λ z. id y ≢ id z) rows) (new k))
      → Distinct id rows
      → (k : ℕ) (done : List A) (x : A) (rest : List A) → rows ≡ done ++ x ∷ rest
      → from_cursor id (some (id x)) (log k) ≡ rest
  unfolding from_cursor
  next_page split fresh d k done x rest e =
      rw (split k, e, sym (append_assoc (new k) done (x ∷ rest)))
        (after_cursor-append id (new k ++ done) x rest (
          seen id (new k) done x rest
            (subst (λ r. All (λ y. All (λ z. id y ≢ id z) r) (new k)) e (fresh k))
            (subst (Distinct id) e d)))

  follow-rest :
      ((k : ℕ) → log k ≡ new k ++ rows)
      → ((k : ℕ) → All (λ y. All (λ z. id y ≢ id z) rows) (new k))
      → Distinct id rows
      → (fuel k : ℕ) (cursor : Option ℕ) (done rest : List A) → rows ≡ done ++ rest
      → from_cursor id cursor (log k) ≡ rest
      → length rest < fuel
      → follow id log (suc n) fuel k cursor ≡ rest
  follow-rest split fresh d zero k cursor done rest e f h = absurd (omega (arith, h))
  follow-rest split fresh d (suc fuel) k cursor done rest e f h =
      elim (Bool-cases (leb (length rest) (suc n))) [
        | inl short ↦
            follow-last id log (suc n) fuel k cursor rest
              (ap (page_of id (suc n)) f ∙ page_of-short id (suc n) rest short)
        | inr long ↦
            let c = cut id n rest (ground arith) in
            let seen_now = done ++ c.front in
            let e' : rows ≡ seen_now ++ c.last ∷ c.back =
              e ∙ ap (◌++◌ done) c.split ∙ sym (append_assoc done c.front (c.last ∷ c.back)) in
            let rec =
              follow-rest split fresh d fuel (suc k) (some (id c.last)) (seen_now ++ c.last ∷ [])
                c.back (e' ∙ sym (append_assoc seen_now (c.last ∷ []) c.back))
                (next_page split fresh d (suc k) seen_now c.last c.back e')
                (omega (arith, h, c.shorter)) in
            follow-more id log (suc n) fuel k cursor (c.front ++ c.last ∷ []) (id c.last)
              (ap (page_of id (suc n)) f ∙ page_of-long id n rest long c)
            ∙ ap (◌++◌ (c.front ++ c.last ∷ [])) rec
            ∙ append_assoc c.front (c.last ∷ []) c.back
            ∙ sym c.split
      ]

-- A manager who follows the cursors reads every order of the log once, in order, whatever the page
-- size from 1 on and whatever orders are placed in between: such an order stands before those of
-- the first page, and has an id of its own. The orders have distinct ids, the range of the log
-- stays the same, and as many pages may be read as there are orders, and one more.
pub follow-order_log :
    (venue now : ℕ) (days : Numeric) (orders new : ℕ → List Order) (rows : List Order) (n fuel : ℕ)
    → ((k : ℕ) → order_log venue now days (orders k) ≡ new k ++ rows)
    → ((k : ℕ) → All (λ y. All (λ z. y.id ≢ z.id) rows) (new k))
    → new 0 ≡ []
    → Distinct (λ o. o.id) rows
    → length rows < fuel
    → follow (λ o. o.id) (λ k. order_log venue now days (orders k)) (suc n) fuel 0 none ≡ rows
unfolding from_cursor
follow-order_log venue now days orders new rows n fuel split fresh z d h =
    follow-rest (λ o. o.id) (λ k. order_log venue now days (orders k)) new rows n split fresh d fuel
      0 none [] rows refl (split 0 ∙ ap (λ xs. xs ++ rows) z) h
