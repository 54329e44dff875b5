-- ===== src/Session/Cap.antt =====
-- The cap on a table's phones: `mintSession` of src/lib/tableSession.ts.
use restaurant_app.Prelude.{
  ℕ, zero, suc, ◌+◌, ◌≤◌, ◌≡◌, refl, sym, ap, subst, ◌∙◌, inl, inr, Bool, true, false, not, ◌&&◌,
  List, [], ◌∷◌, map, arith, All, ltb, if◌then◌else◌, find_many, count, update_many, order_by,
  insert_by, drop, length, includes_id, Bool-cases,
}
use restaurant_app.Prelude.Rows.{All-mono}
use restaurant_app.Schema.{Db, TableSession}
use restaurant_app.Session.{
  max_active_per_table, is_active_at, reverse_onto, newest_first, revoke, displace, mint_session,
}

module _ {A : Type 0} where
  count-order_by :
      (p : A → Bool) (key : A → ℕ) (xs : List A) → count p (order_by key xs) ≡ count p xs
  unfolding count order_by
  count-order_by p key [] = refl
  count-order_by p key (x ∷ xs) =
      put (order_by key xs) ∙ ap (λ n. if p x then suc n else n) (count-order_by p key xs)
    where
      put :
          (ys : List A)
          → count p (insert_by key x ys) ≡ (let n = count p ys in if p x then suc n else n)
      put [] = refl
      put (y ∷ ys) = ground (arith, put ys)

  count-find_many :
      (p q : A → Bool) (xs : List A) → count (λ x. p x && q x) xs ≡ count q (find_many p xs)
  unfolding count find_many
  count-find_many p q [] = refl
  count-find_many p q (x ∷ xs) = ground (arith, count-find_many p q xs)

  count-update_many_off :
      (p d : A → Bool) (f : A → A) (xs : List A)
      → ((x : A) → p (f x) ≡ false)
      → count p (update_many d f xs) ≡ count (λ x. p x && not (d x)) xs
  unfolding count update_many
  count-update_many_off p d f [] h = refl
  count-update_many_off p d f (x ∷ xs) h = ground (arith, h x, count-update_many_off p d f xs h)

  count-le-take :
      (p : A → Bool) (n : ℕ) (xs : List A) → All (λ x. p x ≡ false) (drop n xs) → count p xs ≤ n
  unfolding count
  count-le-take p zero [] h = omega arith
  count-le-take p zero (x ∷ xs) (h, hs) = ground (arith, h, count-le-take p zero xs hs)
  count-le-take p (suc n) [] h = omega arith
  count-le-take p (suc n) (x ∷ xs) h = ground (arith, count-le-take p n xs h)

  includes_own : (key : A → ℕ) (xs : List A) → All (λ x. includes_id (map key xs) (key x) ≡ true) xs
  includes_own key [] = tt
  includes_own key (x ∷ xs) = (
    ground arith,
    All-mono {P = λ y. includes_id (map key xs) (key y) ≡ true} (λ y h. ground (arith, h)) xs
        (includes_own key xs),
  )

count-reverse_onto :
    (p : TableSession → Bool) (xs ys : List TableSession)
    → count p (reverse_onto xs ys) ≡ count p xs + count p ys
unfolding count reverse_onto
count-reverse_onto p [] ys = omega arith
count-reverse_onto p (x ∷ xs) ys = ground (arith, count-reverse_onto p xs (x ∷ ys))

count-newest_first :
    (p : TableSession → Bool) (xs : List TableSession) → count p (newest_first xs) ≡ count p xs
unfolding newest_first count
count-newest_first p xs =
    let turned = count-reverse_onto p (order_by (λ s. s.created_at) xs) [] in
    let sorted = count-order_by p (λ s. s.created_at) xs in omega arith

count-true : (xs : List TableSession) → count (λ _. true) xs ≤ length xs
unfolding count
count-true [] = omega arith
count-true (x ∷ xs) = ground (arith, count-true xs)

count-all :
    (p : TableSession → Bool) (xs : List TableSession)
    → count p xs ≡ count (λ _. true) (find_many p xs)
unfolding count find_many
count-all p [] = refl
count-all p (x ∷ xs) = ground (arith, count-all p xs)

module _ (table now : ℕ) (ss : List TableSession) where
  active : List TableSession
  active = newest_first (find_many (is_active_at table now) ss)

  dropped : TableSession → Bool
  dropped s = includes_id (map (λ s. s.id) (drop max_active_per_table active)) s.id

  active-newest : count (is_active_at table now) ss ≤ length active
  unfolding active
  active-newest =
      let found = count-all (is_active_at table now) ss in
      let turned = count-newest_first (λ _. true) (find_many (is_active_at table now) ss) in
      let all = count-true (newest_first (find_many (is_active_at table now) ss)) in omega arith

  kept_few : count (λ s. not (dropped s)) active ≤ 6
  unfolding dropped
  kept_few =
      count-le-take (λ s. not (dropped s)) 6 active
        (All-mono (λ s h. ground (arith, h)) (drop 6 active)
          (includes_own (λ s. s.id) (drop 6 active)))

  displaced-cap : count (is_active_at table now) (update_many dropped (revoke now) ss) ≤ 6
  unfolding active
  displaced-cap =
      let off =
        count-update_many_off (is_active_at table now) dropped (revoke now) ss
          (λ s. ground arith) in
      let split = count-find_many (is_active_at table now) (λ s. not (dropped s)) ss in
      let turned =
        count-newest_first (λ s. not (dropped s)) (find_many (is_active_at table now) ss) in
      subst (λ n. n ≤ 6) (sym (off ∙ split ∙ sym turned)) kept_few

-- Whatever sessions there are, at most six phones of the table are active after a displacement.
displace-cap :
    (table now : ℕ) (ss : List TableSession)
    → count (is_active_at table now) (displace table now ss) ≤ 6
unfolding displace dropped active
displace-cap table now ss =
    elim (Bool-cases (ltb max_active_per_table (length (active table now ss)))) [
      | inl e ↦ rw e (displaced-cap table now ss)
      | inr e ↦ let few = active-newest table now ss in rw e (ground (arith, e, few))
    ]

-- When a phone has joined a table, at most six phones of the table are active, however many were
-- before and whatever else is in the tables.
pub mint_session-cap :
    (id visit table venue token now : ℕ) (db : Db)
    → count (is_active_at table now) (mint_session id visit table venue token now db).sessions ≤ 6
unfolding mint_session
mint_session-cap id visit table venue token now db = displace-cap table now _
