-- ===== src/Cart/Totals.antt =====
-- The total that the guest is shown is the one that the server computes:
-- src/components/CustomerApp.tsx and src/app/api/orders/route.ts.
use mathlib.Core.Path.{ap₂}
use restaurant_app.Prelude.{
  ℕ, ◌≡◌, ◌≢◌, refl, sym, subst, ◌∙◌, ap, inl, inr, Bool, true, false, ◌||◌, List, [], ◌∷◌, map,
  none, some, Option, arith, All, Pointwise, String, ==_iff, ◌==◌, find_many, find_first,
  includes_id, Bool-cases,
}
use restaurant_app.Prelude.Int.{ℤ, pos, ◌+ℤ◌, ◌*ℤ◌, sum_by, int_laws, +ℤ_zero, +ℤ_comm}
use restaurant_app.Prelude.Rows.{Distinct, find_first-All, All-mono, All-always}
use restaurant_app.Prelude.Keys.{find_many_none, find_many_ext}
use restaurant_app.Schema.{MenuItem}
use restaurant_app.Pricing.{
  Choice, PricedLine, chosen, choice_is, choice_delta, options_of, price_all, priced, order_total,
  line_price,
}
use restaurant_app.Pricing.Sound.{IsPriced, price_all_iff}
use restaurant_app.Cart.{
  CartLine, picked, item_by_id, total_found, line_total, cart_total, request_of, line_input,
  or_this,
}

module _ {A : Type 0} (f : A → ℤ) where
  -- The rows that pass one of two tests which exclude each other.
  sum_by-or :
      (p q : A → Bool) (xs : List A)
      → All (λ x. p x ≡ true → q x ≡ false) xs
      → sum_by f (find_many (λ x. p x || q x) xs)
        ≡ sum_by f (find_many p xs) +ℤ sum_by f (find_many q xs)
  unfolding find_many
  sum_by-or p q [] h = sym (+ℤ_zero _)
  sum_by-or p q (x ∷ xs) (h, hs) = elim (Bool-cases (p x)) [
    | inl e ↦ rw (e, h e, sum_by-or p q xs hs) (omega int_laws)
    | inr e ↦ elim (Bool-cases (q x)) [
      | inl k ↦ rw (e, k, sum_by-or p q xs hs) (omega int_laws)
      | inr k ↦ rw (e, k, sum_by-or p q xs hs) refl
    ]
  ]

  abbrev of_found : Option A → ℤ
  of_found none = pos 0
  of_found (some x) = f x

  -- With distinct keys the rows with one key are the one that is found.
  sum_by-key :
      (key : A → ℕ) (i : ℕ) (xs : List A)
      → Distinct key xs
      → sum_by f (find_many (λ x. key x == i) xs) ≡ of_found (find_first (λ x. key x == i) xs)
  unfolding find_many find_first
  sum_by-key key i [] d = refl
  sum_by-key key i (x ∷ xs) (d, ds) = elim (Bool-cases (key x == i)) [
    | inl e ↦
        rw (e, find_many_none _ xs (All-mono (λ y ne. other y (key x) i ne e) xs d))
          (+ℤ_comm _ _ ∙ +ℤ_zero _)
    | inr e ↦ rw (e, sum_by-key key i xs ds) refl
  ]
    where
      other : (y : A) → (a b : ℕ) → ¬ (a ≡ key y) → (a == b) ≡ true → (key y == b) ≡ false
      other y a b ne e = ground (arith, ne, e)

-- The ids of the choices of an item.
abbrev pub choice_id : Choice → ℕ
choice_id c = c.option.id

abbrev pub IsNew : ℕ → List ℕ → Type 0
IsNew i is = includes_id is i ≡ false

abbrev pub NoRepeat : List ℕ → Type 0
NoRepeat [] = Unit
NoRepeat (i ∷ is) = IsNew i is × NoRepeat is

chosen-cons :
    (all : List Choice) (i : ℕ) (is : List ℕ)
    → chosen all (i ∷ is)
      ≡ elim (find_first (choice_is i) all) [ none ↦ chosen all is | some c ↦ c ∷ chosen all is ]
unfolding chosen
chosen-cons all i is = refl

sum_by-chosen_cons :
    (all : List Choice) (i : ℕ) (is : List ℕ)
    → sum_by choice_delta (chosen all (i ∷ is))
      ≡ of_found choice_delta (find_first (choice_is i) all) +ℤ sum_by choice_delta (chosen all is)
sum_by-chosen_cons all i is =
    ap (sum_by choice_delta) (chosen-cons all i is) ∙ go (find_first (choice_is i) all)
  where
    go :
        (o : Option Choice)
        → sum_by choice_delta (elim o [ none ↦ chosen all is | some c ↦ c ∷ chosen all is ])
          ≡ of_found choice_delta o +ℤ sum_by choice_delta (chosen all is)
    go none = sym (+ℤ_zero _)
    go (some c) = refl

-- The server adds up the options in the order of the request, the phone in that of the menu.
sum_by-chosen :
    (all : List Choice) (ids : List ℕ)
    → Distinct choice_id all
    → NoRepeat ids
    → sum_by choice_delta (chosen all ids) ≡ sum_by choice_delta (picked ids all)
unfolding chosen
sum_by-chosen all [] d n =
    ap (sum_by choice_delta) (sym (find_many_none _ all (All-always (λ c. refl) all)))
sum_by-chosen all (i ∷ is) d (new, n) =
    sum_by-chosen_cons all i is
    ∙ ap (λ a. of_found choice_delta (find_first (choice_is i) all) +ℤ a) (sum_by-chosen all is d n)
    ∙ ap (λ a. a +ℤ sum_by choice_delta (picked is all))
        (sym (sum_by-key choice_delta choice_id i all d))
    ∙ sym (
        sum_by-or choice_delta (choice_is i) (λ c. includes_id is c.option.id) all
          (All-always apart all))
    ∙ ap (sum_by choice_delta) (
        find_many_ext _ _ (λ c. ap (λ b. b || includes_id is c.option.id) (flip c.option.id i)) all)
  where
    flip : (a b : ℕ) → (a == b) ≡ (b == a)
    flip a b = ground arith

    apart : (c : Choice) → choice_is i c ≡ true → includes_id is c.option.id ≡ false
    apart c e = ap (includes_id is) ((==_iff c.option.id i).0 e) ∙ new

or_this-false : (m : MenuItem) (o : Option MenuItem) → or_this m false o ≡ o
or_this-false m none = refl
or_this-false m (some x) = refl

item_by_id-none : (i : ℕ) (ms : List MenuItem) → All (λ m. i ≢ m.id) ms → item_by_id ms i ≡ none
unfolding item_by_id
item_by_id-none i [] h = refl
item_by_id-none i (m ∷ ms) (h, hs) = ground (arith, h, item_by_id-none i ms hs)

item_by_id-find_first :
    (i : ℕ) (ms : List MenuItem)
    → Distinct (λ m. m.id) ms
    → item_by_id ms i ≡ find_first (λ m. m.id == i) ms
unfolding item_by_id find_first
item_by_id-find_first i [] d = refl
item_by_id-find_first i (m ∷ ms) (d, ds) = elim (Bool-cases (m.id == i)) [
  | inl e ↦
      rw (item_by_id-none i ms (subst (λ j. All (λ x. j ≢ x.id) ms) ((==_iff m.id i).0 e) d), e)
        refl
  | inr e ↦ rw e (or_this-false m (item_by_id ms i) ∙ item_by_id-find_first i ms ds)
]

-- A line of the cart that the server prices costs there what the phone shows.
line_price-line_total :
    (menu : List MenuItem) (l : CartLine) (p : PricedLine)
    → Distinct (λ m. m.id) menu
    → All (λ m. Distinct choice_id (options_of m.modifier_groups)) menu
    → NoRepeat l.option_ids
    → IsPriced menu (line_input l) p
    → line_price p ≡ line_total menu l
unfolding line_total total_found
line_price-line_total menu l p d ds n h =
    let options = find_first-All _ _ menu ds h.listed in
    ap line_price h.result
    ∙ ap (λ a. (h.item.price_kurus +ℤ a) *ℤ pos l.qty) (sum_by-chosen _ l.option_ids options n)
    ∙ sym (ap (total_found l) (item_by_id-find_first l.item_id menu d ∙ h.listed))

order_total-cart_total :
    (menu : List MenuItem) (cart : List CartLine) (ps : List PricedLine)
    → Distinct (λ m. m.id) menu
    → All (λ m. Distinct choice_id (options_of m.modifier_groups)) menu
    → All (λ l. NoRepeat l.option_ids) cart
    → Pointwise (IsPriced menu) (map line_input cart) ps
    → order_total ps ≡ cart_total menu cart
order_total-cart_total menu [] [] d ds n h = refl
order_total-cart_total menu [] (p ∷ ps) d ds n h = elim h [ ]
order_total-cart_total menu (l ∷ ls) [] d ds n h = elim h [ ]
order_total-cart_total menu (l ∷ ls) (p ∷ ps) d ds (n, ns) (h, hs) =
    ap₂ ◌+ℤ◌ (line_price-line_total menu l p d ds n h)
      (order_total-cart_total menu ls ps d ds ns hs)

-- The total at which the server prices an order is the one that the phone has shown for its cart,
-- if both see the same menu, whose items have distinct ids, as have the options of each, and no
-- line of the cart names an option twice.
pub price_all-cart_total :
    (menu : List MenuItem) (cart : List CartLine) (key : String) (ps : List PricedLine)
    → Distinct (λ m. m.id) menu
    → All (λ m. Distinct choice_id (options_of m.modifier_groups)) menu
    → All (λ l. NoRepeat l.option_ids) cart
    → price_all menu (request_of key cart).items ≡ priced ps
    → order_total ps ≡ cart_total menu cart
price_all-cart_total menu cart key ps d ds n e =
    order_total-cart_total menu cart ps d ds n ((price_all_iff menu (map line_input cart) ps).0 e)
