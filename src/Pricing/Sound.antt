-- ===== src/Pricing/Sound.antt =====
-- What the pricing loop of app/api/orders/route.ts (under src/) accepts, and at what price.
use restaurant_app.Prelude.{
  ℕ, ◌≤◌, ◌≡◌, ◌≢◌, refl, ap, ◌∙◌, ◌↔◌, inl, inr, true, List, [], ◌∷◌, Option, none, some, arith,
  All, Pointwise, find_first, length, ◌==◌, ==_iff, Bool-cases, Option-cases,
}
use restaurant_app.Schema.{MenuItem, ModifierGroup}
use restaurant_app.Pricing.{
  LineInput, Choice, options_of, choice_is, chosen, chosen_in, bad_group, PricedLine, Priced,
  priced, unavailable, unknown_option, bad_modifiers, priced_line, price_checked, price_found,
  price_line, both, price_all,
}

abbrev pub Known : List Choice → List ℕ → Type 0
Known all ids = All (λ i. find_first (choice_is i) all ≢ none) ids

length-chosen-le : (all : List Choice) (ids : List ℕ) → length (chosen all ids) ≤ length ids
unfolding chosen
length-chosen-le all [] = omega arith
length-chosen-le all (i ∷ ids) = ground (arith, length-chosen-le all ids)

-- No choice is lost exactly when every id is that of an option of the item.
length-chosen_iff :
    (all : List Choice) (ids : List ℕ) → (length (chosen all ids) ≡ length ids) ↔ Known all ids
unfolding chosen
length-chosen_iff all [] = ((λ _. tt), λ _. refl)
length-chosen_iff all (i ∷ ids) = elim (Option-cases (find_first (choice_is i) all)) [
  | inl e ↦ (λ h. absurd (ground (arith, length-chosen-le all ids, e)), λ h. absurd (h.0 e))
  | inr (c, e) ↦
      let ih = length-chosen_iff all ids in
      (λ h. ((λ z. known c e z), ih.0 (ground (arith, e))), λ h. ground (arith, e, ih.1 h.1))
]
  where
    known :
        (c : Choice) → find_first (choice_is i) all ≡ some c → find_first (choice_is i) all ≢ none
    known c e z = cc

abbrev pub WithinLimits : List Choice → ModifierGroup → Type 0
WithinLimits cs g = (g.min_select ≤ chosen_in g cs) × (chosen_in g cs ≤ g.max_select)

bad_group-eq-none_iff :
    (cs : List Choice) (gs : List ModifierGroup)
    → (bad_group cs gs ≡ none) ↔ All (WithinLimits cs) gs
unfolding bad_group
bad_group-eq-none_iff cs [] = ((λ _. tt), λ _. refl)
bad_group-eq-none_iff cs (g ∷ gs) =
    let ih = bad_group-eq-none_iff cs gs in
    ((λ h. ((ground arith, ground arith), ih.0 (ground arith))), λ h. ground (arith, ih.1 h.1, h.0))

-- A line that can be sold, and what it is sold as: the item is on the menu and available, every
-- option is one of its options, every group has a permitted number of choices, and the price of one
-- is the item's and the chosen options' together.
pub record IsPriced (menu : List MenuItem) (l : LineInput) (p : PricedLine) : Type 0 where
  pub item : MenuItem
  pub listed : find_first (λ m. m.id == l.item_id) menu ≡ some item
  pub available : item.available ≡ true
  pub known : Known (options_of item.modifier_groups) l.option_ids
  pub limits :
      All
        (WithinLimits (chosen (options_of item.modifier_groups) l.option_ids))
        item.modifier_groups
  pub result : p ≡ priced_line l item (chosen (options_of item.modifier_groups) l.option_ids)

price_checked-eq-priced :
    (l : LineInput) (item : MenuItem) (cs : List Choice) (bad : Option ℕ) (p : PricedLine)
    → price_checked l item cs bad ≡ priced p
    → (bad ≡ none) × (p ≡ priced_line l item cs)
unfolding price_checked
price_checked-eq-priced l item cs none p e = ground arith
price_checked-eq-priced l item cs (some g) p e = cc

price_found-eq-priced :
    (menu : List MenuItem) (l : LineInput) (found : Option MenuItem) (p : PricedLine)
    → find_first (λ m. m.id == l.item_id) menu ≡ found
    → price_found l found ≡ priced p
    → IsPriced menu l p
unfolding price_found
price_found-eq-priced menu l none p f e = cc
price_found-eq-priced menu l (some item) p f e =
    let cs = chosen (options_of item.modifier_groups) l.option_ids in
    elim (Bool-cases item.available) [
      | inr a ↦ let e' : unavailable l.item_id ≡ priced p = rw (a, price_found) at e in cc
      | inl a ↦ elim (Bool-cases (length cs == length l.option_ids)) [
        | inr n ↦ let e' : unknown_option ≡ priced p = rw (a, price_found, n) at e in cc
        | inl n ↦
            let e' : price_checked l item cs (bad_group cs item.modifier_groups) ≡ priced p =
              rw (a, price_found, n) at e in
            let (fine, result) = price_checked-eq-priced l item cs _ p e' in
            record {
              item = item;
              listed = f;
              available = a;
              known = (length-chosen_iff _ _).0 ((==_iff _ _).0 n);
              limits = (bad_group-eq-none_iff _ _).0 fine;
              result = result;
            }
      ]
    ]

price_found_fine :
    (l : LineInput) (item : MenuItem) (p : PricedLine)
    → item.available ≡ true
    → length (chosen (options_of item.modifier_groups) l.option_ids) ≡ length l.option_ids
    → bad_group (chosen (options_of item.modifier_groups) l.option_ids) item.modifier_groups ≡ none
    → p ≡ priced_line l item (chosen (options_of item.modifier_groups) l.option_ids)
    → price_found l (some item) ≡ priced p
unfolding price_found
price_found_fine l item p a n b r = ground (arith, r)

-- The loop's step accepts a line exactly when it can be sold, and at that price.
price_line_iff :
    (menu : List MenuItem) (l : LineInput) (p : PricedLine)
    → (price_line menu l ≡ priced p) ↔ IsPriced menu l p
unfolding price_line
price_line_iff menu l p = (price_found-eq-priced menu l _ p refl, back)
  where
    back : IsPriced menu l p → price_line menu l ≡ priced p
    back h = rw h.listed (
        price_found_fine l h.item p h.available ((length-chosen_iff _ _).1 h.known)
          ((bad_group-eq-none_iff _ _).1 h.limits) h.result)

both-eq-priced :
    (one : Priced PricedLine) (rest : Priced (List PricedLine)) (ps : List PricedLine)
    → both one rest ≡ priced ps
    → (p : PricedLine) × (qs : List PricedLine) × (one ≡ priced p)
      × (rest ≡ priced qs)
      × (ps ≡ p ∷ qs)
unfolding both
both-eq-priced (priced p) (priced qs) ps e = (p, qs, refl, refl, ground arith)
both-eq-priced (priced p) (unavailable i) ps e = cc
both-eq-priced (priced p) unknown_option ps e = cc
both-eq-priced (priced p) (bad_modifiers g) ps e = cc
both-eq-priced (unavailable i) rest ps e = cc
both-eq-priced unknown_option rest ps e = cc
both-eq-priced (bad_modifiers g) rest ps e = cc

-- An order is priced exactly when every one of its lines can be sold, and then line by line.
pub price_all_iff :
    (menu : List MenuItem) (ls : List LineInput) (ps : List PricedLine)
    → (price_all menu ls ≡ priced ps) ↔ Pointwise (IsPriced menu) ls ps
unfolding price_all
price_all_iff menu [] [] = ((λ _. tt), λ _. refl)
price_all_iff menu [] (p ∷ ps) = ((λ h. ground arith), λ h. absurd h)
price_all_iff menu (l ∷ ls) [] =
    ((λ h. let (p, qs, _, _, e) = both-eq-priced _ _ [] h in ground arith), λ h. absurd h)
price_all_iff menu (l ∷ ls) (p ∷ ps) = (
  λ h.
      let (q, qs, one, rest, e) = both-eq-priced _ _ (p ∷ ps) h in
      (
        (price_line_iff menu l p).0 (one ∙ ap priced (ground arith)),
        (price_all_iff menu ls ps).0 (rest ∙ ap priced (ground arith)),
      ),
  λ h. rw ((price_line_iff menu l p).1 h.0, (price_all_iff menu ls ps).1 h.1) refl,
)
