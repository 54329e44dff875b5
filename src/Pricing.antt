-- ===== src/Pricing.antt =====
-- The checks and the pricing of app/api/orders/route.ts (under src/): the schema of the request, and
-- the loop that prices every line from the menu. Text lengths count characters.
pub mod Sound
mod Tests
use restaurant_app.Prelude.{
  ℕ, zero, suc, ◌+◌, Bool, true, false, not, ◌&&◌, ◌||◌, List, [], ◌∷◌, ◌++◌, map, Option, none,
  some, String, ltb, leb, ◌==◌, if◌then◌else◌, find_many, find_first, count, every, length,
  includes_id,
}
use restaurant_app.Prelude.Int.{ℤ, pos, ◌+ℤ◌, ◌*ℤ◌, sum_by}
use restaurant_app.Schema.{MenuItem, ModifierGroup, ModifierOption, ModifierSnapshot}

pub record LineInput : Type 0 where
  pub item_id : ℕ
  pub qty : ℕ
  pub note : String
  pub option_ids : List ℕ

pub record OrderInput : Type 0 where
  pub items : List LineInput
  pub idempotency_key : Option String

abbrev pub text_length : String → ℕ
text_length String.[] = 0
text_length (String.◌∷◌ c s) = suc (text_length s)

abbrev within : ℕ → ℕ → ℕ → Bool
within lo hi n = leb lo n && leb n hi

abbrev pub valid_line : LineInput → Bool
valid_line l = within 1 20 l.qty && leb (text_length l.note) 200 && leb (length l.option_ids) 20

abbrev valid_key : Option String → Bool
valid_key none = true
valid_key (some k) = within 8 64 (text_length k)

-- `orderSchema`.
unfoldable pub valid_order : OrderInput → Bool
valid_order o =
    within 1 30 (length o.items) && every valid_line o.items && valid_key o.idempotency_key

-- An option with the group it stands in.
pub record Choice : Type 0 where
  pub group_id : ℕ
  pub option : ModifierOption

abbrev pub options_of : List ModifierGroup → List Choice
options_of [] = []
options_of (g ∷ gs) = map (λ o. record { group_id = g.id; option = o }) g.options ++ options_of gs

abbrev pub choice_is : ℕ → Choice → Bool
choice_is i c = c.option.id == i

-- `optionIds.map(id => allOptions.get(id)).filter(o => o !== undefined)`.
unfoldable pub chosen : List Choice → List ℕ → List Choice
chosen all [] = []
chosen all (i ∷ is) =
    let rest = chosen all is in
    elim (find_first (choice_is i) all) [ none ↦ rest | some c ↦ c ∷ rest ]

abbrev pub chosen_in : ModifierGroup → List Choice → ℕ
chosen_in g cs = count (λ c. c.group_id == g.id) cs

-- The first group of the item whose limits the choices break.
unfoldable pub bad_group : List Choice → List ModifierGroup → Option ℕ
bad_group cs [] = none
bad_group cs (g ∷ gs) =
    let rest = bad_group cs gs in
    if ltb (chosen_in g cs) g.min_select || ltb g.max_select (chosen_in g cs)
    then some g.id
    else rest

pub record PricedLine : Type 0 where
  pub item_id : ℕ
  pub name_snapshot : String
  pub unit_price_kurus : ℤ
  pub qty : ℕ
  pub note : String
  pub modifiers : List ModifierSnapshot

pub data Priced (A : Type 0) : Type 0 where
  priced : A → Priced A
  unavailable : ℕ → Priced A
  unknown_option : Priced A
  bad_modifiers : ℕ → Priced A

abbrev pub choice_delta : Choice → ℤ
choice_delta c = c.option.price_delta_kurus

abbrev snapshot : Choice → ModifierSnapshot
snapshot c = record { name = c.option.name_tr; price_delta_kurus = c.option.price_delta_kurus }

abbrev pub priced_line : LineInput → MenuItem → List Choice → PricedLine
priced_line l item cs = record {
  item_id = item.id;
  name_snapshot = item.name_tr;
  unit_price_kurus = item.price_kurus +ℤ sum_by choice_delta cs;
  qty = l.qty;
  note = l.note;
  modifiers = map snapshot cs;
}

price_checked : LineInput → MenuItem → List Choice → Option ℕ → Priced PricedLine
price_checked l item cs none = priced (priced_line l item cs)
price_checked l item cs (some g) = bad_modifiers g

price_found : LineInput → Option MenuItem → Priced PricedLine
unfolding price_checked
price_found l none = unavailable l.item_id
price_found l (some item) =
    if not item.available
    then unavailable l.item_id
    else let cs = chosen (options_of item.modifier_groups) l.option_ids in
      if not (length cs == length l.option_ids)
      then unknown_option
      else price_checked l item cs (bad_group cs item.modifier_groups)

-- The menu of the venue, cut down to the items that the order names.
abbrev pub offered : ℕ → OrderInput → List MenuItem → List MenuItem
offered venue o menu =
    find_many (λ m. includes_id (map (λ l. l.item_id) o.items) m.id && (m.venue_id == venue)) menu

unfoldable pub price_line : List MenuItem → LineInput → Priced PricedLine
unfolding price_found
price_line menu l = price_found l (find_first (λ m. m.id == l.item_id) menu)

after_first : PricedLine → Priced (List PricedLine) → Priced (List PricedLine)
after_first p (priced ps) = priced (p ∷ ps)
after_first p (unavailable i) = unavailable i
after_first p unknown_option = unknown_option
after_first p (bad_modifiers g) = bad_modifiers g

-- The loop over the lines: it ends at the first one that is refused.
both : Priced PricedLine → Priced (List PricedLine) → Priced (List PricedLine)
unfolding after_first
both (priced p) rest = after_first p rest
both (unavailable i) rest = unavailable i
both unknown_option rest = unknown_option
both (bad_modifiers g) rest = bad_modifiers g

unfoldable pub price_all : List MenuItem → List LineInput → Priced (List PricedLine)
unfolding both price_line
price_all menu [] = priced []
price_all menu (l ∷ ls) = both (price_line menu l) (price_all menu ls)

abbrev pub line_price : PricedLine → ℤ
line_price p = p.unit_price_kurus *ℤ pos p.qty

abbrev pub order_total : List PricedLine → ℤ
order_total = sum_by line_price
