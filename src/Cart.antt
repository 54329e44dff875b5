-- ===== src/Cart.antt =====
-- The guest's cart: the option sheet of src/components/customer/ItemSheet.tsx, and the totals and
-- the submission of src/components/CustomerApp.tsx. What the guest is shown beside the totals is
-- left out.
pub mod Totals
pub mod Retry
pub mod Sheet
mod Tests
use restaurant_app.Prelude.{
  ℕ, ◌+◌, Bool, true, false, not, ◌&&◌, ◌||◌, List, [], ◌∷◌, ◌++◌, map, Option, none, some, String,
  leb, ◌==◌, if◌then◌else◌, find_many, count, every, length, includes_id,
}
use restaurant_app.Prelude.Int.{ℤ, pos, ◌+ℤ◌, ◌*ℤ◌, sum_by}
use restaurant_app.Schema.{MenuItem, ModifierGroup, ModifierOption}
use restaurant_app.Pricing.{LineInput, OrderInput, Choice, options_of, choice_delta}

pub record CartLine : Type 0 where
  pub key : String
  pub item_id : ℕ
  pub qty : ℕ
  pub note : String
  pub option_ids : List ℕ

-- A Map keeps the last item that was set under an id.
abbrev pub or_this : MenuItem → Bool → Option MenuItem → Option MenuItem
or_this m hit (some later) = some later
or_this m hit none = if hit then some m else none

unfoldable pub item_by_id : List MenuItem → ℕ → Option MenuItem
item_by_id [] i = none
item_by_id (m ∷ ms) i = or_this m (m.id == i) (item_by_id ms i)

-- The options that are chosen, in the order of the menu.
abbrev pub picked : List ℕ → List Choice → List Choice
picked ids cs = find_many (λ c. includes_id ids c.option.id) cs

abbrev pub unit_price : MenuItem → List ℕ → ℤ
unit_price item ids =
    item.price_kurus +ℤ sum_by choice_delta (picked ids (options_of item.modifier_groups))

unfoldable pub total_found : CartLine → Option MenuItem → ℤ
total_found l none = pos 0
total_found l (some item) = unit_price item l.option_ids *ℤ pos l.qty

unfoldable pub line_total : List MenuItem → CartLine → ℤ
unfolding total_found item_by_id
line_total menu l = total_found l (item_by_id menu l.item_id)

abbrev pub cart_total : List MenuItem → List CartLine → ℤ
cart_total menu cart = sum_by (line_total menu) cart

pub cart_count : List CartLine → ℕ
cart_count [] = 0
cart_count (l ∷ ls) = l.qty + cart_count ls

-- The sheet adds the item only if every group has a number of options that it allows.
abbrev pub group_valid : List ℕ → ModifierGroup → Bool
group_valid ids g =
    let n = count (λ o. includes_id ids o.id) g.options in leb g.min_select n && leb n g.max_select

pub valid : MenuItem → List ℕ → Bool
valid item ids = every (group_valid ids) item.modifier_groups

abbrev pub in_group : ModifierGroup → ℕ → Bool
in_group g i = includes_id (map (λ o. o.id) g.options) i

-- A tap on an option.
pub toggle : ModifierGroup → ModifierOption → List ℕ → List ℕ
toggle g o ids =
    let cleared = find_many (λ i. not (in_group g i)) ids in
    if g.max_select == 1
    then if includes_id ids o.id && (g.min_select == 0) then cleared else cleared ++ o.id ∷ []
    else if includes_id ids o.id
    then find_many (λ i. not (i == o.id)) ids
    else if leb g.max_select (count (in_group g) ids)
    then ids
    else ids ++ o.id ∷ []

-- The phone between two taps on "order".
pub record Phone : Type 0 where
  pub cart : List CartLine
  pub submitting : Bool
  pub idempotency_key : Option String
  pub expired : Bool

abbrev pub line_input : CartLine → LineInput
line_input l = record { item_id = l.item_id; qty = l.qty; note = l.note; option_ids = l.option_ids }

abbrev pub request_of : String → List CartLine → OrderInput
request_of key cart = record { items = map line_input cart; idempotency_key = some key }

abbrev key_or : String → Option String → String
key_or fresh none = fresh
key_or fresh (some k) = k

-- A tap on "order": the request that is sent, if one is. `fresh` is a new random key.
unfoldable pub start_submit : (fresh : String) → Phone → Phone × Option OrderInput
start_submit fresh p =
    if p.submitting
    then (p, none)
    else let key = key_or fresh p.idempotency_key in
      (record p { submitting = true; idempotency_key = some key }, some (request_of key p.cart))

-- What came back: nothing, an order, or an error with its status.
pub data Answer : Type 0 where
  lost : Answer
  placed : (number : ℕ) → Answer
  refused : (status : ℕ) → Answer

unfoldable pub end_submit : Answer → Phone → Phone
end_submit lost p = record p { submitting = false }
end_submit (placed number) p = record p { submitting = false; idempotency_key = none; cart = [] }
end_submit (refused status) p = record p {
  submitting = false;
  expired = p.expired || (status == 401);
}
