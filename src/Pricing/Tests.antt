-- ===== src/Pricing/Tests.antt =====
-- Runs of the pricing loop, and the theorem at a concrete order.
use restaurant_app.Prelude.{ℕ, ◌≡◌, refl, ◌↔◌, List, [], ◌∷◌, Pointwise, find_first, count, arith}
use restaurant_app.Prelude.Int.{pos, negsuc, ◌+ℤ◌}
use restaurant_app.Examples.{coffee}
use restaurant_app.Pricing.{
  LineInput, PricedLine, priced, unavailable, unknown_option, bad_modifiers, price_all, chosen,
  bad_group, order_total,
}
use restaurant_app.Cart.{CartLine, cart_total}
use restaurant_app.Cart.Totals.{price_all-cart_total}
use restaurant_app.Pricing.Sound.{IsPriced, price_all_iff}

abbrev ask : ℕ → ℕ → List ℕ → LineInput
ask item qty options = record { item_id = item; qty = qty; note = ""; option_ids = options }

abbrev sold : List PricedLine
sold =
    record {
      item_id = 5;
      name_snapshot = "Kahve";
      unit_price_kurus = pos 270;
      qty = 2;
      note = "";
      modifiers =
          record { name = "Yulaf"; price_delta_kurus = pos 50 }
          ∷ record { name = "Küçük"; price_delta_kurus = negsuc 29 }
          ∷ [];
    }
    ∷ []

price_runs :
    (price_all (coffee ∷ []) (ask 5 2 (70 ∷ 71 ∷ []) ∷ []) ≡ priced sold)
    × (price_all (coffee ∷ []) (ask 6 1 [] ∷ []) ≡ unavailable 6)
    × (price_all (coffee ∷ []) (ask 5 1 (99 ∷ []) ∷ []) ≡ unknown_option)
    × (price_all (coffee ∷ []) (ask 5 1 (70 ∷ 70 ∷ 71 ∷ []) ∷ []) ≡ bad_modifiers 7)
unfolding price_all chosen bad_group find_first count ◌+ℤ◌
price_runs = (refl, refl, refl, refl)

price_all_iff_example :
    (price_all (coffee ∷ []) (ask 5 2 (70 ∷ 71 ∷ []) ∷ []) ≡ priced sold)
    ↔ Pointwise (IsPriced (coffee ∷ [])) (ask 5 2 (70 ∷ 71 ∷ []) ∷ []) sold
price_all_iff_example = price_all_iff (coffee ∷ []) (ask 5 2 (70 ∷ 71 ∷ []) ∷ []) sold

abbrev in_cart : CartLine
in_cart = record { key = "a"; item_id = 5; qty = 2; note = ""; option_ids = 70 ∷ 71 ∷ [] }

price_all-cart_total_example : order_total sold ≡ cart_total (coffee ∷ []) (in_cart ∷ [])
unfolding price_all chosen bad_group find_first count ◌+ℤ◌
price_all-cart_total_example =
    price_all-cart_total (coffee ∷ []) (in_cart ∷ []) "3f0c9a6e-7b21" sold (tt, tt)
      (((omega arith, tt), (tt, tt)), tt) ((refl, (refl, tt)), tt) refl
