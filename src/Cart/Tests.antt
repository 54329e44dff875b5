-- ===== src/Cart/Tests.antt =====
-- Taps on the options of a coffee, and the theorem at one.
use restaurant_app.Prelude.{ℕ, ◌≡◌, refl, true, false, [], ◌∷◌, arith, find_many, count}
use restaurant_app.Prelude.Int.{pos}
use restaurant_app.Schema.{ModifierGroup, ModifierOption}
use restaurant_app.Cart.{in_group, toggle}
use restaurant_app.Cart.Sheet.{IsWithin, toggle-Sound}

abbrev small : ModifierOption
small = record { id = 80; name_tr = "Küçük"; price_delta_kurus = pos 0 }

abbrev large : ModifierOption
large = record { id = 81; name_tr = "Büyük"; price_delta_kurus = pos 30 }

abbrev size : ModifierGroup
size = record { id = 8; min_select = 1; max_select = 1; options = small ∷ large ∷ [] }

taps :
    (toggle size large (80 ∷ 70 ∷ []) ≡ 70 ∷ 81 ∷ [])
    × (toggle size large (81 ∷ []) ≡ 81 ∷ [])
    × (toggle (record size { max_select = 2 }) large (80 ∷ 81 ∷ []) ≡ 80 ∷ [])
unfolding toggle find_many count
taps = (refl, refl, refl)

toggle-Sound_example :
    IsWithin size (toggle size large (80 ∷ 70 ∷ []))
    × ((k : ModifierGroup)
        → ((i : ℕ) → in_group k i ≡ true → in_group size i ≡ false)
        → count (in_group k) (toggle size large (80 ∷ 70 ∷ [])) ≡ count (in_group k) (80 ∷ 70 ∷ []))
toggle-Sound_example =
    toggle-Sound size large (80 ∷ 70 ∷ []) refl (omega arith)
      ((refl, (refl, tt)), unfold count in omega arith)
