-- ===== src/Menu/Admin/Tests.antt =====
-- A dish that is sold out, and the theorem at it.
use restaurant_app.Prelude.{
  ◌≡◌, refl, true, false, [], ◌∷◌, none, some, Option, List, find_first, find_many, update_many,
  map, Bool,
}
use restaurant_app.Prelude.Int.{pos}
use restaurant_app.Api.{StaffClaims, admin}
use restaurant_app.Menu.{
  Catalog, ItemRow, VenueMenu, publish_changed, load_venue_menu, load_found, sorted_by,
  insert_sorted,
}
use restaurant_app.Menu.Admin.{available_only, NewIds, patch_item, change_item}
use restaurant_app.Menu.Admin.Effects.{changed_item, starting, apply}
use restaurant_app.Menu.Admin.Fresh.{Request, read, change, run, run_uncached, OfVenue, run-refines}

abbrev manager : StaffClaims
manager = record { sub = 4; venue_id = 1; role = admin; name = "Can"; ver = 0 }

abbrev soup : ItemRow
soup = record {
  id = 5;
  venue_id = 1;
  category_id = 3;
  name_tr = "Çorba";
  name_en = "Soup";
  desc_tr = "";
  desc_en = "";
  price_kurus = pos 900;
  photo_url = none;
  tags = "vegan,,hot";
  available = true;
  sort_order = pos 0;
  modifier_groups = [];
}

abbrev catalog : Catalog
catalog = record {
  venues =
      record {
        id = 1;
        name = "Heaven";
        currency = "TRY";
        default_locale = "tr";
        pos_adapter = "console";
      }
      ∷ [];
  categories =
      record {
        id = 3;
        venue_id = 1;
        name_tr = "Yemek";
        name_en = "Food";
        sort_order = pos 0;
        active = true;
      }
      ∷ [];
  items = soup ∷ [];
  ordered = [];
}

abbrev ids : NewIds
ids = record { item = 6; group = λ k. k; option = λ k j. j }

abbrev requests : List Request
requests = read ∷ change manager (changed_item ids 5 (available_only false)) ∷ read ∷ []

abbrev offers : Option VenueMenu → List (List Bool)
offers none = []
offers (some m) = map (λ c. map (λ i. i.available) c.items) m.categories

seen : map offers (run_uncached 1 requests catalog) ≡ ((true ∷ []) ∷ []) ∷ ((false ∷ []) ∷ []) ∷ []
unfolding run_uncached load_venue_menu load_found apply patch_item change_item sorted_by
    insert_sorted find_first find_many update_many publish_changed
seen = refl

run-refines_example : run 1 requests (starting catalog) ≡ run_uncached 1 requests catalog
unfolding OfVenue
run-refines_example = run-refines 1 requests catalog (refl, tt)
