-- ===== src/Menu/Admin.antt =====
-- The admin's requests on the menu: src/app/api/admin/items/route.ts,
-- src/app/api/admin/items/[id]/route.ts, src/app/api/admin/categories/route.ts,
-- src/app/api/admin/categories/[id]/route.ts, `itemSchema` of src/lib/validation.ts, and
-- `updateVenueSettings` of src/lib/venueSettings.ts. The ids of new rows are given; the fields that
-- a request may leave out are options.
pub mod Input
pub mod Effects
pub mod Fresh
mod Tests
pub use Input.{OptionInput, GroupInput, ItemInput, valid_item, NewIds, text_or, item_row}
use restaurant_app.Prelude.{
  ℕ, zero, suc, Bool, true, false, not, ◌&&◌, ◌||◌, List, [], ◌∷◌, ◌++◌, Option, none, some, String,
  leb, ◌==◌, if◌then◌else◌, find_many, find_first, update_many, any, every, str_eq, includes_id,
}
use restaurant_app.Prelude.Int.{ℤ, pos, negsuc, pos_part}
use restaurant_app.Api.{
  StaffClaims, Reply, ok, fail, unauthorized, not_found, invalid, name_required, bad_category,
  category_not_empty, nothing_to_do, uncaught,
}
use restaurant_app.Tables.{given_or}
use restaurant_app.Menu.{
  Catalog, CategoryRow, GroupRow, ItemRow, Menus, OptionRow, VenueRow, publish_changed,
}

abbrev pub own_category : (i venue : ℕ) → CategoryRow → Bool
own_category i venue c = (c.id == i) && (c.venue_id == venue)

abbrev pub own_item : (i venue : ℕ) → ItemRow → Bool
own_item i venue m = (m.id == i) && (m.venue_id == venue)

create_item : NewIds → ℕ → ItemInput → Option CategoryRow → Menus → Menus × Reply ℕ
create_item ids venue d none s = (s, fail 400 bad_category)
create_item ids venue d (some c) s = (
  publish_changed venue
      (record s { db = record s.db { items = s.db.items ++ item_row ids ids.item venue d ∷ [] } }),
  ok ids.item,
)

pub post_item : Option StaffClaims → NewIds → ItemInput → Menus → Menus × Reply ℕ
unfolding create_item
post_item none ids d s = (s, fail 401 unauthorized)
post_item (some staff) ids d s =
    if not (valid_item d)
    then (s, fail 400 invalid)
    else create_item ids staff.venue_id d
        (find_first (own_category d.category_id staff.venue_id) s.db.categories) s

-- The body of a change: availability alone, or the whole item. The database refuses a category that
-- does not exist.
pub data ItemPatch : Type 0 where
  available_only : Bool → ItemPatch
  whole : ItemInput → ItemPatch

abbrev write_item : ℕ → (ItemRow → ItemRow) → Menus → Menus
write_item i f s = record s {
  db = record s.db { items = update_many (λ m. m.id == i) f s.db.items };
}

change_item : NewIds → (i venue : ℕ) → ItemPatch → Option ItemRow → Menus → Menus × Reply (Unit {0})
change_item ids i venue p none s = (s, fail 404 not_found)
change_item ids i venue (available_only b) (some m) s =
    (publish_changed venue (write_item i (λ m. record m { available = b }) s), ok tt)
change_item ids i venue (whole d) (some m) s =
    if not (valid_item d)
    then (s, fail 400 invalid)
    else if any (λ c. c.id == d.category_id) s.db.categories
    then (publish_changed venue (write_item i (λ m. item_row ids i m.venue_id d) s), ok tt)
    else (s, fail 500 uncaught)

pub patch_item : Option StaffClaims → NewIds → ℕ → ItemPatch → Menus → Menus × Reply (Unit {0})
unfolding change_item
patch_item none ids i p s = (s, fail 401 unauthorized)
patch_item (some staff) ids i p s =
    change_item ids i staff.venue_id p (find_first (own_item i staff.venue_id) s.db.items) s

-- An item that was ordered is hidden; any other goes. The reply says whether it was hidden.
remove_item : (i venue : ℕ) → Option ItemRow → Menus → Menus × Reply Bool
remove_item i venue none s = (s, fail 404 not_found)
remove_item i venue (some m) s =
    let kept = includes_id s.db.ordered i in
    (
      publish_changed venue (
          if kept then write_item i (λ m. record m { available = false }) s else record s {
            db = record s.db { items = find_many (λ m. not (m.id == i)) s.db.items };
          }),
      ok kept,
    )

pub delete_item : Option StaffClaims → ℕ → Menus → Menus × Reply Bool
unfolding remove_item
delete_item none i s = (s, fail 401 unauthorized)
delete_item (some staff) i s =
    remove_item i staff.venue_id (find_first (own_item i staff.venue_id) s.db.items) s

pub post_category :
    Option StaffClaims → (id : ℕ) → (name_tr name_en : String) → ℤ → Menus → Menus × Reply ℕ
post_category none id name_tr name_en sort_order s = (s, fail 401 unauthorized)
post_category (some staff) id name_tr name_en sort_order s =
    if str_eq name_tr ""
    then (s, fail 400 name_required)
    else let row : CategoryRow = record {
      id = id;
      venue_id = staff.venue_id;
      name_tr = name_tr;
      name_en = text_or name_en name_tr;
      sort_order = sort_order;
      active = true;
    } in
      (
        publish_changed staff.venue_id
            (record s { db = record s.db { categories = s.db.categories ++ row ∷ [] } }),
        ok id,
      )

pub record CategoryPatch : Type 0 where
  pub name_tr : Option String
  pub name_en : Option String
  pub sort_order : Option ℤ
  pub active : Option Bool

abbrev change_category : CategoryPatch → CategoryRow → CategoryRow
change_category p c = record c {
  name_tr = given_or p.name_tr c.name_tr;
  name_en = given_or p.name_en c.name_en;
  sort_order = given_or p.sort_order c.sort_order;
  active = given_or p.active c.active;
}

category_found :
    (i venue : ℕ) → CategoryPatch → Option CategoryRow → Menus → Menus × Reply (Unit {0})
category_found i venue p none s = (s, fail 404 not_found)
category_found i venue p (some c) s = (
  publish_changed venue (record s {
    db = record s.db {
      categories = update_many (λ c. c.id == i) (change_category p) s.db.categories;
    };
  }),
  ok tt,
)

pub patch_category : Option StaffClaims → ℕ → CategoryPatch → Menus → Menus × Reply (Unit {0})
unfolding category_found
patch_category none i p s = (s, fail 401 unauthorized)
patch_category (some staff) i p s =
    category_found i staff.venue_id p (find_first (own_category i staff.venue_id) s.db.categories) s

remove_category : (i venue : ℕ) → Option CategoryRow → Menus → Menus × Reply (Unit {0})
remove_category i venue none s = (s, fail 404 not_found)
remove_category i venue (some c) s =
    if any (λ m. m.category_id == i) s.db.items then (s, fail 409 category_not_empty) else (
      publish_changed venue (record s {
        db = record s.db { categories = find_many (λ c. not (c.id == i)) s.db.categories };
      }),
      ok tt,
    )

pub delete_category : Option StaffClaims → ℕ → Menus → Menus × Reply (Unit {0})
unfolding remove_category
delete_category none i s = (s, fail 401 unauthorized)
delete_category (some staff) i s =
    remove_category i staff.venue_id (find_first (own_category i staff.venue_id) s.db.categories) s

pub record VenueSettings : Type 0 where
  pub name : Option String
  pub currency : Option String
  pub default_locale : Option String
  pub pos_adapter : Option String

abbrev is_given : {A : Type 0} → Option A → Bool
is_given none = false
is_given (some _) = true

abbrev change_venue : VenueSettings → VenueRow → VenueRow
change_venue d v = record v {
  name = given_or d.name v.name;
  currency = given_or d.currency v.currency;
  default_locale = given_or d.default_locale v.default_locale;
  pos_adapter = given_or d.pos_adapter v.pos_adapter;
}

pub update_venue_settings : (venue : ℕ) → VenueSettings → Menus → Menus × Reply (Unit {0})
update_venue_settings venue d s =
    if is_given d.name || is_given d.currency || is_given d.default_locale || is_given d.pos_adapter
    then (
      publish_changed venue (record s {
        db = record s.db { venues = update_many (λ v. v.id == venue) (change_venue d) s.db.venues };
      }),
      ok tt,
    )
    else (s, fail 400 nothing_to_do)
