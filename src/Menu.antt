-- ===== src/Menu.antt =====
-- The menu: the rows that the admin edits, and the menu that the phones read, src/lib/menu.ts.
-- Every phone of a venue is given one copy, which the event "menu.changed" throws away. A load that
-- is under way counts as done: the copy that is kept is the promise.
pub mod Rows
pub mod Admin
use restaurant_app.Prelude.{
  ℕ, ◌+◌, Bool, true, false, not, ◌&&◌, List, [], ◌∷◌, ◌++◌, map, Option, none, some, String, leb,
  ◌==◌, if◌then◌else◌, find_many, find_first, str_eq,
}
pub use Rows.{
  OptionRow, GroupRow, ItemRow, CategoryRow, VenueRow, Catalog, OptionView, GroupView, MenuItemView,
  CategoryView, VenueView, VenueMenu, CustomerMenu,
}
use restaurant_app.Prelude.Int.{ℤ, pos_part, neg_part}
use restaurant_app.Schema.{BusEvent, menu_changed}
use restaurant_app.Api.{ActiveSession}

-- `orderBy: { sortOrder: "asc" }`.
abbrev leb_ℤ : ℤ → ℤ → Bool
leb_ℤ a b = leb (pos_part a + neg_part b) (pos_part b + neg_part a)

unfoldable pub insert_sorted {ℓ} : {A : Type ℓ} → (A → ℤ) → A → List A → List A
insert_sorted key x [] = x ∷ []
insert_sorted key x (y ∷ ys) =
    let rest = insert_sorted key x ys in if leb_ℤ (key x) (key y) then x ∷ y ∷ ys else y ∷ rest

unfoldable pub sorted_by {ℓ} : {A : Type ℓ} → (A → ℤ) → List A → List A
unfolding insert_sorted
sorted_by key [] = []
sorted_by key (x ∷ xs) = insert_sorted key x (sorted_by key xs)

-- `tags.split(",").filter(Boolean)`.
abbrev onto_first : String → List String → List String
onto_first c [] = c ∷ []
onto_first c (s ∷ ss) = Prim.Native.String.◌++◌ c s ∷ ss

unfoldable pub split_commas : String → List String
split_commas String.[] = "" ∷ []
split_commas (String.◌∷◌ c s) =
    let rest = split_commas s in
    let letter = String.◌∷◌ c String.[] in
    if str_eq letter "," then "" ∷ rest else onto_first letter rest

abbrev split_tags : String → List String
split_tags tags = find_many (λ s. not (str_eq s "")) (split_commas tags)

abbrev pub option_view : OptionRow → OptionView
option_view o = record {
  id = o.id;
  name_tr = o.name_tr;
  name_en = o.name_en;
  price_delta_kurus = o.price_delta_kurus;
}

abbrev pub group_view : GroupRow → GroupView
group_view g = record {
  id = g.id;
  name_tr = g.name_tr;
  name_en = g.name_en;
  min_select = g.min_select;
  max_select = g.max_select;
  options = map option_view (sorted_by (λ o. o.sort_order) g.options);
}

abbrev pub item_view : ItemRow → MenuItemView
item_view i = record {
  id = i.id;
  name_tr = i.name_tr;
  name_en = i.name_en;
  desc_tr = i.desc_tr;
  desc_en = i.desc_en;
  price_kurus = i.price_kurus;
  photo_url = i.photo_url;
  tags = split_tags i.tags;
  available = i.available;
  modifier_groups = map group_view (sorted_by (λ g. g.sort_order) i.modifier_groups);
}

abbrev pub category_view : List ItemRow → CategoryRow → CategoryView
category_view items c = record {
  id = c.id;
  name_tr = c.name_tr;
  name_en = c.name_en;
  items =
      map item_view (sorted_by (λ i. i.sort_order) (find_many (λ i. i.category_id == c.id) items));
}

abbrev venue_view : VenueRow → VenueView
venue_view v = record { name = v.name; currency = v.currency; default_locale = v.default_locale }

load_found : ℕ → Catalog → Option VenueRow → Option VenueMenu
load_found venue db none = none
load_found venue db (some v) = some (record {
  venue = venue_view v;
  categories = map (category_view db.items) (
      sorted_by (λ c. c.sort_order)
        (find_many (λ c. (c.venue_id == venue) && c.active) db.categories));
})

-- `none` if there is no such venue: the load throws.
pub load_venue_menu : ℕ → Catalog → Option VenueMenu
unfolding load_found
load_venue_menu venue db = load_found venue db (find_first (λ v. v.id == venue) db.venues)

pub record Entry : Type 0 where
  pub venue : ℕ
  pub menu : VenueMenu

-- The rows, the copies kept, and the events published.
pub record Menus : Type 0 where
  pub db : Catalog
  pub cache : List Entry
  pub events : List BusEvent

abbrev pub entry_of : ℕ → Entry → Bool
entry_of venue e = e.venue == venue

-- `publish`, with the subscriber that throws the copy away.
pub publish_changed : ℕ → Menus → Menus
publish_changed venue s = record s {
  cache = find_many (λ e. not (entry_of venue e)) s.cache;
  events = s.events ++ menu_changed venue ∷ [];
}

read_loaded : ℕ → Menus → Option VenueMenu → Menus × Option VenueMenu
read_loaded venue s none = (s, none)
read_loaded venue s (some m) =
    (record s { cache = s.cache ++ record { venue = venue; menu = m } ∷ [] }, some m)

read_cached : ℕ → Menus → Option Entry → Menus × Option VenueMenu
unfolding read_loaded
read_cached venue s none = read_loaded venue s (load_venue_menu venue s.db)
read_cached venue s (some e) = (s, some e.menu)

pub venue_menu : ℕ → Menus → Menus × Option VenueMenu
unfolding read_cached
venue_menu venue s = read_cached venue s (find_first (entry_of venue) s.cache)

abbrev for_table : ActiveSession → Option VenueMenu → Option CustomerMenu
for_table session none = none
for_table session (some m) =
    some (record { menu = m; table_name = session.table_name; table_code = session.table_code })

pub menu_for_session : ActiveSession → Menus → Menus × Option CustomerMenu
unfolding venue_menu
menu_for_session session s = let r = venue_menu session.venue_id s in (r.0, for_table session r.1)
