-- ===== src/Menu/Rows.antt =====
-- The menu's tables (prisma/schema.prisma) as the admin edits them, and the menu that the phones are
-- given (src/lib/menu.ts).
use restaurant_app.Prelude.{ℕ, Bool, List, Option, String}
use restaurant_app.Prelude.Int.{ℤ}

pub record OptionRow : Type 0 where
  pub id : ℕ
  pub name_tr : String
  pub name_en : String
  pub price_delta_kurus : ℤ
  pub sort_order : ℤ

pub record GroupRow : Type 0 where
  pub id : ℕ
  pub name_tr : String
  pub name_en : String
  pub min_select : ℕ
  pub max_select : ℕ
  pub sort_order : ℤ
  pub options : List OptionRow

pub record ItemRow : Type 0 where
  pub id : ℕ
  pub venue_id : ℕ
  pub category_id : ℕ
  pub name_tr : String
  pub name_en : String
  pub desc_tr : String
  pub desc_en : String
  pub price_kurus : ℤ
  pub photo_url : Option String
  pub tags : String
  pub available : Bool
  pub sort_order : ℤ
  pub modifier_groups : List GroupRow

pub record CategoryRow : Type 0 where
  pub id : ℕ
  pub venue_id : ℕ
  pub name_tr : String
  pub name_en : String
  pub sort_order : ℤ
  pub active : Bool

pub record VenueRow : Type 0 where
  pub id : ℕ
  pub name : String
  pub currency : String
  pub default_locale : String
  pub pos_adapter : String

-- `ordered` are the ids of the items that some order names.
pub record Catalog : Type 0 where
  pub venues : List VenueRow
  pub categories : List CategoryRow
  pub items : List ItemRow
  pub ordered : List ℕ

pub record OptionView : Type 0 where
  pub id : ℕ
  pub name_tr : String
  pub name_en : String
  pub price_delta_kurus : ℤ

pub record GroupView : Type 0 where
  pub id : ℕ
  pub name_tr : String
  pub name_en : String
  pub min_select : ℕ
  pub max_select : ℕ
  pub options : List OptionView

pub record MenuItemView : Type 0 where
  pub id : ℕ
  pub name_tr : String
  pub name_en : String
  pub desc_tr : String
  pub desc_en : String
  pub price_kurus : ℤ
  pub photo_url : Option String
  pub tags : List String
  pub available : Bool
  pub modifier_groups : List GroupView

pub record CategoryView : Type 0 where
  pub id : ℕ
  pub name_tr : String
  pub name_en : String
  pub items : List MenuItemView

pub record VenueView : Type 0 where
  pub name : String
  pub currency : String
  pub default_locale : String

pub record VenueMenu : Type 0 where
  pub venue : VenueView
  pub categories : List CategoryView

pub record CustomerMenu : Type 0 where
  pub menu : VenueMenu
  pub table_name : String
  pub table_code : String
