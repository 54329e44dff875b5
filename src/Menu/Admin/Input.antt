-- ===== src/Menu/Admin/Input.antt =====
-- The bodies of the admin's requests on items: `itemSchema` of src/lib/validation.ts, and the rows
-- that src/app/api/admin/items/route.ts creates from one.
use restaurant_app.Prelude.{
  ℕ, suc, Bool, false, not, ◌&&◌, List, [], ◌∷◌, Option, String, leb, if◌then◌else◌, every, str_eq,
}
use restaurant_app.Prelude.Int.{ℤ, pos, negsuc, pos_part}
use restaurant_app.Menu.{GroupRow, ItemRow, OptionRow}

pub record OptionInput : Type 0 where
  pub name_tr : String
  pub name_en : String
  pub price_delta_kurus : ℤ

pub record GroupInput : Type 0 where
  pub name_tr : String
  pub name_en : String
  pub min_select : ℤ
  pub max_select : ℤ
  pub options : List OptionInput

pub record ItemInput : Type 0 where
  pub category_id : ℕ
  pub name_tr : String
  pub name_en : String
  pub desc_tr : String
  pub desc_en : String
  pub price_kurus : ℤ
  pub photo_url : Option String
  pub tags : String
  pub available : Bool
  pub sort_order : ℤ
  pub modifier_groups : List GroupInput

abbrev at_least : ℕ → ℤ → Bool
at_least n (pos m) = leb n m
at_least n (negsuc m) = false

abbrev given : String → Bool
given s = not (str_eq s "")

abbrev valid_option : OptionInput → Bool
valid_option o = given o.name_tr

abbrev valid_group : GroupInput → Bool
valid_group g =
    given g.name_tr
    && at_least 0 g.min_select
    && at_least 1 g.max_select
    && every valid_option g.options

-- `itemSchema`.
abbrev pub valid_item : ItemInput → Bool
valid_item d = given d.name_tr && at_least 0 d.price_kurus && every valid_group d.modifier_groups

-- The ids of the rows that a request creates: the item, its groups and their options by place.
pub record NewIds : Type 0 where
  pub item : ℕ
  pub group : ℕ → ℕ
  pub option : ℕ → ℕ → ℕ

abbrev pub text_or : String → String → String
text_or a b = if str_eq a "" then b else a

create_options : (ℕ → ℕ) → ℕ → List OptionInput → List OptionRow
create_options id k [] = []
create_options id k (o ∷ os) =
    record {
      id = id k;
      name_tr = o.name_tr;
      name_en = text_or o.name_en o.name_tr;
      price_delta_kurus = o.price_delta_kurus;
      sort_order = pos k;
    }
    ∷ create_options id (suc k) os

create_groups : NewIds → ℕ → List GroupInput → List GroupRow
unfolding create_options
create_groups ids k [] = []
create_groups ids k (g ∷ gs) =
    record {
      id = ids.group k;
      name_tr = g.name_tr;
      name_en = text_or g.name_en g.name_tr;
      min_select = pos_part g.min_select;
      max_select = pos_part g.max_select;
      sort_order = pos k;
      options = create_options (ids.option k) 0 g.options;
    }
    ∷ create_groups ids (suc k) gs

pub item_row : NewIds → (id venue : ℕ) → ItemInput → ItemRow
unfolding create_groups
item_row ids id venue d = record {
  id = id;
  venue_id = venue;
  category_id = d.category_id;
  name_tr = d.name_tr;
  name_en = text_or d.name_en d.name_tr;
  desc_tr = d.desc_tr;
  desc_en = d.desc_en;
  price_kurus = d.price_kurus;
  photo_url = d.photo_url;
  tags = d.tags;
  available = d.available;
  sort_order = d.sort_order;
  modifier_groups = create_groups ids 0 d.modifier_groups;
}
