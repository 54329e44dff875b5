-- ===== src/BridgeKeys.antt =====
-- The keys of the agents at the printers: src/lib/bridgeKey.ts, and `createBridgeKey`,
-- `listBridgeKeys` and `deleteBridgeKey` of src/lib/venueSettings.ts, and
-- src/app/api/admin/bridge-keys/route.ts. A key is the list of its characters' codes. `hash` is the
-- digest that is stored in its place, `digits` the random part of a new key, `trim` trims a label.
pub mod Admission
mod Tests
use restaurant_app.Prelude.{
  ℕ, ◌-◌, Bool, true, false, not, ◌&&◌, List, [], ◌∷◌, ◌++◌, map, Option, none, some, String, ltb,
  ◌==◌, if◌then◌else◌, find_many, find_first, count, order_by, length, drop, str_eq,
}
use restaurant_app.Api.{StaffClaims, Reply, ok, fail, unauthorized, not_found}
use restaurant_app.Prelude.Texts.{Text, codes}

pub record BridgeKey : Type 0 where
  pub id : ℕ
  pub venue_id : ℕ
  pub key_hash : String
  pub hint : Text
  pub label : String
  pub created_at : ℕ

abbrev pub bridge_key_prefix : Text
bridge_key_prefix = codes "bridge-"

abbrev pub starts_with : Text → Text → Bool
starts_with [] s = true
starts_with (c ∷ p) [] = false
starts_with (c ∷ p) (d ∷ s) = (c == d) && starts_with p s

abbrev pub new_bridge_key : Text → Text
new_bridge_key digits = bridge_key_prefix ++ digits

abbrev pub bridge_key_hint : Text → Text
bridge_key_hint key = drop (length key - 6) key

pub record BridgeKeyView : Type 0 where
  pub id : ℕ
  pub label : String
  pub hint : Text
  pub created_at : ℕ

abbrev view_key : BridgeKey → BridgeKeyView
view_key k = record {
  id = k.id;
  label = k.label;
  hint = 0x2026 ∷ k.hint;
  created_at = k.created_at;
}

pub list_bridge_keys : ℕ → List BridgeKey → List BridgeKeyView
list_bridge_keys venue keys =
    map view_key (order_by (λ k. k.created_at) (find_many (λ k. k.venue_id == venue) keys))

abbrev pub is_key : (venue id : ℕ) → BridgeKey → Bool
is_key venue id k = (k.id == id) && (k.venue_id == venue)

pub delete_bridge_key : (venue id : ℕ) → List BridgeKey → List BridgeKey × Bool
delete_bridge_key venue id keys =
    (find_many (λ k. not (is_key venue id k)) keys, ltb 0 (count (is_key venue id) keys))

abbrev pub has_hash : String → BridgeKey → Bool
has_hash h k = str_eq k.key_hash h

abbrev venue_of : Option BridgeKey → Option ℕ
venue_of none = none
venue_of (some k) = some k.venue_id

module _ (hash : Text → String) where
  abbrev pub key_row : (trim : String → String) → (id venue now : ℕ) → String → Text → BridgeKey
  key_row trim id venue now label key = record {
    id = id;
    venue_id = venue;
    key_hash = hash key;
    hint = bridge_key_hint key;
    label = if str_eq (trim label) "" then "kitchen-bridge" else trim label;
    created_at = now;
  }

  -- The new key is shown once.
  pub create_bridge_key :
      (trim : String → String)
      → (id venue now : ℕ) → String
      → (digits : Text) → List BridgeKey
      → List BridgeKey × Text
  create_bridge_key trim id venue now label digits keys =
      let key = new_bridge_key digits in (keys ++ key_row trim id venue now label key ∷ [], key)

  pub venue_for_bridge_key : Option Text → List BridgeKey → Option ℕ
  venue_for_bridge_key none keys = none
  venue_for_bridge_key (some key) keys =
      if not (starts_with bridge_key_prefix key)
      then none
      else venue_of (find_first (has_hash (hash key)) keys)

  -- The reply shows the new row's id and the key.
  pub post_bridge_key :
      (trim : String → String)
      → Option StaffClaims
      → (id now : ℕ) → String
      → (digits : Text) → List BridgeKey
      → List BridgeKey × Reply (ℕ × Text)
  unfolding create_bridge_key
  post_bridge_key trim none id now label digits keys = (keys, fail 401 unauthorized)
  post_bridge_key trim (some staff) id now label digits keys =
      let r = create_bridge_key trim id staff.venue_id now label digits keys in (r.0, ok (id, r.1))

deleted_reply : List BridgeKey × Bool → List BridgeKey × Reply (Unit {0})
deleted_reply (keys, true) = (keys, ok tt)
deleted_reply (keys, false) = (keys, fail 404 not_found)

pub remove_bridge_key :
    Option StaffClaims → (id : ℕ) → List BridgeKey → List BridgeKey × Reply (Unit {0})
unfolding delete_bridge_key deleted_reply
remove_bridge_key none id keys = (keys, fail 401 unauthorized)
remove_bridge_key (some staff) id keys = deleted_reply (delete_bridge_key staff.venue_id id keys)
