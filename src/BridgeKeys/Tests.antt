-- ===== src/BridgeKeys/Tests.antt =====
-- A key's hint, and the check of a key.
use restaurant_app.Prelude.{◌≡◌, refl, [], ◌∷◌, none, some, String, find_first}
use restaurant_app.Prelude.Texts.{Text, codes}
use restaurant_app.BridgeKeys.{BridgeKey, venue_for_bridge_key, bridge_key_hint}

-- A toy for the digest.
abbrev digest : Text → String
digest [] = ""
digest (c ∷ s) = Prim.Native.String.◌++◌ "x" (digest s)

abbrev old : BridgeKey
old = record {
  id = 1;
  venue_id = 1;
  key_hash = "xx";
  hint = codes "00";
  label = "bar";
  created_at = 5;
}

hint : bridge_key_hint (codes "bridge-0123456789ab") ≡ codes "6789ab"
hint = refl

admissions :
    (venue_for_bridge_key digest (some (codes "bridge-")) (record old { key_hash = "xxxxxxx" } ∷ [])
      ≡ some 1)
    × (venue_for_bridge_key digest (some (codes "bridge-")) (old ∷ []) ≡ none)
    × (venue_for_bridge_key digest (some (codes "xx")) (old ∷ []) ≡ none)
unfolding venue_for_bridge_key find_first
admissions = (refl, refl, refl)
