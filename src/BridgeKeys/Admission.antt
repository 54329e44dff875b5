-- ===== src/BridgeKeys/Admission.antt =====
-- A key from its creation to its removal: src/lib/bridgeKey.ts and src/lib/venueSettings.ts.
use restaurant_app.Prelude.{
  ℕ, ◌≡◌, refl, false, not, List, [], ◌∷◌, ◌++◌, none, some, String, Bool, arith, any, find_first,
  find_many, str_eq_iff,
}
use restaurant_app.Prelude.Keys.{find_first-append_new}
use restaurant_app.Prelude.Texts.{Text}
use restaurant_app.BridgeKeys.{
  BridgeKey, is_key, has_hash, key_row, new_bridge_key, create_bridge_key, delete_bridge_key,
  venue_for_bridge_key,
}

-- A read that sees none of the old rows finds nothing once the new row is gone.
find_first-find_many_gone :
    {A : Type 0} (q p : A → Bool) (xs : List A) (x : A)
    → any q xs ≡ false
    → p x ≡ false
    → find_first q (find_many p (xs ++ x ∷ [])) ≡ none
unfolding find_first find_many
find_first-find_many_gone q p [] x h e = ground (arith, e)
find_first-find_many_gone q p (y ∷ ys) x h e =
    ground (arith, h, e, find_first-find_many_gone q p ys x)

-- A new key opens its venue to the agent that presents it; once an admin of the venue has deleted
-- it, it opens none. No other key has its digest.
pub create_bridge_key-delete_bridge_key :
    (hash : Text → String) (trim : String → String) (id venue now : ℕ) (label : String)
    (digits : Text) (keys : List BridgeKey)
    → any (has_hash (hash (new_bridge_key digits))) keys ≡ false
    → (let made = create_bridge_key hash trim id venue now label digits keys in
        (venue_for_bridge_key hash (some made.1) made.0 ≡ some venue)
        × (venue_for_bridge_key hash (some made.1) (delete_bridge_key venue id made.0).0 ≡ none))
unfolding create_bridge_key delete_bridge_key venue_for_bridge_key
create_bridge_key-delete_bridge_key hash trim id venue now label digits keys new =
    let key = new_bridge_key digits in
    let row = key_row hash trim id venue now label key in
    (
      rw (find_first-append_new (has_hash (hash key)) keys row new ((str_eq_iff _ _).1 refl)) refl,
      rw
          (find_first-find_many_gone (has_hash (hash key)) (λ k. not (is_key venue id k)) keys row
            new (ground arith))
          refl,
    )
