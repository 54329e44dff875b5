-- ===== src/Prelude/Texts.antt =====
-- Text as the list of its characters' codes, for code that walks it. No character lies outside the
-- basic plane, so the length of such a list is JavaScript's.
use Prim.Native.Nat.{ℕ, zero, suc, ◌+◌, ◌-◌, ◌*◌, ◌/◌, ◌%◌, ◌<◌}
use Prim.Native.Char.{code}
use Prim.Native.String.{String}
use mathlib.Core.Path.{◌≡◌, refl}
use mathlib.Core.Logic.{inl, inr}
use mathlib.Core.List.{List, [], ◌∷◌, ◌++◌}
use native.Mathlib.Omega.{arith}
use restaurant_app.Prelude.{◌==◌, if◌then◌else◌, Bool-cases, length}

abbrev pub Text : Type 0
Text = List ℕ

abbrev pub codes : String → Text
codes String.[] = []
codes (String.◌∷◌ c s) = code c ∷ codes s

-- `s.repeat(n)`, of one character.
unfoldable pub replicate : ℕ → ℕ → Text
replicate zero c = []
replicate (suc n) c = c ∷ replicate n c

-- `padEnd`, `padStart`.
unfoldable pub pad_end : ℕ → Text → Text
unfolding replicate
pad_end w s = s ++ replicate (w - length s) b' '

unfoldable pub pad_start : ℕ → Text → Text
unfolding replicate
pad_start w s = replicate (w - length s) b' ' ++ s

-- `lines.join(separator)`.
unfoldable pub join : ℕ → List Text → Text
join sep [] = []
join sep (l ∷ []) = l
join sep (l ∷ m ∷ ls) = l ++ sep ∷ join sep (m ∷ ls)

-- A number in decimal: the fuel counts the digits that may still come.
unfoldable pub decimal_from : ℕ → ℕ → Text
decimal_from zero n = []
decimal_from (suc fuel) n =
    let higher = decimal_from fuel (n / 10) in
    if n / 10 == 0 then (b'0' + n) ∷ [] else higher ++ (b'0' + n % 10) ∷ []

unfoldable pub decimal : ℕ → Text
unfolding decimal_from
decimal n = decimal_from (suc n) n

-- The number that digits stand for.
pub value_from : ℕ → Text → ℕ
value_from acc [] = acc
value_from acc (c ∷ s) = value_from (acc * 10 + (c - b'0')) s

value_from-append :
    (acc : ℕ) (s : Text) (c : ℕ) → value_from acc (s ++ c ∷ []) ≡ value_from acc s * 10 + (c - b'0')
unfolding value_from
value_from-append acc [] c = refl
value_from-append acc (d ∷ s) c = value_from-append (acc * 10 + (d - b'0')) s c

value-decimal_from : (fuel n : ℕ) → n < fuel → value_from 0 (decimal_from fuel n) ≡ n
unfolding decimal_from value_from
value-decimal_from zero n h = elim h [ ]
value-decimal_from (suc fuel) n h = elim (Bool-cases (n / 10 == 0)) [
  | inl small ↦ rw small (ground (arith, small))
  | inr big ↦
      let rest : value_from 0 (decimal_from fuel (n / 10)) ≡ n / 10 =
        value-decimal_from fuel (n / 10) (ground (arith, big)) in
      rw (big, value_from-append 0 (decimal_from fuel (n / 10)) (b'0' + n % 10), rest) (omega arith)
]

-- The digits of a number stand for it: the fuel is enough.
pub value-decimal : (n : ℕ) → value_from 0 (decimal n) ≡ n
unfolding decimal
value-decimal n = value-decimal_from (suc n) n (omega arith)
