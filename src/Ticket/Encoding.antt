-- ===== src/Ticket/Encoding.antt =====
-- The code page of the printer: `encodePc857` of src/lib/pos/ticket.ts.
use restaurant_app.Prelude.{
  ℕ, ◌≤◌, ◌≡◌, ◌≢◌, refl, subst, inl, inr, Bool, true, false, List, [], ◌∷◌, Option, none, some,
  arith, ◌==◌, ◌-◌, ◌++◌, ltb, if◌then◌else◌, All, ==_iff, ◌||◌, Bool-cases, Option-cases,
}
use restaurant_app.Prelude.Texts.{Text, codes}
use restaurant_app.Ticket.{
  pc857, ascii_fallback, lookup, is_printable, encode_mapped, encode_char, encode_pc857,
}

module _ {A : Type 0} where
  lookup-All :
      (P : ℕ × A → Type 0) (c : ℕ) (rows : List (ℕ × A)) {v : A}
      → All P rows
      → lookup c rows ≡ some v
      → P (c, v)
  unfolding lookup
  lookup-All P c [] h e = cc
  lookup-All P c ((k, w) ∷ rows) {v} (h, hs) e = elim (Bool-cases (k == c)) [
    | inl hit ↦
        let p : k ≡ c = (==_iff k c).0 hit in
        let q : w ≡ v = cc (rw hit at e) in subst P (λ i. (p i, q i)) h
    | inr miss ↦ lookup-All P c rows hs (rw miss at e)
  ]

-- Code page 857 from byte 0x80 on, as its standard lists it; three bytes stand for no character.
abbrev page_857 : Text
page_857 =
    codes "ÇüéâäàåçêëèïîıÄÅÉæÆôöòûùİÖÜø£ØŞş"
    ++ codes "áíóúñÑĞğ¿®¬½¼¡«»░▒▓│┤ÁÂÀ©╣║╗╝¢¥┐"
    ++ codes "└┴┬├─┼ãÃ╚╔╩╦╠═╬¤ºªÊËÈ"
    ++ 0xfffd ∷ codes "ÍÎÏ┘┌█▄¦Ì▀"
    ++ codes "ÓßÔÒõÕµ"
    ++ 0xfffd ∷ codes "×ÚÛÙìÿ¯´"
    ++ 0xad ∷ codes "±"
    ++ 0xfffd ∷ codes "¾¶§÷¸°¨·¹³²■"
    ++ 0xa0 ∷ []

char_at : ℕ → Text → ℕ
char_at k [] = 0xfffd
char_at k (c ∷ cs) = let rest = char_at (k - 1) cs in if k == 0 then c else rest

-- What a printer set to the code page shows for a byte.
pub decode_byte : ℕ → ℕ
unfolding char_at
decode_byte b = if ltb b 0x80 then b else char_at (b - 0x80) page_857

pub decode_pc857 : Text → Text
unfolding decode_byte
decode_pc857 [] = []
decode_pc857 (b ∷ s) = decode_byte b ∷ decode_pc857 s

lookup-none :
    {A : Type 0} (c : ℕ) (rows : List (ℕ × A)) → All (λ r. r.0 ≢ c) rows → lookup c rows ≡ none
unfolding lookup
lookup-none c [] h = refl
lookup-none c ((k, v) ∷ rows) (h, hs) = ground (arith, h, lookup-none c rows hs)

-- Every byte of the source's table is the code page's byte of that character, and none of these
-- characters has a fallback.
page_decodes : All (λ r. decode_byte r.1 ≡ r.0) pc857
unfolding decode_byte
page_decodes = (
  refl,
  (
    refl,
    (
      refl,
      (
        refl,
        (
          refl,
          (
            refl,
            (
              refl,
              (
                refl,
                (refl, (refl, (refl, (refl, (refl, (refl, (refl, (refl, (refl, (refl, tt)))))))))),
              ),
            ),
          ),
        ),
      ),
    ),
  ),
)

page_no_fallback : All (λ r. lookup r.0 ascii_fallback ≡ none) pc857
unfolding lookup
page_no_fallback = (
  refl,
  (
    refl,
    (
      refl,
      (
        refl,
        (
          refl,
          (
            refl,
            (
              refl,
              (
                refl,
                (refl, (refl, (refl, (refl, (refl, (refl, (refl, (refl, (refl, (refl, tt)))))))))),
              ),
            ),
          ),
        ),
      ),
    ),
  ),
)

abbrev pub is_mapped : Option ℕ → Bool
is_mapped none = false
is_mapped (some b) = true

-- A printable ASCII character or one of the source's table.
unfoldable pub representable : ℕ → Bool
representable c = is_printable c || is_mapped (lookup c pc857)

printable_no_fallback : (c : ℕ) → is_printable c ≡ true → lookup c ascii_fallback ≡ none
printable_no_fallback c h =
    let lo : 0x20 ≤ c = ground (arith, h) in
    let hi : c ≤ 0x7e = ground (arith, h) in lookup-none c ascii_fallback (omega arith)

printable_not_mapped : (c : ℕ) → is_printable c ≡ true → lookup c pc857 ≡ none
printable_not_mapped c h =
    let hi : c ≤ 0x7e = ground (arith, h) in lookup-none c pc857 (omega arith)

printable_decodes : (c : ℕ) → is_printable c ≡ true → decode_byte c ≡ c
unfolding decode_byte
printable_decodes c h = let hi : c ≤ 0x7e = ground (arith, h) in ground (arith, hi)

-- The one byte that stands for a character.
IsByteOf : ℕ → ℕ → Type 0
IsByteOf c b = (encode_char c (lookup c ascii_fallback) ≡ b ∷ []) × (decode_byte b ≡ c)

encode_char-IsByteOf : (c : ℕ) → representable c ≡ true → (b : ℕ) × IsByteOf c b
unfolding IsByteOf encode_char encode_mapped representable
encode_char-IsByteOf c h = elim (Bool-cases (is_printable c)) [
  | inl p ↦
      (c, (rw (printable_no_fallback c p, printable_not_mapped c p, p) refl, printable_decodes c p))
  | inr n ↦ elim (Option-cases (lookup c pc857)) [
    | inl off ↦ cc (rw off at rw n at h)
    | inr (b, on) ↦ (
      b,
      (
        rw (lookup-All (λ r. lookup r.0 ascii_fallback ≡ none) c pc857 page_no_fallback on, on)
            refl,
        lookup-All (λ r. decode_byte r.1 ≡ r.0) c pc857 page_decodes on,
      ),
    )
  ]
]

-- A printer that is set to code page 857 shows a text whose characters are printable ASCII or in the
-- source's table as that text itself.
pub decode_pc857-encode_pc857 :
    (s : Text) → All (λ c. representable c ≡ true) s → decode_pc857 (encode_pc857 s) ≡ s
unfolding decode_pc857 encode_pc857 IsByteOf
decode_pc857-encode_pc857 [] h = refl
decode_pc857-encode_pc857 (c ∷ s) (h, hs) =
    let (b, (is, back)) = encode_char-IsByteOf c h in
    rw (is, back, decode_pc857-encode_pc857 s hs) refl
