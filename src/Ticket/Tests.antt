-- ===== src/Ticket/Tests.antt =====
-- A small ticket, and the theorems at it.
use restaurant_app.Prelude.{ℕ, ◌≡◌, refl, true, [], ◌∷◌, ◌++◌, map, none, All}
use restaurant_app.Prelude.Int.{ℤ, pos}
use restaurant_app.Prelude.Texts.{Text, codes, join}
use restaurant_app.Ticket.{Ticket, lookup, encode_pc857, change_line, ticket_lines, body}
use restaurant_app.Ticket.Encoding.{representable, decode_pc857, decode_pc857-encode_pc857}
use restaurant_app.Ticket.LineBreaks.{body_lem}

turkish : encode_pc857 (codes "Şiş ₺9") ≡ 0x9e ∷ b'i' ∷ 0x9f ∷ b' ' ∷ b'T' ∷ b'L' ∷ b'9' ∷ []
unfolding encode_pc857
turkish = refl

change_lines :
    (change_line (record { name = "Kahve"; from_qty = 12; to_qty = 0 })
      ≡ codes "  IPTAL/VOID  Kahve")
    × (change_line (record { name = "Kahve"; from_qty = 12; to_qty = 3 })
        ≡ codes "  12 -> 3   Kahve")
unfolding change_line
change_lines = (refl, refl)

abbrev small : Ticket
small = record {
  venue_name = codes "the heaven";
  currency = codes "TRY";
  table_name = codes "Masa 3";
  order_number = 42;
  created_at = 0;
  lines =
      record {
        qty = 2;
        name = codes "Köfte";
        modifiers = codes "Acılı" ∷ [];
        note = codes "soğansız";
        unit_price_kurus = pos 9_000;
      }
      ∷ [];
  total_kurus = pos 18_000;
  amendment = none;
}

abbrev same : Text → Text
same s = s

abbrev noon : ℕ → Text
noon _ = codes "12:30"

abbrev price : ℤ → Text → Text
price _ _ = codes "₺180"

layout :
    ticket_lines same noon price small
    ≡ codes "           the heaven"
      ∷ codes "         *** Masa 3 ***"
      ∷ codes "Siparis #42                12:30"
      ∷ codes "--------------------------------"
      ∷ codes "2 x Köfte"
      ∷ codes "   + Acılı"
      ∷ codes "   ! soğansız"
      ∷ codes "--------------------------------"
      ∷ codes "                    TOPLAM: ₺180"
      ∷ codes "   Odeme kasada / Pay at till"
      ∷ []
unfolding ticket_lines
layout = refl

body_lem_example :
    body same noon price small
    ≡ join b'?' (map encode_pc857 (ticket_lines same noon price small)) ++ b'?' ∷ b'?' ∷ []
body_lem_example = body_lem same noon price small

decode_pc857-encode_pc857_example :
    decode_pc857 (encode_pc857 (codes "Şiş Köfte")) ≡ codes "Şiş Köfte"
decode_pc857-encode_pc857_example = decode_pc857-encode_pc857 (codes "Şiş Köfte") shown
  where
    shown : All (λ c. representable c ≡ true) (codes "Şiş Köfte")
    shown =
        unfold representable lookup in
        (refl, (refl, (refl, (refl, (refl, (refl, (refl, (refl, (refl, tt)))))))))
