-- ===== src/Ticket/LineBreaks.antt =====
-- What becomes of a ticket's line breaks on their way to the printer: `encodePc857` and
-- `renderEscPos` of src/lib/pos/ticket.ts.
use mathlib.Core.List.{append_assoc}
use restaurant_app.Prelude.{ℕ, ◌≡◌, refl, sym, ap, ◌∙◌, List, [], ◌∷◌, ◌++◌, map}
use restaurant_app.Prelude.Int.{ℤ}
use restaurant_app.Prelude.Texts.{Text, join}
use restaurant_app.Ticket.{
  ascii_fallback, lookup, encode_char, encode_pc857, Ticket, ticket_lines, render_ticket_text, body,
}

encode_pc857-append : (s t : Text) → encode_pc857 (s ++ t) ≡ encode_pc857 s ++ encode_pc857 t
unfolding encode_pc857
encode_pc857-append [] t = refl
encode_pc857-append (c ∷ s) t =
    ap (λ r. encode_char c (lookup c ascii_fallback) ++ r) (encode_pc857-append s t)
    ∙ sym (append_assoc (encode_char c (lookup c ascii_fallback)) (encode_pc857 s) (encode_pc857 t))

line_break : (s : Text) → encode_pc857 (b'\n' ∷ s) ≡ b'?' ∷ encode_pc857 s
unfolding encode_pc857
line_break s = refl

-- Lines joined by line breaks are printed as one line, with question marks between them.
encode_pc857-join :
    (ls : List Text) → encode_pc857 (join b'\n' ls) ≡ join b'?' (map encode_pc857 ls)
unfolding join encode_pc857
encode_pc857-join [] = refl
encode_pc857-join (l ∷ []) = refl
encode_pc857-join (l ∷ m ∷ ls) =
    encode_pc857-append l (b'\n' ∷ join b'\n' (m ∷ ls))
    ∙ ap (λ s. encode_pc857 l ++ s)
        (line_break (join b'\n' (m ∷ ls)) ∙ ap (◌∷◌ b'?') (encode_pc857-join (m ∷ ls)))

-- The printer is sent the lines of a ticket as a single line: where the text has its line breaks, the
-- last two included, the bytes are question marks.
pub body_lem :
    (upper : Text → Text) (clock : ℕ → Text) (money : ℤ → Text → Text) (t : Ticket)
    → body upper clock money t
      ≡ join b'?' (map encode_pc857 (ticket_lines upper clock money t)) ++ b'?' ∷ b'?' ∷ []
unfolding body render_ticket_text
body_lem upper clock money t =
    encode_pc857-append (join b'\n' (ticket_lines upper clock money t)) (b'\n' ∷ b'\n' ∷ [])
    ∙ ap (λ s. s ++ b'?' ∷ b'?' ∷ []) (encode_pc857-join (ticket_lines upper clock money t))
