-- ===== src/Ticket.antt =====
-- The kitchen's ticket: src/lib/pos/ticket.ts, and `ticketFor` of src/lib/pos/outbox.ts. Text is the
-- list of its characters' codes. What the platform's text functions answer is given: `upper` for
-- `toUpperCase`, `clock` for a time of day, `money` for `formatKurus`.
pub mod Encoding
pub mod LineBreaks
mod Tests
use restaurant_app.Prelude.{
  ℕ, ◌+◌, ◌-◌, ◌/◌, Bool, true, false, not, ◌&&◌, List, [], ◌∷◌, ◌++◌, map, Option, none, some,
  String, leb, ◌==◌, if◌then◌else◌, length,
}
use restaurant_app.Prelude.Int.{ℤ}
use restaurant_app.Prelude.Texts.{
  Text, codes, replicate, pad_end, pad_start, join, decimal, decimal_from,
}
use restaurant_app.Schema.{Order, OrderItem, LineChange}
use restaurant_app.OrderEdit.{live_items}

pub record TicketLine : Type 0 where
  pub qty : ℕ
  pub name : Text
  pub modifiers : List Text
  pub note : Text
  pub unit_price_kurus : ℤ

pub record Amendment : Type 0 where
  pub changes : List LineChange
  pub by_staff : String

pub record Ticket : Type 0 where
  pub venue_name : Text
  pub currency : Text
  pub table_name : Text
  pub order_number : ℕ
  pub created_at : ℕ
  pub lines : List TicketLine
  pub total_kurus : ℤ
  pub amendment : Option Amendment

abbrev ticket_line : OrderItem → TicketLine
ticket_line it = record {
  qty = it.qty;
  name = codes it.name_snapshot;
  modifiers = map (λ m. codes m.name) it.modifiers;
  note = codes it.note;
  unit_price_kurus = it.unit_price_kurus;
}

-- The ticket of an order: the venue and the table are joined in, of the items the live ones.
pub ticket_for : (venue_name currency table_name : Text) → Order → List OrderItem → Ticket
ticket_for venue_name currency table_name o items = record {
  venue_name = venue_name;
  currency = currency;
  table_name = table_name;
  order_number = o.number;
  created_at = o.created_at;
  lines = map ticket_line (live_items o.id items);
  total_kurus = o.total_kurus;
  amendment = none;
}

abbrev width : ℕ
width = 32

unfoldable pub center : Text → ℕ → Text
unfolding replicate
center s w = if leb w (length s) then s else replicate ((w - length s) / 2) b' ' ++ s

abbrev is_blank : Text → Bool
is_blank [] = true
is_blank (c ∷ s) = false

unfoldable pub item_lines : List TicketLine → List Text
unfolding decimal
item_lines [] = []
item_lines (l ∷ ls) =
    (decimal l.qty ++ codes " x " ++ l.name) ∷ map (λ m. codes "   + " ++ m) l.modifiers
    ++ (if is_blank l.note then [] else (codes "   ! " ++ l.note) ∷ [])
    ++ item_lines ls

unfoldable pub change_line : LineChange → Text
unfolding decimal
change_line c =
    if c.to_qty == 0
    then codes "  IPTAL/VOID  " ++ codes c.name
    else codes "  "
      ++ decimal c.from_qty
      ++ codes " -> "
      ++ decimal c.to_qty
      ++ codes "   "
      ++ codes c.name

unfoldable pub amended_head : Option Amendment → List Text
unfolding center replicate
amended_head none = []
amended_head (some a) =
    replicate width b'*' ∷ center (codes "DUZELTME / AMENDED") width ∷ replicate width b'*' ∷ []

unfoldable pub amended_tail : Option Amendment → List Text
unfolding change_line replicate
amended_tail none = []
amended_tail (some a) =
    replicate width b'-' ∷ codes "DEGISIKLIK / CHANGES:" ∷ map change_line a.changes
    ++ (codes "  (" ++ codes a.by_staff ++ codes ")") ∷ []

module _ (upper : Text → Text) (clock : ℕ → Text) (money : ℤ → Text → Text) where
  unfoldable pub ticket_lines : Ticket → List Text
  unfolding amended_head amended_tail item_lines center pad_end pad_start replicate decimal
  ticket_lines t =
      amended_head t.amendment
      ++ center (upper t.venue_name) width
        ∷ center (codes "*** " ++ t.table_name ++ codes " ***") width
        ∷ (pad_end (width - 5) (codes "Siparis #" ++ decimal t.order_number) ++ clock t.created_at)
        ∷ replicate width b'-'
        ∷ item_lines t.lines
      ++ amended_tail t.amendment
      ++ replicate width b'-'
        ∷ pad_start width (codes "TOPLAM: " ++ money t.total_kurus t.currency)
        ∷ center (codes "Odeme kasada / Pay at till") width
        ∷ []

  unfoldable pub render_ticket_text : Ticket → Text
  unfolding ticket_lines join
  render_ticket_text t = join b'\n' (ticket_lines t)

-- `PC857` and `ASCII_FALLBACK`, by the characters' codes.
abbrev pub pc857 : List (ℕ × ℕ)
pc857 =
    (0xe7, 0x87)
    ∷ (0xc7, 0x80)
    ∷ (0xfc, 0x81)
    ∷ (0xdc, 0x9a)
    ∷ (0xf6, 0x94)
    ∷ (0xd6, 0x99)
    ∷ (0x131, 0x8d)
    ∷ (0x130, 0x98)
    ∷ (0x15f, 0x9f)
    ∷ (0x15e, 0x9e)
    ∷ (0x11f, 0xa7)
    ∷ (0x11e, 0xa6)
    ∷ (0xe2, 0x83)
    ∷ (0xc2, 0xb6)
    ∷ (0xee, 0x8c)
    ∷ (0xce, 0xd7)
    ∷ (0xfb, 0x96)
    ∷ (0xdb, 0xea)
    ∷ []

abbrev pub ascii_fallback : List (ℕ × Text)
ascii_fallback =
    (0x20ba, codes "TL")
    ∷ (0x2019, codes "'")
    ∷ (0x2018, codes "'")
    ∷ (0x201c, 0x22 ∷ [])
    ∷ (0x201d, 0x22 ∷ [])
    ∷ (0x2013, codes "-")
    ∷ (0x2014, codes "-")
    ∷ (0x2026, codes "...")
    ∷ []

unfoldable pub lookup {ℓ} : {A : Type ℓ} → ℕ → List (ℕ × A) → Option A
lookup c [] = none
lookup c ((k, v) ∷ rows) = let rest = lookup c rows in if k == c then some v else rest

abbrev pub is_printable : ℕ → Bool
is_printable c = leb 0x20 c && leb c 0x7e

unfoldable pub encode_mapped : ℕ → Option ℕ → Text
encode_mapped c (some b) = b ∷ []
encode_mapped c none = (if is_printable c then c else 0x3f) ∷ []

unfoldable pub encode_char : ℕ → Option Text → Text
unfolding encode_mapped lookup
encode_char c (some fallback) = fallback
encode_char c none = encode_mapped c (lookup c pc857)

unfoldable pub encode_pc857 : Text → Text
unfolding encode_char lookup
encode_pc857 [] = []
encode_pc857 (c ∷ s) = encode_char c (lookup c ascii_fallback) ++ encode_pc857 s

module _ (upper : Text → Text) (clock : ℕ → Text) (money : ℤ → Text → Text) where
  -- The part of the payload that holds the ticket's text.
  unfoldable pub body : Ticket → Text
  unfolding encode_pc857 render_ticket_text
  body t = encode_pc857 (render_ticket_text upper clock money t ++ b'\n' ∷ b'\n' ∷ [])

  -- The bytes that `renderEscPos` encodes in base 64.
  unfoldable pub render_esc_pos : Ticket → Text
  unfolding body encode_pc857
  render_esc_pos t =
      (0x1b ∷ 0x40 ∷ [])
      ++ (0x1b ∷ 0x74 ∷ 0x0d ∷ [])
      ++ (0x1b ∷ 0x61 ∷ 0x01 ∷ [])
      ++ (0x1d ∷ 0x21 ∷ 0x11 ∷ [])
      ++ encode_pc857 (t.table_name ++ b'\n' ∷ [])
      ++ (0x1d ∷ 0x21 ∷ 0x00 ∷ [])
      ++ encode_pc857 (t.venue_name ++ b'\n' ∷ [])
      ++ (0x1b ∷ 0x61 ∷ 0x00 ∷ [])
      ++ body t
      ++ (0x1d ∷ 0x56 ∷ 0x42 ∷ 0x03 ∷ [])
