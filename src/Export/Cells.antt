-- ===== src/Export/Cells.antt =====
-- What a spreadsheet reads in a quoted cell of the export: src/app/api/admin/orders/export/route.ts.
use mathlib.Core.List.{append_assoc}
use restaurant_app.Prelude.{
  ℕ, ◌≡◌, refl, sym, ◌∙◌, ap, inl, inr, Bool, true, false, [], ◌∷◌, ◌++◌, Option, none, some, arith,
  ◌==◌, ==_iff, Bool-cases, if◌then◌else◌,
}
use restaurant_app.Prelude.Texts.{Text}
use restaurant_app.Export.{is_trigger, starts_formula, safe, double_quotes, esc}

abbrev keep : ℕ → Option (Text × Text) → Option (Text × Text)
keep c none = none
keep c (some (s, rest)) = some (c ∷ s, rest)

-- A reader of CSV within a quoted cell: its value and what follows the cell. After a quote, another
-- one stands for itself, and anything else ends the cell.
unfoldable pub read_quoted : (after_quote : Bool) → Text → Option (Text × Text)
read_quoted false [] = none
read_quoted false (c ∷ s) = elim (c == 0x22) [
  | true ↦ read_quoted true s
  | false ↦ keep c (read_quoted false s)
]
read_quoted true [] = some ([], [])
read_quoted true (c ∷ s) = elim (c == 0x22) [
  | true ↦ keep 0x22 (read_quoted false s)
  | false ↦ some ([], c ∷ s)
]

-- A cell that starts with a quote.
abbrev pub read_cell : Text → Option (Text × Text)
read_cell [] = none
read_cell (c ∷ s) = if c == 0x22 then read_quoted false s else none

-- What follows a cell: nothing, a comma or a line break, never a quote.
abbrev pub no_quote : Text → Bool
no_quote [] = true
no_quote (c ∷ s) = if c == 0x22 then false else true

read_quoted-end : (rest : Text) → no_quote rest ≡ true → read_quoted true rest ≡ some ([], rest)
unfolding read_quoted
read_quoted-end [] h = refl
read_quoted-end (c ∷ s) h = ground (arith, h)

double_quotes-plain :
    (c : ℕ) (s : Text) → (c == 0x22) ≡ false → double_quotes (c ∷ s) ≡ c ∷ double_quotes s
unfolding double_quotes
double_quotes-plain c s e = ground (arith, e)

read_quoted-plain :
    (c : ℕ) (s : Text)
    → (c == 0x22) ≡ false
    → read_quoted false (c ∷ s) ≡ keep c (read_quoted false s)
unfolding read_quoted
read_quoted-plain c s e = rw (read_quoted, e) refl

read_quoted-double_quotes :
    (s rest : Text)
    → no_quote rest ≡ true
    → read_quoted false (double_quotes s ++ 0x22 ∷ rest) ≡ some (s, rest)
unfolding read_quoted double_quotes
read_quoted-double_quotes [] rest h = read_quoted-end rest h
read_quoted-double_quotes (c ∷ s) rest h = elim (Bool-cases (c == 0x22)) [
  | inl e ↦
      rw (e, read_quoted-double_quotes s rest h)
        (ap (λ k. some (k ∷ s, rest)) (sym ((==_iff c 0x22).0 e)))
  | inr e ↦
      ap (λ d. read_quoted false (d ++ 0x22 ∷ rest)) (double_quotes-plain c s e)
      ∙ read_quoted-plain c (double_quotes s ++ 0x22 ∷ rest) e
      ∙ ap (keep c) (read_quoted-double_quotes s rest h)
]

safe_of_formula : (s : Text) → starts_formula (safe s) ≡ false
safe_of_formula [] = refl
safe_of_formula (c ∷ s) = elim (Bool-cases (is_trigger c)) [ inl e ↦ rw e refl | inr e ↦ rw e e ]

-- A quoted cell is read back whole, whatever quotes, commas and line breaks it holds, up to the next
-- cell or row; what is read is the text, after an apostrophe if it would start a formula, so that no
-- such cell starts one.
pub read_cell-esc :
    (s rest : Text)
    → no_quote rest ≡ true
    → (read_cell (esc s ++ rest) ≡ some (safe s, rest)) × (starts_formula (safe s) ≡ false)
unfolding esc
read_cell-esc s rest h = (
  ap (read_quoted false) (append_assoc (double_quotes (safe s)) (0x22 ∷ []) rest)
      ∙ read_quoted-double_quotes (safe s) rest h,
  safe_of_formula s,
)
