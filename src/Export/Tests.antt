-- ===== src/Export/Tests.antt =====
-- A note that would be a formula, and the theorem at it.
use restaurant_app.Prelude.{◌≡◌, refl, false, ◌++◌, some}
use restaurant_app.Prelude.Texts.{codes}
use restaurant_app.Export.{starts_formula, safe, double_quotes, esc}
use restaurant_app.Export.Cells.{read_cell, read_cell-esc}

noted : esc (codes "=1,\"x\"") ≡ codes "\"'=1,\"\"x\"\"\""
unfolding esc double_quotes
noted = refl

read_cell-esc_example :
    (read_cell (esc (codes "=1,\"x\"") ++ codes ",5") ≡ some (codes "'=1,\"x\"", codes ",5"))
    × (starts_formula (safe (codes "=1,\"x\"")) ≡ false)
read_cell-esc_example = read_cell-esc (codes "=1,\"x\"") (codes ",5") refl
