-- ===== src/Console/Terminal.antt =====
-- A terminal of characters, which the console of src/console.c shows in its pixels.
use cool_os.Prelude.{
  ℕ, ◌+◌, ◌-◌, ◌*◌, ◌/◌, ◌&&◌, Option, none, some, List, [], ◌∷◌, ltb, leb, ◌==◌, if◌then◌else◌,
}

-- What a cell shows, by row and column: nothing, or a character.
abbrev pub Cells : Type 0
Cells = ℕ → ℕ → Option ℕ

pub record Terminal : Type 0 where
  pub cells : Cells
  pub x : ℕ
  pub y : ℕ

abbrev pub put_cell : ℕ → ℕ → ℕ → Cells → Cells
put_cell cy cx c cells cy' cx' = if cy' == cy && cx' == cx then some c else cells cy' cx'

-- The lines move up, and the last one is empty.
abbrev pub scroll_cells : ℕ → Cells → Cells
scroll_cells rows cells cy cx = if ltb (cy + 1) rows then cells (cy + 1) cx else none

abbrev pub next_line : ℕ → Terminal → Terminal
next_line rows t =
    if leb rows (t.y + 1)
    then record { cells = scroll_cells rows t.cells; x = 0; y = rows - 1 }
    else record { cells = t.cells; x = 0; y = t.y + 1 }

-- The cursor at the column `x`, or at the start of the next line if there is no such column.
abbrev pub at_column : ℕ → ℕ → ℕ → Terminal → Terminal
at_column cols rows x t = if leb cols x then next_line rows t else record t { x = x }

-- A character is typed.
unfoldable pub type_char : ℕ → ℕ → ℕ → Terminal → Terminal
type_char cols rows c t =
    if c == 10
    then next_line rows t
    else if c == 13
    then record t { x = 0 }
    else if c == 9
    then at_column cols rows ((t.x + 4) / 4 * 4) t
    else if c == 8
    then record t { x = t.x - 1 }
    else at_column cols rows (t.x + 1) (record t { cells = put_cell t.y t.x c t.cells })

unfoldable pub type_text : ℕ → ℕ → List ℕ → Terminal → Terminal
type_text cols rows [] t = t
type_text cols rows (c ∷ cs) t = type_text cols rows cs (type_char cols rows c t)
