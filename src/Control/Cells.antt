-- ===== src/Control/Cells.antt =====
-- The cell at a point of the window, and the pixel and modifiers that are sent with it: `CellAt` and
-- `MouseModifiers` of src/wx/terminal_ctrl.cpp.
use sakura_wx_prototype.Prelude.{ℕ, ◌+◌, ◌-◌, ◌/◌, ◌^◌, ◌<◌, min, max, Bool, if◌then◌else◌, arith}
use sakura_wx_prototype.Prelude.Int.{ℤ, pos_part}
use sakura_wx_prototype.Prelude.Word.{u32}

-- What the renderer and the window answer.
pub record View : Type 0 where
  pub columns : ℕ
  pub rows : ℕ
  pub cell_width : ℕ
  pub cell_height : ℕ
  pub client_height : ℕ

-- `value - 1` on 32 bits.
abbrev last_of : ℕ → ℕ
last_of count = u32 (count + 2 ^ 32 - 1)

abbrev pub column_at : View → ℤ → ℕ
column_at view x = min (pos_part x / max 1 view.cell_width) (last_of view.columns)

abbrev pub row_at : View → ℤ → ℕ
row_at view y = min (pos_part y / max 1 view.cell_height) (last_of view.rows)

-- A grid of at least one cell, whose sides fit in 32 bits.
abbrev pub HasCells : View → Type 0
HasCells view =
    (0 < view.columns) × (0 < view.rows) × (view.columns < 2 ^ 32) × (view.rows < 2 ^ 32)

-- The bits of `SakuraTerminalMouseModifier`.
abbrev pub mouse_modifiers : Bool → Bool → Bool → ℕ
mouse_modifiers shift meta control =
    (if shift then 4 else 0) + (if meta then 8 else 0) + (if control then 16 else 0)

pub column_at_lt : (view : View) (x : ℤ) → HasCells view → column_at view x < view.columns
column_at_lt view x h = omega (arith, h.0, h.2)

pub row_at_lt : (view : View) (y : ℤ) → HasCells view → row_at view y < view.rows
row_at_lt view y h = omega (arith, h.1, h.3)
