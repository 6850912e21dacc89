-- ===== src/Grid.antt =====
-- The packed grid of src/terminal_core.cpp: `PackedCell`, `PackedRun`, `PackedRow`, `PackedGrid`,
-- `BlankRow`, `EnsurePackedGrid` and `RotatePackedRows`. Text is a list of UTF-8 bytes. A row is
-- never changed once it is made, so a shared pointer to a row is the row; no code of the core
-- stores a null pointer in `row_data`.
pub mod Rebuild
pub mod Sort
pub mod Split
pub mod RowContent
pub mod Content
pub mod Blank
pub mod Rotate
pub mod Invariant
use sakura_wx_prototype.Prelude.{
  ℕ, zero, suc, ◌+◌, ◌-◌, Bool, false, ◌&&◌, ◌||◌, List, [], ◌∷◌, Option, none, some, leb, ltb,
  ◌==◌, if◌then◌else◌, length, replicate, get_or, slice,
}
use sakura_wx_prototype.Prelude.Int.{ℤ, pos, negsuc, ◌+ℤ◌}
use sakura_wx_prototype.Style.{PackedStyle, default_style}

pub record PackedCell : Type 0 where
  pub codepoint : ℕ
  pub text_offset : ℕ
  pub text_length : ℕ
  pub style_index : ℕ
  pub width : ℕ
  pub flags : ℕ

pub record PackedRun : Type 0 where
  pub left : ℕ
  pub cell_count : ℕ
  pub style_index : ℕ
  pub text_offset : ℕ
  pub text_length : ℕ

pub record PackedRow : Type 0 where
  pub cells : List PackedCell
  pub text : List ℕ
  pub runs : List PackedRun

pub record PackedGrid : Type 0 where
  pub columns : ℕ
  pub rows : ℕ
  pub styles : List PackedStyle
  pub row_data : List PackedRow

-- `PackedCell {}`.
abbrev pub default_cell : PackedCell
default_cell = record {
  codepoint = b' ';
  text_offset = 0;
  text_length = 0;
  style_index = 0;
  width = 1;
  flags = 0;
}

-- `PackedGrid {}`.
abbrev pub empty_grid : PackedGrid
empty_grid = record { columns = 0; rows = 0; styles = []; row_data = [] }

-- `count` cells from `column` on.
unfoldable pub blank_cells : ℕ → ℕ → List PackedCell
blank_cells zero column = []
blank_cells (suc count) column =
    record default_cell { text_offset = column; text_length = 1 } ∷ blank_cells count (suc column)

unfoldable pub blank_row : ℕ → PackedRow
unfolding blank_cells
blank_row columns = record {
  cells = blank_cells columns 0;
  text = replicate columns b' ';
  runs =
      record {
        left = 0;
        cell_count = columns;
        style_index = 0;
        text_offset = 0;
        text_length = columns;
      }
      ∷ [];
}

unfoldable pub ensure_styles : List PackedStyle → List PackedStyle
ensure_styles [] = default_style ∷ []
ensure_styles (style ∷ styles) = style ∷ styles

unfoldable pub ensure_packed_grid : PackedGrid → ℕ → ℕ → PackedGrid
unfolding ensure_styles
ensure_packed_grid grid columns rows =
    if (grid.columns == columns) && (grid.rows == rows) && (length grid.row_data == rows)
    then record grid { styles = ensure_styles grid.styles }
    else record {
      columns = columns;
      rows = rows;
      styles = ensure_styles grid.styles;
      row_data = replicate rows (blank_row columns);
    }

-- The row at `source`, or a blank one. The guard of `ensure_packed_grid` makes the read fit.
unfoldable pub take_row : PackedGrid → ℤ → PackedRow
take_row grid (pos source) =
    if ltb source grid.rows
    then get_or grid.row_data source (blank_row grid.columns)
    else blank_row grid.columns
take_row grid (negsuc below) = blank_row grid.columns

-- The row that takes the place of `row`.
unfoldable pub rotated_row : PackedGrid → ℤ → ℕ → PackedRow
unfolding take_row
rotated_row grid delta row = take_row grid (pos row +ℤ delta)

-- `count` rounds of the loop over the rows, from `row` on.
unfoldable pub rotated_rows : ℕ → PackedGrid → ℤ → ℕ → List PackedRow
unfolding rotated_row
rotated_rows zero grid delta row = []
rotated_rows (suc count) grid delta row =
    rotated_row grid delta row ∷ rotated_rows count grid delta (row + 1)

abbrev pub is_zero : ℤ → Bool
is_zero (pos n) = n == 0
is_zero (negsuc n) = false

unfoldable pub rotate_packed_rows : PackedGrid → ℤ → PackedGrid
unfolding rotated_rows
rotate_packed_rows grid delta =
    if is_zero delta || (grid.rows == 0)
    then grid
    else record grid { row_data = rotated_rows grid.rows grid delta 0 }

-- `offset <= size && count <= size - offset`.
abbrev pub text_valid : List ℕ → ℕ → ℕ → Bool
text_valid text offset count = leb offset (length text) && leb count (length text - offset)
