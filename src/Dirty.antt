-- ===== src/Dirty.antt =====
-- The dirty region and the dirty spans of a frame: `SakuraTerminalDirtyRegion` and
-- `SakuraTerminalDirtySpan` of include/sakura/terminal/core_c.h, and the functions `DirtyEmpty`,
-- `IncludeDirty`, `IncludeCell`, `IncludeSpan`, `IncludeCellSpan`, `IncludeFullSpans` and
-- `IncludeRows` of src/terminal_core.cpp. A vector is a list in the vector's order.
pub mod Region
pub mod Spans
pub mod Cells
use sakura_wx_prototype.Prelude.{
  ℕ, zero, suc, ◌+◌, ◌-◌, min, max, Bool, ◌&&◌, ◌||◌, List, [], ◌∷◌, leb, ltb, ◌==◌, if◌then◌else◌,
}
use sakura_wx_prototype.Prelude.Word.{u32}

pub record DirtyRegion : Type 0 where
  pub left : ℕ
  pub top : ℕ
  pub right : ℕ
  pub bottom : ℕ

pub record DirtySpan : Type 0 where
  pub row : ℕ
  pub left : ℕ
  pub right : ℕ

-- A value-initialised region.
abbrev pub no_dirty : DirtyRegion
no_dirty = record { left = 0; top = 0; right = 0; bottom = 0 }

unfoldable pub dirty_empty : DirtyRegion → Bool
dirty_empty d = leb d.right d.left || leb d.bottom d.top

-- A glyph's second half (width 0) stands for the pair that ends at its column.
abbrev pub cell_left : ℕ → ℕ → ℕ
cell_left column width = if (width == 0) && ltb 0 column then column - 1 else column

abbrev pub cell_span : ℕ → ℕ
cell_span width = if width == 0 then 2 else max 1 width

-- `column + span` wraps at 32 bits.
abbrev pub cell_right : ℕ → ℕ → ℕ → ℕ
cell_right column width columns = min columns (u32 (column + cell_span width))

abbrev pub outside : ℕ → ℕ → ℕ → ℕ → Bool
outside column row columns rows =
    (columns == 0) || (rows == 0) || leb rows row || leb columns column

abbrev extend_region : DirtyRegion → ℕ → ℕ → ℕ → ℕ → DirtyRegion
extend_region d left top right bottom = record {
  left = min d.left left;
  top = min d.top top;
  right = max d.right right;
  bottom = max d.bottom bottom;
}

unfoldable pub include_dirty : DirtyRegion → ℕ → ℕ → ℕ → ℕ → ℕ → DirtyRegion
unfolding dirty_empty
include_dirty d column row width columns rows =
    if outside column row columns rows
    then d
    else if dirty_empty d
    then record {
      left = cell_left column width;
      top = row;
      right = cell_right column width columns;
      bottom = u32 (row + 1);
    }
    else extend_region d (cell_left column width) row (cell_right column width columns)
        (u32 (row + 1))

unfoldable pub include_cell : DirtyRegion → ℕ → ℕ → ℕ → ℕ → DirtyRegion
unfolding include_dirty
include_cell d column row columns rows = include_dirty d column row 1 columns rows

-- The test and the update of `spans.back()`, or the new entry.
unfoldable pub push_span : List DirtySpan → ℕ → ℕ → ℕ → List DirtySpan
push_span [] row left right = record { row = row; left = left; right = right } ∷ []
push_span (s ∷ []) row left right =
    if (s.row == row) && leb left s.right
    then record { row = s.row; left = min s.left left; right = max s.right right } ∷ []
    else s ∷ record { row = row; left = left; right = right } ∷ []
push_span (s ∷ t ∷ spans) row left right = s ∷ push_span (t ∷ spans) row left right

unfoldable pub include_span : List DirtySpan → ℕ → ℕ → ℕ → List DirtySpan
include_span spans row left right = if leb right left then spans else push_span spans row left right

unfoldable pub include_cell_span : List DirtySpan → ℕ → ℕ → ℕ → ℕ → ℕ → List DirtySpan
include_cell_span spans column row width columns rows =
    if outside column row columns rows
    then spans
    else include_span spans row (cell_left column width) (cell_right column width columns)

-- `count` rounds of the loop from `row` on, each of which appends a whole row.
unfoldable pub full_rows : ℕ → ℕ → ℕ → List DirtySpan
full_rows zero row columns = []
full_rows (suc count) row columns =
    record { row = row; left = 0; right = columns } ∷ full_rows count (row + 1) columns

unfoldable pub include_full_spans : List DirtySpan → ℕ → ℕ → List DirtySpan
unfolding full_rows
include_full_spans spans columns rows = if columns == 0 then [] else full_rows rows 0 columns

-- `count` rounds of the loop from `row` on, each of which includes a whole row.
unfoldable pub include_row_spans : ℕ → ℕ → ℕ → List DirtySpan → List DirtySpan
include_row_spans zero row columns spans = spans
include_row_spans (suc count) row columns spans =
    include_row_spans count (row + 1) columns (include_span spans row 0 columns)

-- The region that `IncludeRows` leaves. `left` becomes 0, the least of all.
pub rows_region : DirtyRegion → ℕ → ℕ → ℕ → DirtyRegion
unfolding dirty_empty
rows_region d top bottom columns =
    if dirty_empty d
    then record { left = 0; top = top; right = columns; bottom = bottom }
    else extend_region d 0 top columns bottom

unfoldable pub include_rows :
    DirtyRegion → List DirtySpan → ℕ → ℕ → ℕ → ℕ → DirtyRegion × List DirtySpan
unfolding rows_region
include_rows d spans top0 bottom0 columns rows =
    let top = min top0 rows in
    let bottom = min bottom0 rows in
    if (columns == 0) || leb bottom top
    then (d, spans)
    else (rows_region d top bottom columns, include_row_spans (bottom - top) top columns spans)
