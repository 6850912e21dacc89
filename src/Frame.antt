-- ===== src/Frame.antt =====
-- The frame functions of the C interface in src/terminal_core.cpp: `FillPackedRunView`,
-- `ForEachPackedRunSpan`, and `sakura_terminal_frame_cell`, `_frame_row_run_count`,
-- `_frame_row_run` and `_frame_for_each_row_span`. A function that fills in a view returns it, or
-- `none` where the source returns 0; the text of a view is the bytes that its pointer is for. Null
-- pointers are `none`; a null pointer for the view itself is left out.
pub mod Info
pub mod Layout
pub mod Spans
use sakura_wx_prototype.Prelude.{
  ℕ, zero, suc, ◌+◌, ◌-◌, min, max, Bool, true, false, ◌&&◌, ◌||◌, List, [], ◌∷◌, ◌++◌, Option,
  none, some, leb, ltb, ◌==◌, if◌then◌else◌, length, get_elem?, get_or, slice,
}
use sakura_wx_prototype.Prelude.Word.{u32}
use sakura_wx_prototype.Style.{Rgb, PackedStyle, packed_style_id}
use sakura_wx_prototype.Grid.{
  PackedCell, PackedRun, PackedRow, PackedGrid, default_cell, text_valid,
}

-- `SakuraTerminalRunView`.
pub record RunView : Type 0 where
  pub row : ℕ
  pub left : ℕ
  pub cell_count : ℕ
  pub style_id : ℕ
  pub text : List ℕ
  pub foreground : Rgb
  pub background : Rgb
  pub attributes : ℕ

-- `SakuraTerminalCellView`.
pub record CellView : Type 0 where
  pub codepoint : ℕ
  pub text : List ℕ
  pub width : ℕ
  pub foreground : Rgb
  pub background : Rgb
  pub attributes : ℕ

unfoldable pub fill_packed_run_view : PackedGrid → PackedRow → ℕ → PackedRun → Option RunView
fill_packed_run_view grid row row_index source = elim (get_elem? grid.styles source.style_index) [
  | none ↦ none
  | some style ↦
      if text_valid row.text source.text_offset source.text_length
      then some (record {
        row = row_index;
        left = source.left;
        cell_count = source.cell_count;
        style_id = packed_style_id style;
        text = slice row.text source.text_offset source.text_length;
        foreground = style.foreground;
        background = style.background;
        attributes = style.attributes;
      })
      else none
]

-- The number of cells of the next span: the bound, less one if a wide glyph would be cut. The guard
-- of the function keeps every index inside the row.
unfoldable pub span_cells : PackedRow → PackedRun → ℕ → ℕ → ℕ
span_cells row source max_cells offset =
    let cell_count = min max_cells (source.cell_count - offset) in
    let boundary = get_or row.cells (source.left + offset + cell_count - 1) default_cell in
    if ltb cell_count (source.cell_count - offset) && ltb 1 cell_count && ltb 1 boundary.width
    then cell_count - 1
    else cell_count

-- The span of `cell_count` cells from `column` on, if its first and last cell have text in the row.
unfoldable pub bounded_span : PackedRow → PackedRun → ℕ → ℕ → Option PackedRun
bounded_span row source column cell_count =
    let first = get_or row.cells column default_cell in
    let last = get_or row.cells (column + cell_count - 1) default_cell in
    let text_end = u32 (last.text_offset + last.text_length) in
    if text_valid row.text first.text_offset first.text_length
      && text_valid row.text last.text_offset last.text_length
      && leb first.text_offset text_end
    then some (record {
      left = column;
      cell_count = cell_count;
      style_index = source.style_index;
      text_offset = first.text_offset;
      text_length = text_end - first.text_offset;
    })
    else none

module _ {ℓ} {A : Type ℓ} (row : PackedRow) (source : PackedRun)
    (callback : PackedRun → Option A) where
  -- The loop over the spans from `offset` on. What the callback accepts, in order, and whether the
  -- run was completed. Each round takes a cell at least, so the number of cells is fuel enough.
  unfoldable pub visit_spans : ℕ → ℕ → ℕ → List A × Bool
  visit_spans zero max_cells offset = ([], leb source.cell_count offset)
  visit_spans (suc fuel) max_cells offset =
      let cell_count = span_cells row source max_cells offset in
      let (later, complete) = visit_spans fuel max_cells (offset + cell_count) in
      if leb source.cell_count offset
      then ([], true)
      else if cell_count == 0
      then ([], false)
      else elim (bounded_span row source (source.left + offset) cell_count) [
        | none ↦ ([], false)
        | some span ↦ elim (callback span) [
          | none ↦ ([], false)
          | some view ↦ (view ∷ later, complete)
        ]
      ]

  unfoldable pub for_each_packed_run_span : ℕ → List A × Bool
  for_each_packed_run_span max_cells =
      if (max_cells == 0)
        || (source.cell_count == 0)
        || leb (length row.cells) source.left
        || ltb (length row.cells - source.left) source.cell_count
      then ([], false)
      else visit_spans source.cell_count (max 2 max_cells) 0

-- The row, if the frame's size and the grid both have it.
unfoldable pub frame_row : Option PackedGrid → ℕ → ℕ → Option PackedRow
frame_row none rows row = none
frame_row (some grid) rows row = if leb rows row then none else get_elem? grid.row_data row

-- The loop over the runs of the row: the views that the callback gets, and the result.
unfoldable pub visit_runs : PackedGrid → PackedRow → ℕ → ℕ → List PackedRun → List RunView × Bool
unfolding for_each_packed_run_span fill_packed_run_view
visit_runs grid row row_index max_cells [] = ([], true)
visit_runs grid row row_index max_cells (source ∷ runs) =
    let (views, complete) =
      for_each_packed_run_span row source (fill_packed_run_view grid row row_index) max_cells in
    let (later, all) = visit_runs grid row row_index max_cells runs in
    if complete then (views ++ later, all) else (views, false)

-- `rows` and `columns` are the frame's.
unfoldable pub frame_for_each_row_span : Option PackedGrid → ℕ → ℕ → ℕ → List RunView × Bool
unfolding visit_runs
frame_for_each_row_span none rows row max_cells = ([], false)
frame_for_each_row_span (some grid) rows row max_cells =
    if max_cells == 0 then ([], false) else elim (frame_row (some grid) rows row) [
      | none ↦ ([], false)
      | some source_row ↦ visit_runs grid source_row row max_cells source_row.runs
    ]

unfoldable pub frame_row_run_count : Option PackedGrid → ℕ → ℕ → ℕ
unfolding frame_row
frame_row_run_count grid rows row = elim (frame_row grid rows row) [
  | none ↦ 0
  | some source_row ↦ length source_row.runs
]

unfoldable pub frame_row_run : Option PackedGrid → ℕ → ℕ → ℕ → Option RunView
unfolding frame_row fill_packed_run_view
frame_row_run none rows row index = none
frame_row_run (some grid) rows row index = elim (frame_row (some grid) rows row) [
  | none ↦ none
  | some source_row ↦ elim (get_elem? source_row.runs index) [
    | none ↦ none
    | some source ↦ fill_packed_run_view grid source_row row source
  ]
]

abbrev pub view_cell : PackedGrid → PackedRow → PackedCell → Option CellView
view_cell grid row cell = elim (get_elem? grid.styles cell.style_index) [
  | none ↦ none
  | some style ↦
      if text_valid row.text cell.text_offset cell.text_length
      then some (record {
        codepoint = cell.codepoint;
        text = slice row.text cell.text_offset cell.text_length;
        width = cell.width;
        foreground = style.foreground;
        background = style.background;
        attributes = style.attributes;
      })
      else none
]

unfoldable pub frame_cell : Option PackedGrid → ℕ → ℕ → ℕ → ℕ → Option CellView
unfolding frame_row
frame_cell none columns rows column row = none
frame_cell (some grid) columns rows column row =
    if leb columns column then none else elim (frame_row (some grid) rows row) [
      | none ↦ none
      | some source_row ↦ elim (get_elem? source_row.cells column) [
        | none ↦ none
        | some cell ↦ view_cell grid source_row cell
      ]
    ]
