-- ===== src/Grid/Rebuild.antt =====
-- `PackedChangedCell` and `RebuildPackedRows` of src/terminal_core.cpp.
use sakura_wx_prototype.Prelude.{
  ℕ, zero, suc, ◌+◌, ◌-◌, ◌^◌, Bool, true, false, List, [], ◌∷◌, ◌++◌, Option, none, some, ltb,
  ◌==◌, if◌then◌else◌, length, get_elem?, set, slice,
}
use sakura_wx_prototype.Prelude.Word.{u8, u32}
use sakura_wx_prototype.Grid.{
  PackedCell, PackedRun, PackedRow, PackedGrid, default_cell, text_valid,
}

pub record ChangedCell : Type 0 where
  pub column : ℕ
  pub row : ℕ
  pub width : ℕ
  pub codepoint : ℕ
  pub style_index : ℕ
  pub text_offset : ℕ
  pub text_length : ℕ

-- The comparison that the changes are sorted by.
abbrev pub comes_before : ChangedCell → ChangedCell → Bool
comes_before a b = if a.row == b.row then ltb a.column b.column else ltb a.row b.row

unfoldable pub insert_change : ChangedCell → List ChangedCell → List ChangedCell
insert_change c [] = c ∷ []
insert_change c (d ∷ changes) =
    if comes_before d c then d ∷ insert_change c changes else c ∷ d ∷ changes

-- `std::sort`: any sort gives this list, where no two changes are for one cell.
unfoldable pub sort_changes : List ChangedCell → List ChangedCell
unfolding insert_change
sort_changes [] = []
sort_changes (c ∷ changes) = insert_change c (sort_changes changes)

-- A cell with the text that it is to have.
pub record Piece : Type 0 where
  pub cell : PackedCell
  pub source : List ℕ

unfoldable pub old_piece : Option PackedRow → ℕ → Piece
old_piece none column = record { cell = default_cell; source = [] }
old_piece (some row) column = elim (get_elem? row.cells column) [
  | none ↦ record { cell = default_cell; source = [] }
  | some cell ↦ record {
    cell = cell;
    source =
        if text_valid row.text cell.text_offset cell.text_length
        then slice row.text cell.text_offset cell.text_length
        else [];
  }
]

unfoldable pub changed_piece : List ℕ → ChangedCell → Piece
changed_piece changed_text c = record {
  cell = record default_cell {
    codepoint = c.codepoint;
    style_index = c.style_index;
    width = u8 c.width;
  };
  source = slice changed_text c.text_offset c.text_length;
}

module _ (old : Option PackedRow) (changed_text : List ℕ) where
  -- The piece for a column, and the changes of the row that are left.
  unfoldable pub pick : List ChangedCell → ℕ → Piece × List ChangedCell
  pick [] column = (old_piece old column, [])
  pick (c ∷ changes) column =
      if c.column == column
      then (changed_piece changed_text c, changes)
      else (old_piece old column, c ∷ changes)

  -- `count` rounds of the loop over the columns, from `column` on, with the text so far.
  unfoldable pub rebuild_cells : ℕ → ℕ → List ChangedCell → List ℕ → List PackedCell × List ℕ
  rebuild_cells zero column changes text = ([], text)
  rebuild_cells (suc count) column changes text =
      let (piece, rest) = pick changes column in
      let cell = record piece.cell {
        text_offset = u32 (length text);
        text_length = u32 (length piece.source);
      } in
      let (cells, final) = rebuild_cells count (column + 1) rest (text ++ piece.source) in
      (cell ∷ cells, final)

-- `uint32_t` subtraction.
abbrev pub sub32 : ℕ → ℕ → ℕ
sub32 a b = u32 (a + 2 ^ 32 - b)

abbrev pub new_run : ℕ → PackedCell → PackedRun
new_run column cell = record {
  left = column;
  cell_count = 1;
  style_index = cell.style_index;
  text_offset = cell.text_offset;
  text_length = cell.text_length;
}

abbrev pub grow_run : PackedRun → PackedCell → PackedRun
grow_run run cell = record run {
  cell_count = run.cell_count + 1;
  text_length = sub32 (u32 (cell.text_offset + cell.text_length)) run.text_offset;
}

-- The loop over the cells from `column` on; `run` is `runs.back()`.
unfoldable pub runs_from : PackedRun → ℕ → List PackedCell → List PackedRun
runs_from run column [] = run ∷ []
runs_from run column (cell ∷ cells) = elim (run.style_index == cell.style_index) [
  | true ↦ runs_from (grow_run run cell) (column + 1) cells
  | false ↦ run ∷ runs_from (new_run column cell) (column + 1) cells
]

unfoldable pub build_runs : List PackedCell → List PackedRun
unfolding runs_from
build_runs [] = []
build_runs (cell ∷ cells) = runs_from (new_run 0 cell) 1 cells

unfoldable pub rebuild_row : Option PackedRow → List ℕ → ℕ → List ChangedCell → PackedRow
rebuild_row old changed_text columns changes =
    let (cells, text) = rebuild_cells old changed_text columns 0 changes [] in
    record { cells = cells; text = text; runs = build_runs cells }

-- The changes at the front that are for `row`, and the others.
unfoldable pub split_row : ℕ → List ChangedCell → List ChangedCell × List ChangedCell
split_row row [] = ([], [])
split_row row (c ∷ changes) =
    let (same, rest) = split_row row changes in
    if c.row == row then (c ∷ same, rest) else ([], c ∷ changes)

-- The loop over the sorted changes. Each round takes one change at least, so their number is
-- fuel enough.
unfoldable pub rebuild_rows : ℕ → ℕ → List ℕ → List PackedRow → List ChangedCell → List PackedRow
rebuild_rows zero columns changed_text row_data changes = row_data
rebuild_rows (suc fuel) columns changed_text row_data [] = row_data
rebuild_rows (suc fuel) columns changed_text row_data (c ∷ changes) =
    let (same, rest) = split_row c.row (c ∷ changes) in
    let row = rebuild_row (get_elem? row_data c.row) changed_text columns same in
    rebuild_rows fuel columns changed_text (set row_data c.row row) rest

unfoldable pub rebuild_packed_rows : PackedGrid → List ChangedCell → List ℕ → PackedGrid
rebuild_packed_rows grid changes changed_text = record grid {
  row_data =
      rebuild_rows (length changes) grid.columns changed_text grid.row_data (sort_changes changes);
}
