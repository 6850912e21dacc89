-- ===== src/Grid/Invariant.antt =====
-- The invariant of the grid of src/terminal_core.cpp, which `EnsurePackedGrid` sets up and
-- `RotatePackedRows` and `RebuildPackedRows` keep.
use sakura_wx_prototype.Prelude.{
  ℕ, zero, suc, ◌+◌, ◌*◌, ◌^◌, ◌≤◌, ◌<◌, ◌≡◌, refl, ap, sym, ◌∙◌, inl, inr, ◌&&◌, ◌||◌, List, [],
  ◌∷◌, arith, ltb, ◌==◌, if◌then◌else◌, length, get_or, replicate, length-replicate, Bool-cases,
  All, All-map,
}
use sakura_wx_prototype.Prelude.Int.{ℤ, pos, negsuc, ◌+ℤ◌}
use sakura_wx_prototype.Style.{PackedStyle}
use sakura_wx_prototype.Grid.{
  PackedRow, PackedGrid, blank_row, ensure_styles, ensure_packed_grid, take_row, rotated_row,
  rotated_rows, is_zero, rotate_packed_rows,
}
use sakura_wx_prototype.Grid.Rebuild.{ChangedCell, rebuild_packed_rows, sort_changes}
use sakura_wx_prototype.Grid.Sort.{IsDistinct, sort-IsSorted, sort-keeps}
use sakura_wx_prototype.Grid.RowContent.{IsShort}
use sakura_wx_prototype.Grid.Content.{IsReadable, rebuild_rows-IsSound}
use sakura_wx_prototype.Grid.Blank.{blank_content, blank_row-content, blank_row-IsShort}

-- The number of rows is right, there is a style, every cell can be read, and no cell has more than
-- `size` bytes of text.
pub record IsSound (size : ℕ) (grid : PackedGrid) : Type 0 where
  pub counted : length grid.row_data ≡ grid.rows
  pub styled : 0 < length grid.styles
  pub rows_sound : All (λ row. IsShort size row × IsReadable grid.columns row) grid.row_data

abbrev RowSound : ℕ → ℕ → PackedRow → Type 0
RowSound size columns row = IsShort size row × IsReadable columns row

blank_row-RowSound : (size columns : ℕ) → 1 ≤ size → RowSound size columns (blank_row columns)
blank_row-RowSound size columns h = (
  blank_row-IsShort size columns h,
  λ k inside. (blank_content, blank_row-content columns k inside),
)

All-replicate {ℓ κ} :
    {A : Type ℓ} (P : A → Type κ) (count : ℕ) (a : A) → P a → All P (replicate count a)
All-replicate P zero a p = tt
All-replicate P (suc count) a p = (p, All-replicate P count a p)

All-get_or {ℓ κ} :
    {A : Type ℓ} (P : A → Type κ) (xs : List A) (i : ℕ) (d : A) → All P xs → P d → P (get_or xs i d)
All-get_or P [] i d h p = p
All-get_or P (x ∷ xs) zero d h p = h.0
All-get_or P (x ∷ xs) (suc i) d h p = All-get_or P xs i d h.1 p

length-ensure_styles : (styles : List PackedStyle) → 0 < length (ensure_styles styles)
unfolding ensure_styles
length-ensure_styles [] = omega arith
length-ensure_styles (s ∷ styles) = omega arith

ensured_same :
    (size columns rows : ℕ) (grid : PackedGrid)
    → grid.columns ≡ columns
    → grid.rows ≡ rows
    → length grid.row_data ≡ rows
    → All (RowSound size grid.columns) grid.row_data
    → IsSound size (record grid { styles = ensure_styles grid.styles })
ensured_same size columns rows grid c r l h = record {
  counted = l ∙ sym r;
  styled = length-ensure_styles grid.styles;
  rows_sound = h;
}

ensured_new :
    (size columns rows : ℕ) (styles : List PackedStyle)
    → 1 ≤ size
    → IsSound size (record {
      columns = columns;
      rows = rows;
      styles = ensure_styles styles;
      row_data = replicate rows (blank_row columns);
    })
ensured_new size columns rows styles h = record {
  counted = length-replicate rows (blank_row columns);
  styled = length-ensure_styles styles;
  rows_sound =
      All-replicate (RowSound size columns) rows (blank_row columns)
        (blank_row-RowSound size columns h);
}

-- `EnsurePackedGrid` makes a grid of the size that is asked for that satisfies the invariant, from any
-- grid whose rows can be read and whose texts have at most `size` bytes, 1 or more. It keeps the rows of a grid that has that size, and makes every row
-- of another blank.
pub ensure_packed_grid-IsSound :
    (size columns rows : ℕ) (grid : PackedGrid)
    → 1 ≤ size
    → All (λ row. IsShort size row × IsReadable grid.columns row) grid.row_data
    → IsSound size (ensure_packed_grid grid columns rows)
      × ((ensure_packed_grid grid columns rows).columns ≡ columns)
      × ((ensure_packed_grid grid columns rows).rows ≡ rows)
      × ((ensure_packed_grid grid columns rows).row_data ≡ (
          if (grid.columns == columns) && (grid.rows == rows) && (length grid.row_data == rows)
          then grid.row_data
          else replicate rows (blank_row columns)))
unfolding ensure_packed_grid
ensure_packed_grid-IsSound size columns rows grid h sound =
    elim (Bool-cases
      ((grid.columns == columns) && (grid.rows == rows) && (length grid.row_data == rows))) [
        | inl e ↦ rw e (
          ensured_same size columns rows grid (ground arith) (ground arith) (ground arith) sound,
          ground arith,
          ground arith,
          refl,
        )
        | inr e ↦ rw e (ensured_new size columns rows grid.styles h, refl, refl, refl)
      ]

take_row_sound :
    (size : ℕ) (grid : PackedGrid) (source : ℤ)
    → 1 ≤ size
    → All (RowSound size grid.columns) grid.row_data
    → RowSound size grid.columns (take_row grid source)
unfolding take_row
take_row_sound size grid (negsuc below) h sound = blank_row-RowSound size grid.columns h
take_row_sound size grid (pos source) h sound =
    let blank = blank_row-RowSound size grid.columns h in
    elim (Bool-cases (ltb source grid.rows)) [
      | inl e ↦ rw e (All-get_or (RowSound size grid.columns) grid.row_data source _ sound blank)
      | inr e ↦ rw e blank
    ]

rotated_rows_sound :
    (size count : ℕ) (grid : PackedGrid) (delta : ℤ) (row : ℕ)
    → 1 ≤ size
    → All (RowSound size grid.columns) grid.row_data
    → All (RowSound size grid.columns) (rotated_rows count grid delta row)
      × (length (rotated_rows count grid delta row) ≡ count)
unfolding rotated_rows rotated_row
rotated_rows_sound size zero grid delta row h sound = (tt, refl)
rotated_rows_sound size (suc count) grid delta row h sound =
    let later = rotated_rows_sound size count grid delta (row + 1) h sound in
    ((take_row_sound size grid (pos row +ℤ delta) h sound, later.0), ap suc later.1)

-- `RotatePackedRows` keeps the invariant: as many rows as the grid says, a style, and rows that can be
-- read in every column, with texts of at most `size` bytes, which is 1 or more.
pub rotate_packed_rows-IsSound :
    (size : ℕ) (grid : PackedGrid) (delta : ℤ)
    → 1 ≤ size
    → IsSound size grid
    → IsSound size (rotate_packed_rows grid delta)
unfolding rotate_packed_rows
rotate_packed_rows-IsSound size grid delta h sound =
    let rotated = rotated_rows_sound size grid.rows grid delta 0 h sound.rows_sound in
    elim (Bool-cases (is_zero delta || (grid.rows == 0))) [
      | inl e ↦ rw e sound
      | inr e ↦ rw e (record { counted = rotated.1; styled = sound.styled; rows_sound = rotated.0 })
    ]

-- `RebuildPackedRows` keeps the invariant, for changes that are for different cells of the grid and
-- of at most `size` bytes, while the text of a whole row stays below 2 ^ 32 bytes.
pub rebuild_packed_rows-IsSound :
    (size : ℕ) (grid : PackedGrid) (changes : List ChangedCell) (changed_text : List ℕ)
    → grid.columns * size < 2 ^ 32
    → IsDistinct changes
    → All (λ c. c.text_length ≤ size) changes
    → All (λ c. c.row < grid.rows) changes
    → IsSound size grid
    → IsSound size (rebuild_packed_rows grid changes changed_text)
unfolding rebuild_packed_rows
rebuild_packed_rows-IsSound size grid changes changed_text fits distinct short rows sound =
    let inside : All (λ c. c.row < length grid.row_data) changes =
      All-map (λ c h. omega (arith, sound.counted)) changes rows in
    let rebuilt =
      rebuild_rows-IsSound grid.columns size changed_text fits (length changes) grid.row_data
        (sort_changes changes) (sort-IsSorted changes distinct)
        (sort-keeps (λ c. c.text_length ≤ size) changes short)
        (sort-keeps (λ c. c.row < length grid.row_data) changes inside) sound.rows_sound in
    record { counted = rebuilt.1 ∙ sound.counted; styled = sound.styled; rows_sound = rebuilt.0 }
