-- ===== src/Dirty/Region.antt =====
-- The dirty region of src/terminal_core.cpp as a set of cells.
use sakura_wx_prototype.Prelude.{
  ℕ, zero, suc, ◌+◌, ◌-◌, ◌^◌, ◌≤◌, ◌<◌, ◌≡◌, min, true, false, List, arith,
}
use sakura_wx_prototype.Dirty.{
  DirtyRegion, DirtySpan, dirty_empty, include_dirty, include_rows, cell_left, cell_right,
}

-- The cell at column `x` and row `y` is in the region.
abbrev pub InRegion : DirtyRegion → ℕ → ℕ → Type 0
InRegion d x y = (d.left ≤ x) × (x < d.right) × (d.top ≤ y) × (y < d.bottom)

-- The region lies in a grid of that size.
abbrev pub IsWithin : ℕ → ℕ → DirtyRegion → Type 0
IsWithin columns rows d = (d.right ≤ columns) × (d.bottom ≤ rows)

-- Every cell of the first region is in the second.
abbrev pub Contains : DirtyRegion → DirtyRegion → Type 0
Contains big small = (x y : ℕ) → InRegion small x y → InRegion big x y

-- `DirtyEmpty` holds exactly of the regions that have no cell.
pub dirty_empty_iff :
    (d : DirtyRegion)
    → (dirty_empty d ≡ true → (x y : ℕ) → ¬ InRegion d x y)
      × (dirty_empty d ≡ false → InRegion d d.left d.top)
unfolding dirty_empty
dirty_empty_iff d = (λ e x y h. ground arith, λ e. ground arith)

-- The columns that a cell of that column and width marks: for width 1 its own, for width 2 also the
-- next one, and for width 0 also the one before and the next one.
abbrev pub IsMarked : ℕ → ℕ → ℕ → Type 0
IsMarked column zero x = (column ≤ x + 1) × (x ≤ column + 1)
IsMarked column (suc zero) x = x ≡ column
IsMarked column (suc (suc width)) x = (column ≤ x) × (x ≤ column + 1)

-- The first and the last of these columns that the grid has.
IsMarked-ends :
    (column width columns : ℕ)
    → column < columns
    → columns + 2 ≤ 2 ^ 32
    → width ≤ 2
    → (cell_left column width ≤ column)
      × (column < cell_right column width columns)
      × IsMarked column width (cell_left column width)
      × IsMarked column width (cell_right column width columns - 1)
      × (cell_right column width columns ≤ columns)
      × ((x : ℕ)
          → IsMarked column width x
          → x < columns
          → (cell_left column width ≤ x) × (x < cell_right column width columns))
IsMarked-ends column zero columns inside small narrow =
    (ground arith, ground arith, ground arith, ground arith, ground arith, λ x m h. ground arith)
IsMarked-ends column (suc zero) columns inside small narrow =
    (ground arith, ground arith, ground arith, ground arith, ground arith, λ x m h. ground arith)
IsMarked-ends column (suc (suc width)) columns inside small narrow =
    (ground arith, ground arith, ground arith, ground arith, ground arith, λ x m h. ground arith)

module _ (d : DirtyRegion) (column row width columns rows : ℕ) (in_columns : column < columns)
    (in_rows : row < rows) (columns_small : columns + 2 ≤ 2 ^ 32) (rows_small : rows < 2 ^ 32)
    (width_small : width ≤ 2) where
  include_dirty_holds :
      (x : ℕ)
      → cell_left column width ≤ x
      → x < cell_right column width columns
      → x < columns
      → InRegion (include_dirty d column row width columns rows) x row
  unfolding include_dirty
  include_dirty_holds x lo hi inside = ground arith

  include_dirty_keeps : Contains (include_dirty d column row width columns rows) d
  unfolding include_dirty
  include_dirty_keeps x y h = ground arith

  include_dirty_inside :
      (big : DirtyRegion)
      → big.left ≤ cell_left column width
      → cell_right column width columns ≤ big.right
      → big.top ≤ row
      → row < big.bottom
      → Contains big d
      → Contains big (include_dirty d column row width columns rows)
  unfolding include_dirty
  include_dirty_inside big l r t b c x y h =
      ground (arith, c d.left d.top, c (d.right - 1) (d.bottom - 1))

  -- For a cell of the grid and a width of at most 2, and a grid whose sides fit in 32 bits,
  -- `IncludeDirty` gives a region that holds, on the cell's row, every column that is to be marked, and
  -- all of the former region; and it is inside every region that does so. For width 1 that is the
  -- cell's column, for width 2 also the next one, and for width 0 also the one before and the next one,
  -- each as far as the grid has it.
  pub include_dirty_least :
      ((x : ℕ)
        → IsMarked column width x
        → x < columns
        → InRegion (include_dirty d column row width columns rows) x row)
      × Contains (include_dirty d column row width columns rows) d
      × ((big : DirtyRegion)
          → ((x : ℕ) → IsMarked column width x → x < columns → InRegion big x row)
          → Contains big d
          → Contains big (include_dirty d column row width columns rows))
  unfolding include_dirty
  include_dirty_least =
      let (left, right, left_marked, right_marked, right_inside, between) =
        IsMarked-ends column width columns in_columns columns_small width_small in
      (
        λ x marked inside.
            let (lo, hi) = between x marked inside in include_dirty_holds x lo hi inside,
        include_dirty_keeps,
        λ big m c x y h.
            let first = m (cell_left column width) left_marked (omega arith) in
            let last = m (cell_right column width columns - 1) right_marked (omega arith) in
            include_dirty_inside big (omega (arith, first.0)) (omega (arith, last.1)) (omega arith)
              (omega arith) c x y h,
      )

-- `IncludeDirty` keeps the region inside a grid of fewer than 2 ^ 32 rows, whatever the cell and width.
pub include_dirty-IsWithin :
    (d : DirtyRegion) (column row width columns rows : ℕ)
    → rows < 2 ^ 32
    → IsWithin columns rows d
    → IsWithin columns rows (include_dirty d column row width columns rows)
unfolding include_dirty
include_dirty-IsWithin d column row width columns rows small w = ground arith

-- From a region inside the grid, `IncludeRows` keeps the former region inside the new one, adds every cell of the rows from `top`
-- to `bottom` that the grid has, and stays inside the grid.
pub include_rows_region :
    (d : DirtyRegion) (spans : List DirtySpan) (top bottom columns rows : ℕ)
    → IsWithin columns rows d
    → Contains (include_rows d spans top bottom columns rows).0 d
      × ((x y : ℕ)
          → x < columns
          → top ≤ y
          → y < min bottom rows
          → InRegion (include_rows d spans top bottom columns rows).0 x y)
      × IsWithin columns rows (include_rows d spans top bottom columns rows).0
unfolding include_rows
include_rows_region d spans top bottom columns rows w =
    (λ x y h. ground arith, λ x y hx ht hb. ground arith, ground arith)
