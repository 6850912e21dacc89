-- ===== src/Grid/Rotate.antt =====
-- `RotatePackedRows` of src/terminal_core.cpp: which row stands where after a scroll.
use sakura_wx_prototype.Prelude.{
  ℕ, zero, suc, ◌+◌, ◌-◌, ◌≤◌, ◌<◌, ◌≡◌, refl, ap, ◌∙◌, inl, inr, true, false, List, [], ◌∷◌,
  Option, some, arith, ltb, ◌==◌, if◌then◌else◌, length, get_elem?, get_or, Bool-cases,
}
use sakura_wx_prototype.Prelude.Int.{ℤ, pos, negsuc, ◌+ℤ◌}
use sakura_wx_prototype.Grid.{
  PackedRow, PackedGrid, blank_row, rotated_row, rotated_rows, is_zero, rotate_packed_rows,
}

pub get_elem?-rotated_rows :
    (count : ℕ) (grid : PackedGrid) (delta : ℤ) (row i : ℕ)
    → i < count
    → get_elem? (rotated_rows count grid delta row) i ≡ some (rotated_row grid delta (row + i))
unfolding rotated_rows
get_elem?-rotated_rows zero grid delta row i h = absurd (omega arith)
get_elem?-rotated_rows (suc count) grid delta row zero h =
    ap (λ r. some (rotated_row grid delta r)) (omega arith)
get_elem?-rotated_rows (suc count) grid delta row (suc i) h =
    get_elem?-rotated_rows count grid delta (row + 1) i (omega arith)
    ∙ ap (λ r. some (rotated_row grid delta r)) (omega arith)

get_or-get_elem? :
    (rows : List PackedRow) (i : ℕ) (d : PackedRow)
    → i < length rows
    → some (get_or rows i d) ≡ get_elem? rows i
get_or-get_elem? [] i d h = absurd (omega arith)
get_or-get_elem? (r ∷ rows) zero d h = refl
get_or-get_elem? (r ∷ rows) (suc i) d h = get_or-get_elem? rows i d (omega arith)

add_up : (r d : ℕ) → pos r +ℤ pos d ≡ pos (r + d)
unfolding ◌+ℤ◌
add_up r d = ground arith

add_down : (r n : ℕ) → n < r → pos r +ℤ negsuc n ≡ pos (r - suc n)
unfolding ◌+ℤ◌
add_down r n h = ground arith

add_below : (r n : ℕ) → r ≤ n → pos r +ℤ negsuc n ≡ negsuc (n - r)
unfolding ◌+ℤ◌
add_below r n h = ground arith

-- The row that a scroll by `delta` brings to row `r`: the one `delta` further down, or a blank one
-- where the grid had none.
abbrev pub source_row : PackedGrid → ℤ → ℕ → Option PackedRow
source_row grid (pos d) r =
    if ltb (r + d) grid.rows then get_elem? grid.row_data (r + d) else some (blank_row grid.columns)
source_row grid (negsuc n) r =
    if ltb n r then get_elem? grid.row_data (r - suc n) else some (blank_row grid.columns)

rotated_row-source :
    (grid : PackedGrid) (delta : ℤ) (r : ℕ)
    → length grid.row_data ≡ grid.rows
    → r < grid.rows
    → some (rotated_row grid delta r) ≡ source_row grid delta r
unfolding rotated_row
rotated_row-source grid (pos d) r same inside =
    rw (add_up r d, rotated_row)
      (ground (arith, get_or-get_elem? grid.row_data (r + d) (blank_row grid.columns)))
rotated_row-source grid (negsuc n) r same inside = elim (Bool-cases (ltb n r)) [
  | inl e ↦
      rw (e, add_down r n (ground arith), rotated_row)
        (ground (arith, get_or-get_elem? grid.row_data (r - suc n) (blank_row grid.columns)))
  | inr e ↦ rw (e, add_below r n (ground arith), rotated_row)
]

unmoved :
    (grid : PackedGrid) (delta : ℤ) (r : ℕ)
    → is_zero delta ≡ true
    → r < grid.rows
    → get_elem? grid.row_data r ≡ source_row grid delta r
unmoved grid (pos d) r zero_delta inside = ground arith
unmoved grid (negsuc n) r zero_delta inside = cc

-- `RotatePackedRows` puts into every row of the grid the row that stood `delta` rows below it, and a
-- blank row where there was none.
pub rotate_packed_rows-row :
    (grid : PackedGrid) (delta : ℤ) (r : ℕ)
    → length grid.row_data ≡ grid.rows
    → r < grid.rows
    → get_elem? (rotate_packed_rows grid delta).row_data r ≡ source_row grid delta r
unfolding rotate_packed_rows
rotate_packed_rows-row grid delta r same inside = elim (Bool-cases (is_zero delta)) [
  | inl e ↦ rw e (unmoved grid delta r e inside)
  | inr e ↦
      let some_rows : (grid.rows == 0) ≡ false = ground arith in
      let start : 0 + r ≡ r = omega arith in
      rw (e, some_rows)
        (get_elem?-rotated_rows grid.rows grid delta 0 r inside
          ∙ ap (λ k. some (rotated_row grid delta k)) start
          ∙ rotated_row-source grid delta r same inside)
]
