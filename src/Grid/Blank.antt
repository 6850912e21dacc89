-- ===== src/Grid/Blank.antt =====
-- Blank rows of src/terminal_core.cpp (`BlankRow`): every column shows one space.
use sakura_wx_prototype.Prelude.{
  ℕ, zero, suc, ◌+◌, ◌≤◌, ◌<◌, ◌≡◌, refl, ap, ◌∙◌, true, [], ◌∷◌, some, arith, get_elem?, replicate,
  slice, length-replicate, All,
}
use sakura_wx_prototype.Grid.{PackedCell, default_cell, blank_cells, blank_row, text_valid}
use sakura_wx_prototype.Grid.RowContent.{CellContent, row_content, read_cell, IsShort}

abbrev pub blank_content : CellContent
blank_content = record { codepoint = b' '; style_index = 0; width = 1; bytes = b' ' ∷ [] }

abbrev blank_cell : ℕ → PackedCell
blank_cell column = record default_cell { text_offset = column; text_length = 1 }

get_elem?-blank_cells :
    (count column i : ℕ)
    → i < count
    → get_elem? (blank_cells count column) i ≡ some (blank_cell (column + i))
unfolding blank_cells
get_elem?-blank_cells zero column i h = absurd (omega arith)
get_elem?-blank_cells (suc count) column zero h = ap (λ c. some (blank_cell c)) (omega arith)
get_elem?-blank_cells (suc count) column (suc i) h =
    get_elem?-blank_cells count (suc column) i (omega arith)
    ∙ ap (λ c. some (blank_cell c)) (omega arith)

slice-replicate : (count i : ℕ) (ch : ℕ) → i < count → slice (replicate count ch) i 1 ≡ ch ∷ []
slice-replicate zero i ch h = absurd (omega arith)
slice-replicate (suc count) zero ch h = refl
slice-replicate (suc count) (suc i) ch h = slice-replicate count i ch (omega arith)

pub blank_row-content :
    (columns k : ℕ) → k < columns → row_content (blank_row columns) k ≡ some blank_content
unfolding blank_row
blank_row-content columns k h =
    let valid : text_valid (replicate columns b' ') k 1 ≡ true =
      ground (arith, length-replicate {A = ℕ} columns b' ') in
    let start : 0 + k ≡ k = omega arith in
    ap (read_cell (replicate columns b' '))
      (get_elem?-blank_cells columns 0 k h ∙ ap (λ c. some (blank_cell c)) start)
    ∙ rw (valid, slice-replicate columns k b' ' h)

blank_cells-short :
    (size count column : ℕ)
    → 1 ≤ size
    → All (λ (c : PackedCell). c.text_length ≤ size) (blank_cells count column)
unfolding blank_cells
blank_cells-short size zero column h = tt
blank_cells-short size (suc count) column h = (h, blank_cells-short size count (suc column) h)

pub blank_row-IsShort : (size columns : ℕ) → 1 ≤ size → IsShort size (blank_row columns)
unfolding blank_row
blank_row-IsShort size columns h = blank_cells-short size columns 0 h
