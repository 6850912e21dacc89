-- ===== src/Tests/Grid.antt =====
-- The theorems on the packed grid of src/terminal_core.cpp, at a grid of two rows and two columns.
use sakura_wx_prototype.Prelude.{ℕ, ◌≡◌, refl, List, [], ◌∷◌, arith, get_elem?, All}
use sakura_wx_prototype.Prelude.Int.{pos}
use sakura_wx_prototype.Style.{default_style}
use sakura_wx_prototype.Grid.{PackedGrid, blank_row, rotate_packed_rows}
use sakura_wx_prototype.Grid.Rebuild.{ChangedCell, rebuild_packed_rows}
use sakura_wx_prototype.Grid.Sort.{find_change, IsDistinct}
use sakura_wx_prototype.Grid.RowContent.{IsShort}
use sakura_wx_prototype.Grid.Content.{
  grid_content, updated, IsReadable, rebuild_packed_rows-content,
}
use sakura_wx_prototype.Grid.Blank.{blank_content, blank_row-content, blank_row-IsShort}
use sakura_wx_prototype.Grid.Rotate.{source_row, rotate_packed_rows-row}
use sakura_wx_prototype.Grid.Invariant.{IsSound, rebuild_packed_rows-IsSound}

abbrev two_by_two : PackedGrid
two_by_two = record {
  columns = 2;
  rows = 2;
  styles = default_style ∷ [];
  row_data = blank_row 2 ∷ blank_row 2 ∷ [];
}

-- A two-byte letter in the second row, and an ASCII letter in the first.
abbrev letters : List ChangedCell
letters =
    record {
      column = 0;
      row = 1;
      width = 1;
      codepoint = 0xe9;
      style_index = 0;
      text_offset = 0;
      text_length = 2;
    }
    ∷ record {
      column = 1;
      row = 0;
      width = 1;
      codepoint = b'a';
      style_index = 0;
      text_offset = 2;
      text_length = 1;
    }
    ∷ []

abbrev letter_bytes : List ℕ
letter_bytes = 0xc3 ∷ 0xa9 ∷ b'a' ∷ []

blank-IsReadable : IsReadable 2 (blank_row 2)
blank-IsReadable k inside = (blank_content, blank_row-content 2 k inside)

two_by_two_rows : All (λ row. IsShort 2 row × IsReadable 2 row) two_by_two.row_data
two_by_two_rows = (
  (blank_row-IsShort 2 2 (omega arith), blank-IsReadable),
  ((blank_row-IsShort 2 2 (omega arith), blank-IsReadable), tt),
)

two_by_two-IsSound : IsSound 2 two_by_two
two_by_two-IsSound = record { counted = refl; styled = omega arith; rows_sound = two_by_two_rows }

letters-IsDistinct : IsDistinct letters
unfolding find_change
letters-IsDistinct = (refl, (refl, tt))

rebuild_packed_rows-content_example :
    grid_content (rebuild_packed_rows two_by_two letters letter_bytes).row_data 1 0
    ≡ updated letter_bytes (find_change letters 1 0) (grid_content two_by_two.row_data 1 0)
rebuild_packed_rows-content_example =
    rebuild_packed_rows-content two_by_two letters letter_bytes 2 1 0 (omega arith)
      letters-IsDistinct (omega arith, (omega arith, tt)) (omega arith, (omega arith, tt))
      two_by_two_rows (omega arith)

rebuild_packed_rows-IsSound_example :
    IsSound 2 (rebuild_packed_rows two_by_two letters letter_bytes)
rebuild_packed_rows-IsSound_example =
    rebuild_packed_rows-IsSound 2 two_by_two letters letter_bytes (omega arith) letters-IsDistinct
      (omega arith, (omega arith, tt)) (omega arith, (omega arith, tt)) two_by_two-IsSound

rotate_packed_rows-row_example :
    get_elem? (rotate_packed_rows two_by_two (pos 1)).row_data 0 ≡ source_row two_by_two (pos 1) 0
rotate_packed_rows-row_example = rotate_packed_rows-row two_by_two (pos 1) 0 refl (omega arith)
