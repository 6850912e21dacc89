-- ===== src/Tests/Frame.antt =====
-- The theorems on rows and runs of src/terminal_core.cpp, at a blank row of five columns.
use sakura_wx_prototype.Prelude.{
  ◌+◌, ◌^◌, ◌≤◌, ◌<◌, ◌≡◌, refl, true, List, [], ◌∷◌, some, map, max, arith, length,
}
use sakura_wx_prototype.Style.{default_style}
use sakura_wx_prototype.Grid.{PackedRun, PackedGrid, blank_row, blank_cells}
use sakura_wx_prototype.Grid.Rebuild.{rebuild_row}
use sakura_wx_prototype.Grid.Blank.{blank_row-IsShort}
use sakura_wx_prototype.Frame.{fill_packed_run_view, for_each_packed_run_span}
use sakura_wx_prototype.Frame.Layout.{
  IsLaidOut, offset_at, blank_row-IsLaidOut, rebuild_row-IsLaidOut,
}
use sakura_wx_prototype.Frame.Spans.{Tiles, run_view, for_each_packed_run_span-Tiles}

abbrev one_row : PackedGrid
one_row = record { columns = 5; rows = 1; styles = default_style ∷ []; row_data = blank_row 5 ∷ [] }

abbrev whole_row : PackedRun
whole_row = record { left = 0; cell_count = 5; style_index = 0; text_offset = 0; text_length = 5 }

rebuild_row-IsLaidOut_example : IsLaidOut (rebuild_row (some (blank_row 5)) [] 5 [])
rebuild_row-IsLaidOut_example =
    rebuild_row-IsLaidOut (blank_row 5) [] 5 1 [] (omega arith)
      (blank_row-IsShort 1 5 (omega arith)) tt

blank_text : length (blank_row 5).text < 2 ^ 32
unfolding blank_row
blank_text = omega arith

blank_width : whole_row.left + whole_row.cell_count ≤ length (blank_row 5).cells
unfolding blank_row blank_cells
blank_width = omega arith

for_each_packed_run_span-Tiles_example :
    (spans : List PackedRun) × (for_each_packed_run_span
        (blank_row 5)
        whole_row
        (fill_packed_run_view one_row (blank_row 5) 0)
        2
      ≡ (map (run_view (blank_row 5) 0 default_style) spans, true))
    × Tiles
        (max 2 2)
        0
        0
        5
        (offset_at (blank_row 5).cells 0 0)
        (offset_at (blank_row 5).cells 0 (0 + 5))
        spans
for_each_packed_run_span-Tiles_example =
    for_each_packed_run_span-Tiles one_row (blank_row 5) 0 whole_row default_style 2
      (blank_row-IsLaidOut 5) blank_text refl (omega arith) blank_width (omega arith)
