-- ===== src/Tests/Take.antt =====
-- The theorems on drawing and on frames of src/terminal_core.cpp, at a screen of five columns and
-- two rows on which one letter is drawn.
use sakura_wx_prototype.Prelude.{
  ℕ, refl, true, false, ltb, if◌then◌else◌, List, [], ◌∷◌, some, arith,
}
use sakura_wx_prototype.Prelude.Int.{pos}
use sakura_wx_prototype.Dirty.{no_dirty}
use sakura_wx_prototype.Style.{TsmAttr, black, default_style}
use sakura_wx_prototype.CursorStyle.{block}
use sakura_wx_prototype.Grid.{PackedGrid, blank_row}
use sakura_wx_prototype.Draw.{DrawContext, DrawnCell, draw_packed_cell, draw_cells}
use sakura_wx_prototype.Draw.Shows.{Records, draw_packed_cell-Records}
use sakura_wx_prototype.Draw.Context.{IsRecorded, draw_cells-IsRecorded}
use sakura_wx_prototype.Take.{ScreenView, Renderer, take_packed_frame}
use sakura_wx_prototype.Take.Frames.{IsConsistent, take_packed_frame-IsConsistent}
use sakura_wx_prototype.Take.Idle.{IsUnchanged, take_packed_frame-idle}

abbrev one_byte : ℕ → List ℕ
one_byte codepoint = codepoint ∷ []

abbrev plain : TsmAttr
plain = record {
  fore = record { red = 200; green = 200; blue = 200 };
  back = black;
  bold = true;
  italic = false;
  underline = false;
  inverse = false;
  dim = false;
  blink = false;
}

abbrev letter : DrawnCell
letter = record {
  codepoints = b'x' ∷ [];
  width = 1;
  column = 3;
  row = 1;
  attr = some plain;
  age = 7;
}

abbrev small_grid : PackedGrid
small_grid = record {
  columns = 5;
  rows = 2;
  styles = default_style ∷ [];
  row_data = blank_row 5 ∷ blank_row 5 ∷ [];
}

abbrev fresh_context : DrawContext
fresh_context = record {
  grid = small_grid;
  changed_cells = [];
  changed_text = [];
  dirty_spans = [];
  dirty = no_dirty;
  previous_age = 6;
  full_repaint = false;
  cursor_changed = false;
  previous_cursor_x = 0;
  previous_cursor_y = 0;
  cursor_x = 0;
  cursor_y = 0;
  decoded_cells = 0;
  reuse_scrolled_rows = false;
}

fresh_context-IsRecorded : IsRecorded fresh_context
fresh_context-IsRecorded = record {
  boxed = tt;
  distinct = (tt, tt);
  bounded = omega arith;
  styled = omega arith;
  placed = tt;
}

draw_cells-IsRecorded_example : IsRecorded (draw_cells one_byte fresh_context (letter ∷ []))
draw_cells-IsRecorded_example =
    draw_cells-IsRecorded one_byte fresh_context (letter ∷ []) (omega arith) (omega arith)
      fresh_context-IsRecorded

draw_packed_cell-Records_example :
    Records one_byte fresh_context letter plain (draw_packed_cell one_byte fresh_context letter)
draw_packed_cell-Records_example =
    draw_packed_cell-Records one_byte fresh_context letter plain refl (omega arith) (omega arith)
      refl (omega arith) fresh_context-IsRecorded

abbrev screen : ScreenView
screen = record {
  width = 5;
  height = 2;
  cursor_x = 4;
  cursor_y = 1;
  cursor_visible = true;
  alternate = false;
  line_pos = 0;
  line_count = 0;
  drawn = λ age. (letter ∷ [], 7);
}

-- The letter is drawn for an age that is older than it.
abbrev quiet_screen : ScreenView
quiet_screen = record screen { drawn = λ age. (if ltb age 7 then letter ∷ [] else [], 7) }

abbrev renderer : Renderer
renderer = record {
  packed_grid_cache = small_grid;
  pending_content_scroll_delta = pos 1;
  pending_viewport_scroll_delta = pos 0;
  cursor_style = block;
  packed_frame_valid = true;
  packed_last_draw_age = 6;
  packed_last_columns = 5;
  packed_last_rows = 2;
  packed_last_alternate_screen = false;
  packed_last_cursor_x = 3;
  packed_last_cursor_y = 1;
  packed_last_cursor_visible = true;
  packed_last_cursor_style = block;
  packed_generation = 41;
  output_waiting_for_render = false;
  metrics = record {
    rendered_frames = 0;
    render_latency_samples = 0;
    max_render_latency_us = 0;
    frame_cells_decoded = 0;
    frame_cells_reused = 0;
  };
}

take_packed_frame-IsConsistent_example :
    IsConsistent renderer screen (take_packed_frame one_byte 0 renderer screen).0
take_packed_frame-IsConsistent_example =
    take_packed_frame-IsConsistent one_byte 0 renderer screen (omega arith) (omega arith) (tt, tt)
      (omega arith)

take_packed_frame-idle_example :
    IsUnchanged
      (take_packed_frame one_byte 0 renderer quiet_screen).0
      (take_packed_frame one_byte 0
        (take_packed_frame one_byte 0 renderer quiet_screen).1
        quiet_screen).0
take_packed_frame-idle_example =
    take_packed_frame-idle one_byte 0 0 renderer quiet_screen refl refl refl
