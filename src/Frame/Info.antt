-- ===== src/Frame/Info.antt =====
-- The information on a frame: `SakuraTerminalFrameInfo` of include/sakura/terminal/core_c.h, and
-- `sakura_terminal_frame_info`, `sakura_terminal_frame_dirty_span_count` and
-- `sakura_terminal_frame_dirty_span` of src/terminal_core.cpp. A frame or its content that is null is
-- `none`; the pointer to fill is not null.
use sakura_wx_prototype.Prelude.{ℕ, Bool, Option, none, some, length, get_elem?}
use sakura_wx_prototype.Prelude.Int.{ℤ}
use sakura_wx_prototype.Dirty.{DirtyRegion, DirtySpan}
use sakura_wx_prototype.CursorStyle.{Shape}
use sakura_wx_prototype.Take.{ScrollKind, PackedFrame}

pub record FrameInfo : Type 0 where
  pub generation : ℕ
  pub changed : Bool
  pub full_repaint : Bool
  pub scroll_delta : ℤ
  pub scroll_kind : ScrollKind
  pub columns : ℕ
  pub rows : ℕ
  pub cursor_x : ℕ
  pub cursor_y : ℕ
  pub cursor_visible : Bool
  pub cursor_style : Shape
  pub alternate_screen : Bool
  pub dirty : DirtyRegion

abbrev pub info_of : PackedFrame → FrameInfo
info_of source = record {
  generation = source.generation;
  changed = source.changed;
  full_repaint = source.full_repaint;
  scroll_delta = source.scroll_delta;
  scroll_kind = source.scroll_kind;
  columns = source.columns;
  rows = source.rows;
  cursor_x = source.cursor_x;
  cursor_y = source.cursor_y;
  cursor_visible = source.cursor_visible;
  cursor_style = source.cursor_style;
  alternate_screen = source.alternate_screen;
  dirty = source.dirty;
}

abbrev pub frame_info : Option PackedFrame → Option FrameInfo
frame_info none = none
frame_info (some source) = some (info_of source)

abbrev pub frame_dirty_span_count : Option PackedFrame → ℕ
frame_dirty_span_count none = 0
frame_dirty_span_count (some source) = length source.dirty_spans

abbrev pub frame_dirty_span : Option PackedFrame → ℕ → Option DirtySpan
frame_dirty_span none index = none
frame_dirty_span (some source) index = get_elem? source.dirty_spans index

-- All of the frame's grid.
abbrev pub whole_region : FrameInfo → DirtyRegion
whole_region info = record { left = 0; top = 0; right = info.columns; bottom = info.rows }
