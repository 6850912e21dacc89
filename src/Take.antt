-- ===== src/Take.antt =====
-- `TakePackedFrame` of src/terminal_core.cpp: how a frame is made of the grid, the changes and the
-- pending scrolls. The screen is libtsm's: what the function reads of it is a `ScreenView`. The grid
-- is copied if a frame shares it; here it is a value. A missing grid is an empty one.
pub mod Frames
pub mod Idle
use sakura_wx_prototype.Prelude.{
  ℕ, ◌+◌, ◌-◌, ◌*◌, max, Bool, true, false, not, ◌&&◌, ◌||◌, List, [], leb, ltb, ◌==◌,
  if◌then◌else◌,
}
use sakura_wx_prototype.Prelude.Int.{ℤ, pos, negsuc}
use sakura_wx_prototype.Prelude.Word.{u64, sub64}
use sakura_wx_prototype.Dirty.{
  DirtyRegion, DirtySpan, no_dirty, dirty_empty, include_cell, include_cell_span,
  include_full_spans, include_rows,
}
use sakura_wx_prototype.CursorStyle.{Shape, same_shape}
use sakura_wx_prototype.Grid.{PackedGrid, ensure_packed_grid, is_zero, rotate_packed_rows}
use sakura_wx_prototype.Grid.Rebuild.{rebuild_packed_rows}
use sakura_wx_prototype.Draw.{DrawContext, DrawnCell, draw_cells}

-- `SakuraTerminalScrollKind`.
pub data ScrollKind : Type 0 where
  no_scroll content_scroll viewport_scroll mixed_scroll : ScrollKind

-- What the screen says. `drawn` is what `tsm_screen_draw_since` draws and returns for an age.
pub record ScreenView : Type 0 where
  pub width : ℕ
  pub height : ℕ
  pub cursor_x : ℕ
  pub cursor_y : ℕ
  pub cursor_visible : Bool
  pub alternate : Bool
  pub line_pos : ℕ
  pub line_count : ℕ
  pub drawn : ℕ → List DrawnCell × ℕ

pub record FrameMetrics : Type 0 where
  pub rendered_frames : ℕ
  pub render_latency_samples : ℕ
  pub max_render_latency_us : ℕ
  pub frame_cells_decoded : ℕ
  pub frame_cells_reused : ℕ

-- The members that `TakePackedFrame` uses.
pub record Renderer : Type 0 where
  pub packed_grid_cache : PackedGrid
  pub pending_content_scroll_delta : ℤ
  pub pending_viewport_scroll_delta : ℤ
  pub cursor_style : Shape
  pub packed_frame_valid : Bool
  pub packed_last_draw_age : ℕ
  pub packed_last_columns : ℕ
  pub packed_last_rows : ℕ
  pub packed_last_alternate_screen : Bool
  pub packed_last_cursor_x : ℕ
  pub packed_last_cursor_y : ℕ
  pub packed_last_cursor_visible : Bool
  pub packed_last_cursor_style : Shape
  pub packed_generation : ℕ
  pub output_waiting_for_render : Bool
  pub metrics : FrameMetrics

pub record PackedFrame : Type 0 where
  pub generation : ℕ
  pub changed : Bool
  pub full_repaint : Bool
  pub scroll_delta : ℤ
  pub scroll_kind : ScrollKind
  pub dirty : DirtyRegion
  pub dirty_spans : List DirtySpan
  pub columns : ℕ
  pub rows : ℕ
  pub cursor_x : ℕ
  pub cursor_y : ℕ
  pub cursor_visible : Bool
  pub cursor_style : Shape
  pub alternate_screen : Bool
  pub grid : PackedGrid

abbrev pub same_flag : Bool → Bool → Bool
same_flag a b = if a then b else not b

abbrev pub distance : ℤ → ℕ
distance (pos n) = n
distance (negsuc n) = n + 1

abbrev pub is_positive : ℤ → Bool
is_positive (pos n) = ltb 0 n
is_positive (negsuc n) = false

unfoldable pub kind_of : ℤ → ℤ → ScrollKind
kind_of content viewport =
    if is_zero content
    then (if is_zero viewport then no_scroll else viewport_scroll)
    else (if is_zero viewport then content_scroll else mixed_scroll)

-- The first value of `frame->full_repaint`.
unfoldable pub must_repaint : Renderer → ScreenView → Bool
must_repaint r view =
    not r.packed_frame_valid
    || (not (view.width == r.packed_last_columns)
        || not (view.height == r.packed_last_rows)
        || not (same_flag view.alternate r.packed_last_alternate_screen))

unfoldable pub can_reuse : Renderer → ScreenView → Bool
unfolding must_repaint
can_reuse r view =
    not (must_repaint r view)
    && not (is_zero r.pending_content_scroll_delta)
    && is_zero r.pending_viewport_scroll_delta
    && leb view.line_count view.line_pos
    && ltb (distance r.pending_content_scroll_delta) view.height

-- The value of `frame->full_repaint` while the screen is drawn.
unfoldable pub repaints : Renderer → ScreenView → Bool
unfolding must_repaint can_reuse
repaints r view =
    must_repaint r view || (not (is_zero r.pending_content_scroll_delta) && not (can_reuse r view))

-- The grid that the cells are drawn on.
unfoldable pub ready_grid : Renderer → ScreenView → PackedGrid
unfolding can_reuse
ready_grid r view =
    let grid = ensure_packed_grid r.packed_grid_cache view.width view.height in
    if can_reuse r view then rotate_packed_rows grid r.pending_content_scroll_delta else grid

abbrev pub cursor_moved : Renderer → ScreenView → Bool
cursor_moved r view =
    r.packed_frame_valid
    && (not (view.cursor_x == r.packed_last_cursor_x)
        || not (view.cursor_y == r.packed_last_cursor_y)
        || not (same_flag view.cursor_visible r.packed_last_cursor_visible)
        || not (same_shape r.cursor_style r.packed_last_cursor_style))

unfoldable pub draw_context : Renderer → ScreenView → DrawContext
unfolding ready_grid repaints can_reuse
draw_context r view = record {
  grid = ready_grid r view;
  changed_cells = [];
  changed_text = [];
  dirty_spans = [];
  dirty = no_dirty;
  previous_age = r.packed_last_draw_age;
  full_repaint = repaints r view;
  cursor_changed = cursor_moved r view;
  previous_cursor_x = r.packed_last_cursor_x;
  previous_cursor_y = r.packed_last_cursor_y;
  cursor_x = view.cursor_x;
  cursor_y = view.cursor_y;
  decoded_cells = r.metrics.frame_cells_decoded;
  reuse_scrolled_rows = can_reuse r view;
}

unfoldable pub since : Renderer → ScreenView → ℕ
unfolding repaints
since r view = if repaints r view then 0 else r.packed_last_draw_age

-- The region and the spans with one more cell.
unfoldable pub include_cursor :
    ℕ → ℕ → ℕ → ℕ → DirtyRegion × List DirtySpan → DirtyRegion × List DirtySpan
include_cursor column row columns rows (dirty, spans) =
    (include_cell dirty column row columns rows, include_cell_span spans column row 1 columns rows)

unfoldable pub with_cursors :
    Renderer → ScreenView → DirtyRegion × List DirtySpan → DirtyRegion × List DirtySpan
unfolding include_cursor
with_cursors r view tracked =
    if cursor_moved r view
    then include_cursor view.cursor_x view.cursor_y view.width view.height (
        include_cursor r.packed_last_cursor_x r.packed_last_cursor_y view.width view.height tracked)
    else tracked

unfoldable pub with_scroll :
    Renderer → ScreenView → DirtyRegion × List DirtySpan → DirtyRegion × List DirtySpan
unfolding can_reuse
with_scroll r view (dirty, spans) =
    let far = distance r.pending_content_scroll_delta in
    if can_reuse r view
    then (if is_positive r.pending_content_scroll_delta
        then include_rows dirty spans (view.height - far) view.height view.width view.height
        else include_rows dirty spans 0 far view.width view.height)
    else (dirty, spans)

abbrev pub whole : ScreenView → DirtyRegion
whole view = record { left = 0; top = 0; right = view.width; bottom = view.height }

abbrev pub is_whole : DirtyRegion → ScreenView → Bool
unfolding dirty_empty
is_whole d view =
    not (dirty_empty d)
    && (d.left == 0)
    && (d.top == 0)
    && (d.right == view.width)
    && (d.bottom == view.height)

-- The region that the frame gets, from the one tracked.
unfoldable pub final_dirty : Bool → ℕ → ScreenView → DirtyRegion → DirtyRegion
unfolding dirty_empty
final_dirty repaint age view d =
    let seen = if age == 0 then whole view else d in
    if (repaint || (age == 0)) && dirty_empty seen then whole view else seen

unfoldable pub final_repaint : Bool → ℕ → ScreenView → DirtyRegion → Bool
unfolding final_dirty
final_repaint repaint age view d =
    repaint || (age == 0) || is_whole (final_dirty repaint age view d) view

-- The metrics: the latency is that of the clock, cut off at 0.
unfoldable pub count_frame : Renderer → ScreenView → ℕ → ℕ → FrameMetrics
count_frame r view latency decoded =
    let m = r.metrics in
    let total = u64 (view.width * view.height) in
    let cells = sub64 decoded m.frame_cells_decoded in
    record {
      rendered_frames = u64 (m.rendered_frames + 1);
      render_latency_samples =
          if r.output_waiting_for_render
          then u64 (m.render_latency_samples + 1)
          else m.render_latency_samples;
      max_render_latency_us =
          if r.output_waiting_for_render
          then max m.max_render_latency_us latency
          else m.max_render_latency_us;
      frame_cells_decoded = decoded;
      frame_cells_reused =
          if ltb cells total
          then u64 (m.frame_cells_reused + (total - cells))
          else m.frame_cells_reused;
    }

-- What the cells, the cursor and the scroll leave of the context.
unfoldable pub drawn_context : (ℕ → List ℕ) → Renderer → ScreenView → DrawContext
unfolding draw_context since
drawn_context encode r view = draw_cells encode (draw_context r view) (view.drawn (since r view)).0

unfoldable pub tracked : (ℕ → List ℕ) → Renderer → ScreenView → DirtyRegion × List DirtySpan
unfolding with_scroll with_cursors drawn_context
tracked encode r view =
    let context = drawn_context encode r view in
    with_scroll r view (with_cursors r view (context.dirty, context.dirty_spans))

unfoldable pub make_frame :
    Renderer → ScreenView → Bool → DirtyRegion → List DirtySpan → PackedGrid → PackedFrame
unfolding dirty_empty kind_of
make_frame r view repaint dirty spans grid =
    let changed = repaint || not (dirty_empty dirty) in
    record {
      generation = if changed then u64 (r.packed_generation + 1) else r.packed_generation;
      changed = changed;
      full_repaint = repaint;
      scroll_delta =
          if is_zero r.pending_content_scroll_delta
          then r.pending_viewport_scroll_delta
          else r.pending_content_scroll_delta;
      scroll_kind = kind_of r.pending_content_scroll_delta r.pending_viewport_scroll_delta;
      dirty = dirty;
      dirty_spans = if repaint then include_full_spans spans view.width view.height else spans;
      columns = view.width;
      rows = view.height;
      cursor_x = view.cursor_x;
      cursor_y = view.cursor_y;
      cursor_visible = view.cursor_visible;
      cursor_style = r.cursor_style;
      alternate_screen = view.alternate;
      grid = grid;
    }

-- The members after a frame.
unfoldable pub remember : Renderer → ScreenView → PackedFrame → ℕ → FrameMetrics → Renderer
remember r view frame age metrics = record {
  packed_grid_cache = frame.grid;
  pending_content_scroll_delta = pos 0;
  pending_viewport_scroll_delta = pos 0;
  cursor_style = r.cursor_style;
  packed_frame_valid = not (age == 0);
  packed_last_draw_age = age;
  packed_last_columns = view.width;
  packed_last_rows = view.height;
  packed_last_alternate_screen = view.alternate;
  packed_last_cursor_x = view.cursor_x;
  packed_last_cursor_y = view.cursor_y;
  packed_last_cursor_visible = view.cursor_visible;
  packed_last_cursor_style = r.cursor_style;
  packed_generation = frame.generation;
  output_waiting_for_render = false;
  metrics = metrics;
}

unfoldable pub take_packed_frame : (ℕ → List ℕ) → ℕ → Renderer → ScreenView → PackedFrame × Renderer
unfolding drawn_context tracked make_frame remember final_repaint final_dirty repaints since
    count_frame
take_packed_frame encode latency r view =
    let context = drawn_context encode r view in
    let (dirty, spans) = tracked encode r view in
    let age = (view.drawn (since r view)).1 in
    let frame =
      make_frame r view (final_repaint (repaints r view) age view dirty)
        (final_dirty (repaints r view) age view dirty) spans
        (rebuild_packed_rows context.grid context.changed_cells context.changed_text) in
    (frame, remember r view frame age (count_frame r view latency context.decoded_cells))
