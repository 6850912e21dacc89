-- ===== src/Control/Refresh.antt =====
-- The frame that waits to be painted in src/wx/terminal_ctrl.cpp: `RequestFrameRefresh`, which takes a
-- frame and merges it with the one that waits, and the part of `OnPaint` that chooses what to paint.
pub mod Merge
use sakura_wx_prototype.Prelude.{
  ℕ, ◌+◌, ◌-◌, ◌*◌, min, max, Bool, true, false, not, ◌&&◌, ◌||◌, Option, none, some, leb, ltb,
  if◌then◌else◌,
}
use sakura_wx_prototype.Prelude.Int.{ℤ, ◌+ℤ◌}
use sakura_wx_prototype.Prelude.Word.{u64}
use sakura_wx_prototype.Dirty.{DirtyRegion, dirty_empty}
use sakura_wx_prototype.Take.{
  ScrollKind, no_scroll, content_scroll, viewport_scroll, mixed_scroll, PackedFrame,
}
use sakura_wx_prototype.Frame.Info.{FrameInfo, info_of, frame_info, whole_region}

-- `pending_frame_`, `pending_info_`, `pending_dirty_` and `pending_full_repaint_`.
pub record PendingFrame : Type 0 where
  pub frame : PackedFrame
  pub info : FrameInfo
  pub dirty : DirtyRegion
  pub full_repaint : Bool

abbrev pub same_kind : ScrollKind → ScrollKind → Bool
same_kind no_scroll no_scroll = true
same_kind content_scroll content_scroll = true
same_kind viewport_scroll viewport_scroll = true
same_kind mixed_scroll mixed_scroll = true
same_kind _ _ = false

abbrev pub merge_kind : ScrollKind → ScrollKind → ScrollKind
merge_kind pending kind =
    if not (same_kind pending no_scroll)
      && not (same_kind kind no_scroll)
      && not (same_kind pending kind)
    then mixed_scroll
    else if same_kind kind no_scroll
    then pending
    else kind

abbrev pub union_region : DirtyRegion → DirtyRegion → DirtyRegion
union_region a b = record {
  left = min a.left b.left;
  top = min a.top b.top;
  right = max a.right b.right;
  bottom = max a.bottom b.bottom;
}

unfoldable pub merge_dirty : PendingFrame → FrameInfo → DirtyRegion → DirtyRegion
unfolding dirty_empty
merge_dirty pending info dirty =
    if pending.full_repaint
    then whole_region info
    else if not (dirty_empty dirty) && not (dirty_empty pending.dirty)
    then union_region dirty pending.dirty
    else dirty

abbrev pub wait_for : PackedFrame → FrameInfo → ℤ → ScrollKind → Bool → DirtyRegion → PendingFrame
wait_for frame info delta kind full dirty = record {
  frame = frame;
  info = record info {
    scroll_delta = delta;
    scroll_kind = kind;
    full_repaint = full;
    dirty = dirty;
  };
  dirty = dirty;
  full_repaint = full;
}

abbrev pub own_dirty : FrameInfo → DirtyRegion
own_dirty info = if info.full_repaint then whole_region info else info.dirty

unfoldable pub merge_frame : Option PendingFrame → PackedFrame → FrameInfo → PendingFrame
unfolding merge_dirty
merge_frame none frame info =
    wait_for frame info info.scroll_delta info.scroll_kind info.full_repaint (own_dirty info)
merge_frame (some pending) frame info =
    wait_for frame info (info.scroll_delta +ℤ pending.info.scroll_delta)
      (merge_kind pending.info.scroll_kind info.scroll_kind)
      (info.full_repaint || pending.full_repaint) (merge_dirty pending info (own_dirty info))

-- What is asked of the window: nothing, all of it, or a rectangle, in pixels.
pub data RefreshRequest : Type 0 where
  keep_window whole_window : RefreshRequest
  window_part : ℕ → ℕ → ℕ → ℕ → RefreshRequest

-- The region that the window repaints, of cells of this width and height.
unfoldable pub refresh_request : ℕ → ℕ → PendingFrame → RefreshRequest
unfolding dirty_empty
refresh_request cell_width cell_height pending =
    let left = min pending.info.dirty.left pending.info.columns in
    let top = min pending.info.dirty.top pending.info.rows in
    let right = min pending.info.dirty.right pending.info.columns in
    let bottom = min pending.info.dirty.bottom pending.info.rows in
    if pending.info.full_repaint || dirty_empty pending.info.dirty
    then whole_window
    else if leb right left || leb bottom top
    then whole_window
    else window_part (left * cell_width) (top * cell_height) ((right - left) * cell_width)
        ((bottom - top) * cell_height)

unfoldable pub refresh_with :
    ℕ
    → ℕ
    → Option PackedFrame
    → Option FrameInfo
    → Option PendingFrame
    → Option PendingFrame × RefreshRequest
unfolding merge_frame refresh_request
refresh_with cell_width cell_height (some frame) (some info) pending =
    let merged = merge_frame pending frame info in
    if not info.changed
    then (pending, keep_window)
    else (some merged, refresh_request cell_width cell_height merged)
refresh_with cell_width cell_height _ _ pending = (pending, keep_window)

-- `RequestFrameRefresh`: the frame that `sakura_terminal_take_frame` gave, and the one that waits.
unfoldable pub request_frame_refresh :
    ℕ → ℕ → Option PackedFrame → Option PendingFrame → Option PendingFrame × RefreshRequest
unfolding refresh_with
request_frame_refresh cell_width cell_height frame pending =
    refresh_with cell_width cell_height frame (frame_info frame) pending

-- What `OnPaint` hands to the renderer: the frame that waits, or else one that it takes; nothing if
-- there is none or it has not changed.
pub record Painting : Type 0 where
  pub frame : PackedFrame
  pub info : FrameInfo
  pub dirty : DirtyRegion
  pub full_repaint : Bool

abbrev pub painting_of : PackedFrame → FrameInfo → DirtyRegion → Bool → Option Painting
painting_of frame info dirty full =
    if info.changed
    then some (record { frame = frame; info = info; dirty = dirty; full_repaint = full })
    else none

unfoldable pub painting : Option PendingFrame → Option PackedFrame → Option Painting
painting (some pending) taken =
    painting_of pending.frame pending.info pending.dirty pending.full_repaint
painting none none = none
painting none (some frame) =
    let info = info_of frame in painting_of frame info info.dirty info.full_repaint
