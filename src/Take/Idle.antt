-- ===== src/Take/Idle.antt =====
-- `TakePackedFrame` of src/terminal_core.cpp on a screen that has not changed.
use sakura_wx_prototype.Prelude.{ℕ, ◌≡◌, refl, Bool, true, false, List, [], arith, ◌==◌}
use sakura_wx_prototype.Dirty.{no_dirty, dirty_empty}
use sakura_wx_prototype.CursorStyle.{Shape, block, underline, bar, same_shape}
use sakura_wx_prototype.Draw.{draw_cells}
use sakura_wx_prototype.Take.{
  ScreenView, Renderer, PackedFrame, FrameMetrics, same_flag, must_repaint, can_reuse, repaints,
  cursor_moved, draw_context, since, with_cursors, with_scroll, final_dirty, final_repaint,
  drawn_context, tracked, make_frame, remember, take_packed_frame,
}

module _ (r : Renderer) (view : ScreenView) (frame : PackedFrame) (age : ℕ) (metrics : FrameMetrics)
    (painted : (age == 0) ≡ false) where
  abbrev after : Renderer
  unfolding remember
  after = remember r view frame age metrics

  eq_same : (n : ℕ) → (n == n) ≡ true
  eq_same n = ground arith

  flag_same : (a : Bool) → same_flag a a ≡ true
  flag_same true = refl
  flag_same false = refl

  shape_same : (s : Shape) → same_shape s s ≡ true
  shape_same block = refl
  shape_same underline = refl
  shape_same bar = refl

  after-repaint : must_repaint after view ≡ false
  unfolding must_repaint remember
  after-repaint =
      rw (painted, eq_same view.width, eq_same view.height, flag_same view.alternate) refl

  after-reuse : can_reuse after view ≡ false
  unfolding can_reuse remember
  after-reuse = rw (can_reuse, after-repaint) refl

  after-repaints : repaints after view ≡ false
  unfolding repaints remember
  after-repaints = rw (repaints, after-repaint) refl

  after-cursor : cursor_moved after view ≡ false
  unfolding remember
  after-cursor =
      rw
        (
          painted,
          eq_same view.cursor_x,
          eq_same view.cursor_y,
          flag_same view.cursor_visible,
          shape_same r.cursor_style,
        )
        refl

  after-since : since after view ≡ age
  unfolding since remember
  after-since = rw (since, after-repaints) refl

  module _ (encode : ℕ → List ℕ) (idle : (view.drawn age).0 ≡ []) where
    after-drawn : drawn_context encode after view ≡ draw_context after view
    unfolding drawn_context draw_cells
    after-drawn = rw (drawn_context, after-since, idle) refl

    after-tracked : tracked encode after view ≡ (no_dirty, [])
    unfolding tracked with_scroll with_cursors draw_context
    after-tracked =
        rw (tracked, after-drawn, with_scroll, after-reuse, with_cursors, after-cursor) refl

    after-unchanged :
        (latency : ℕ)
        → ((view.drawn age).1 == 0) ≡ false
        → ((take_packed_frame encode latency after view).0.changed ≡ false)
          × ((take_packed_frame encode latency after view).0.dirty_spans ≡ [])
          × ((take_packed_frame encode latency after view).0.generation ≡ frame.generation)
    unfolding take_packed_frame make_frame final_repaint final_dirty dirty_empty remember
    after-unchanged latency still =
        rw (after-tracked, after-since, after-repaints, still) (refl, refl, refl)

-- The frame is not changed, has no spans, and keeps the generation of the one before.
abbrev pub IsUnchanged : PackedFrame → PackedFrame → Type 0
IsUnchanged before frame =
    (frame.changed ≡ false) × (frame.dirty_spans ≡ []) × (frame.generation ≡ before.generation)

-- A frame is followed by an unchanged one while nothing happens: if the screen could tell the age of
-- its first drawing and of the next, and draws nothing for the age that it told, then the second
-- frame of the same screen is not changed, has no spans, and keeps the generation of the first.
pub take_packed_frame-idle :
    (encode : ℕ → List ℕ) (latency later : ℕ) (r : Renderer) (view : ScreenView)
    → ((view.drawn (since r view)).1 == 0) ≡ false
    → (view.drawn (view.drawn (since r view)).1).0 ≡ []
    → ((view.drawn (view.drawn (since r view)).1).1 == 0) ≡ false
    → IsUnchanged
        (take_packed_frame encode latency r view).0
        (take_packed_frame encode later (take_packed_frame encode latency r view).1 view).0
unfolding take_packed_frame
take_packed_frame-idle encode latency later r view painted idle still =
    after-unchanged r view (take_packed_frame encode latency r view).0 (view.drawn (since r view)).1
      (take_packed_frame encode latency r view).1.metrics painted encode idle later still
