-- ===== src/Tests/Motion.antt =====
-- The theorems on durations and scrolls of src/wx/terminal_renderer.cpp at concrete inputs, and runs of
-- the models.
use sakura_wx_prototype.Prelude.{
  ℕ, ◌+◌, ◌-◌, ◌*◌, ◌≤◌, ◌<◌, ◌≡◌, refl, true, false, inl, some, [], ◌∷◌, min, max, arith,
  replicate, take,
}
use sakura_wx_prototype.Prelude.Int.{pos, negsuc, pos_part}
use sakura_wx_prototype.Dirty.{no_dirty}
use sakura_wx_prototype.CursorStyle.{block}
use sakura_wx_prototype.Take.{viewport_scroll}
use sakura_wx_prototype.Frame.Info.{FrameInfo}
use sakura_wx_prototype.Paint.Durations.{PaintTimes, sort, record_paint_duration}
use sakura_wx_prototype.Paint.Durations.Window.{IsWindow, record_paint_duration-IsWindow}
use sakura_wx_prototype.Paint.Durations.Ranks.{IsPercentile, record_paint_duration-IsPercentile}
use sakura_wx_prototype.Paint.Animation.{
  ScrollConfig, Animation, advance_scroll_animation, draw_scroll_animation,
}
use sakura_wx_prototype.Paint.Animation.Seamless.{IsWindowOf, draw_scroll_animation-seamless}
use sakura_wx_prototype.Paint.Animation.Steps.{
  begin, advance, IsShown, RoundsWithin, animate, animate-IsShown,
}

abbrev no_paints : PaintTimes
no_paints = record {
  paint_time_us = 0;
  max_paint_time_us = 0;
  samples = replicate 256 0;
  sample_cursor = 0;
  sample_count = 0;
  p50 = 0;
  p95 = 0;
  p99 = 0;
}

no_paints-IsWindow : IsWindow [] no_paints
no_paints-IsWindow = record {
  size = refl;
  cursor = refl;
  filled = refl;
  kept = λ j inside recent. absurd (omega arith);
}

record_paint_duration-IsWindow_example : IsWindow (70 ∷ []) (record_paint_duration 70 no_paints)
record_paint_duration-IsWindow_example =
    record_paint_duration-IsWindow [] no_paints 70 no_paints-IsWindow

abbrev two_paints : PaintTimes
two_paints = record no_paints {
  paint_time_us = 80;
  max_paint_time_us = 70;
  samples = 70 ∷ 10 ∷ replicate 254 0;
  sample_cursor = 2;
  sample_count = 2;
}

record_paint_duration-IsPercentile_example :
    let after = record_paint_duration 40 two_paints in
    let held = take after.sample_count after.samples in
    IsPercentile 50 100 held after.p50
    × IsPercentile 95 100 held after.p95
    × IsPercentile 99 100 held after.p99
record_paint_duration-IsPercentile_example = record_paint_duration-IsPercentile 40 two_paints refl

median : (record_paint_duration 40 two_paints).p50 ≡ 40
unfolding record_paint_duration sort
median = refl

abbrev scroll_config : ScrollConfig
scroll_config = record {
  smooth_scrolling = true;
  scroll_animation_ms_per_line = 80;
  scroll_animation_max_ms = 240;
}

abbrev at_rest : Animation ℕ
at_rest = record {
  active = false;
  source = some (λ y. y);
  distance_px = 0;
  progress_px = 0;
  direction = pos 0;
  started = 0;
  duration_ms = 0;
  starts = 0;
  frames = 0;
  completions = 0;
  settles = 0;
}

abbrev scrolled_info : FrameInfo
scrolled_info = record {
  generation = 4;
  changed = true;
  full_repaint = true;
  scroll_delta = negsuc 1;
  scroll_kind = viewport_scroll;
  columns = 80;
  rows = 24;
  cursor_x = 0;
  cursor_y = 0;
  cursor_visible = true;
  cursor_style = block;
  alternate_screen = false;
  dirty = no_dirty;
}

abbrev rounded_down : ℕ → ℕ → ℕ → ℕ
rounded_down elapsed whole n = min n (elapsed * n)

rounded_down-RoundsWithin : RoundsWithin rounded_down
rounded_down-RoundsWithin elapsed whole n h = omega arith

-- A scroll by two lines is shown, goes on, and has ended after 160 milliseconds.
animate-IsShown_example :
    let last =
      animate scroll_config rounded_down
        (begin 16 1000 true scrolled_info (some (λ y. y)) ∷ advance 90000 ∷ [])
        at_rest in
    IsShown scroll_config last
    × (last.started + max 1 last.duration_ms * 1000 ≤ 161000
        → (advance_scroll_animation rounded_down 161000 last).1.active ≡ false)
animate-IsShown_example =
    animate-IsShown scroll_config rounded_down
      (begin 16 1000 true scrolled_info (some (λ y. y)) ∷ advance 90000 ∷ []) at_rest 161000
      rounded_down-RoundsWithin (inl (refl, refl))

-- A scroll by two rows of 16 pixels, half done.
abbrev half_done : Animation ℕ
half_done = record at_rest {
  active = true;
  distance_px = 32;
  progress_px = 16;
  direction = pos 1;
  duration_ms = 160;
}

draw_scroll_animation-seamless_example :
    (0 < pos_part half_done.direction
      → IsWindowOf (λ y. y) 0 384 (λ y. y)
      → IsWindowOf (λ y. y) half_done.distance_px 384 (λ y. y + 32)
      → draw_scroll_animation 999 (λ y. y + 32) (λ y. y) 400 384 half_done 380
        ≡ 380 + half_done.progress_px)
    × (pos_part half_done.direction ≡ 0
        → IsWindowOf (λ y. y) half_done.distance_px 384 (λ y. y)
        → IsWindowOf (λ y. y) 0 384 (λ y. y + 32)
        → draw_scroll_animation 999 (λ y. y + 32) (λ y. y) 400 384 half_done 380
          ≡ 380 + (half_done.distance_px - half_done.progress_px))
draw_scroll_animation-seamless_example =
    draw_scroll_animation-seamless 999 (λ y. y) (λ y. y + 32) (λ y. y) 400 384 380 half_done
      (omega arith) (omega arith) (omega arith) (omega arith)
