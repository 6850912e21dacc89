-- ===== src/Paint/Animation.antt =====
-- The scroll shown in steps by src/wx/terminal_renderer.cpp: `BeginScrollAnimation`,
-- `AdvanceScrollAnimation`, `CancelScrollAnimation` and `DrawScrollAnimation`. A bitmap is its pixel
-- rows; times are in microseconds. How the floating-point quotient of the time that has passed and the
-- duration, times a distance, is rounded is an argument.
pub mod Steps
pub mod Seamless
use sakura_wx_prototype.Prelude.{
  ℕ, ◌+◌, ◌-◌, ◌*◌, min, max, Bool, true, false, not, ◌&&◌, ◌||◌, Option, none, some, leb, ltb,
  ◌==◌, if◌then◌else◌,
}
use sakura_wx_prototype.Prelude.Int.{ℤ, pos, negsuc, pos_part, magnitude}
use sakura_wx_prototype.Prelude.Word.{u64}
use sakura_wx_prototype.Take.{ScrollKind, viewport_scroll}
use sakura_wx_prototype.Frame.Info.{FrameInfo}

pub record ScrollConfig : Type 0 where
  pub smooth_scrolling : Bool
  pub scroll_animation_ms_per_line : ℕ
  pub scroll_animation_max_ms : ℕ

-- The members whose names begin with `scroll_animation_`, and their counters.
pub record Animation (A : Type 0) : Type 0 where
  pub active : Bool
  pub source : Option (ℕ → A)
  pub distance_px : ℕ
  pub progress_px : ℕ
  pub direction : ℤ
  pub started : ℕ
  pub duration_ms : ℕ
  pub starts : ℕ
  pub frames : ℕ
  pub completions : ℕ
  pub settles : ℕ

abbrev pub is_viewport : ScrollKind → Bool
is_viewport viewport_scroll = true
is_viewport _ = false

-- The duration for a number of lines.
abbrev pub animation_ms : ScrollConfig → ℕ → ℕ
animation_ms config lines =
    let requested = max 1 config.scroll_animation_ms_per_line * lines in
    let limit =
      if config.scroll_animation_max_ms == 0 then requested else config.scroll_animation_max_ms in
    max 1 (min requested limit)

abbrev pub direction_of : ℤ → ℤ
direction_of delta = if ltb 0 (pos_part delta) then pos 1 else negsuc 0

module _ {A : Type 0} where
  unfoldable pub cancel_scroll_animation : Bool → Animation A → Animation A
  cancel_scroll_animation forced a = if not a.active then a else record a {
    active = false;
    source = none;
    progress_px = a.distance_px;
    direction = pos 0;
    settles = if forced then u64 (a.settles + 1) else a.settles;
  }

  -- The rest of `BeginScrollAnimation`, once the framebuffer is copied.
  unfoldable pub start_animation :
      ScrollConfig → ℕ → ℕ → FrameInfo → Option (ℕ → A) → Animation A → Animation A
  start_animation config cell_height now info none a = record a { source = none }
  start_animation config cell_height now info (some copy) a =
      let lines = magnitude info.scroll_delta in
      if lines * cell_height == 0
      then record a { source = some copy; distance_px = 0 }
      else record a {
        active = true;
        source = some copy;
        distance_px = lines * cell_height;
        progress_px = 0;
        direction = direction_of info.scroll_delta;
        started = now;
        duration_ms = animation_ms config lines;
        starts = u64 (a.starts + 1);
      }

  -- `copy` is the copy of the framebuffer, if one can be made.
  unfoldable pub begin_scroll_animation :
      ScrollConfig → ℕ → ℕ → Bool → FrameInfo → Option (ℕ → A) → Animation A → Animation A
  unfolding cancel_scroll_animation start_animation
  begin_scroll_animation config cell_height now framebuffer_valid info copy a =
      if not config.smooth_scrolling
        || not framebuffer_valid
        || (magnitude info.scroll_delta == 0)
        || not (is_viewport info.scroll_kind)
      then a
      else start_animation config cell_height now info copy
          (if a.active then cancel_scroll_animation true a else a)

  unfoldable pub move_to : ℕ → Animation A → Animation A
  move_to progress a =
      if progress == a.progress_px
      then a
      else record a { progress_px = progress; frames = u64 (a.frames + 1) }

  unfoldable pub complete : Animation A → Animation A
  complete a = record a {
    active = false;
    source = none;
    direction = pos 0;
    completions = u64 (a.completions + 1);
  }

  -- Whether the window must be drawn again, and the state after the step. `rounded elapsed whole n` is
  -- `elapsed / whole * n`, rounded.
  unfoldable pub advance_scroll_animation : (ℕ → ℕ → ℕ → ℕ) → ℕ → Animation A → Bool × Animation A
  unfolding move_to complete
  advance_scroll_animation rounded now a =
      let whole = max 1 a.duration_ms * 1000 in
      let elapsed = min (now - a.started) whole in
      let progress = rounded elapsed whole a.distance_px in
      let moved = move_to progress a in
      if not a.active
      then (false, a)
      else if leb whole elapsed
      then (true, complete moved)
      else (not (progress == a.progress_px), moved)

  -- `DrawScrollAnimation` while a scroll is shown: what a pixel row of the window shows. A bitmap is
  -- drawn at an offset, within the rows of a clip.
  unfoldable pub draw_scroll_animation : A → (ℕ → A) → (ℕ → A) → ℕ → ℕ → Animation A → ℕ → A
  draw_scroll_animation background framebuffer source height grid_height a y =
      let progress = min a.progress_px (min a.distance_px grid_height) in
      let distance = a.distance_px in
      if ltb 0 (pos_part a.direction)
      then if ltb 0 progress
          && leb (grid_height - progress) y
          && ltb y grid_height
          && leb (distance - progress) y
        then framebuffer (y - (distance - progress))
        else if ltb y grid_height && ltb (y + progress) height
        then source (y + progress)
        else background
      else if ltb y progress && ltb (y + (distance - progress)) height
      then framebuffer (y + (distance - progress))
      else if ltb y grid_height && leb progress y
      then source (y - progress)
      else background
