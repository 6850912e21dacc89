-- ===== src/Control/Wheel.antt =====
-- The wheel of src/wx/terminal_ctrl.cpp: `QueueWheelScroll` and `FlushWheelScroll`. The numbers are
-- `int`s that do not overflow. What the renderer answers, its rows and whether a scroll is shown in
-- steps, are arguments.
pub mod Split
pub mod Drain
use sakura_wx_prototype.Prelude.{
  ℕ, zero, suc, ◌+◌, ◌-◌, min, max, Bool, true, false, ◌&&◌, ◌||◌, List, [], ◌∷◌, ltb, ◌==◌,
  if◌then◌else◌,
}
use sakura_wx_prototype.Prelude.Int.{
  ℤ, pos, pos_part, ◌+ℤ◌, ◌-ℤ◌, magnitude, neg_ℕ, scale, quotient, clamp,
}
use sakura_wx_prototype.Prelude.Word.{u64}

pub record WheelEvent : Type 0 where
  pub rotation : ℤ
  pub wheel_delta : ℤ
  pub lines_per_action : ℤ
  pub is_page_scroll : Bool

-- The members that the functions use.
pub record Wheel : Type 0 where
  pub wheel_rotation : ℤ
  pub pending_wheel_lines : ℤ
  pub wheel_events : ℕ
  pub wheel_partial_events : ℕ
  pub wheel_scroll_updates : ℕ
  pub wheel_lines_scrolled : ℕ

abbrev pub is_nothing : ℤ → Bool
is_nothing n = magnitude n == 0

abbrev pub normalized_rotation : WheelEvent → ℤ
unfolding scale quotient
normalized_rotation e = quotient (scale e.rotation 120) (max 1 (pos_part e.wheel_delta))

-- A page less a line, and one line at least.
abbrev pub page_lines : ℕ → ℕ
page_lines rows = max 1 (if ltb 1 rows then rows - 1 else 1)

abbrev pub action_lines : ℕ → WheelEvent → ℕ
action_lines rows e =
    if e.is_page_scroll then page_lines rows else max 1 (pos_part e.lines_per_action)

abbrev pub max_pending_wheel_lines : ℕ
max_pending_wheel_lines = 64

unfoldable pub apply_rotation : ℕ → WheelEvent → ℤ → Wheel → Wheel
unfolding quotient scale clamp
apply_rotation rows e total w =
    let actions = quotient total 120 in
    let events = u64 (w.wheel_events + 1) in
    if is_nothing actions
    then record w {
      wheel_rotation = total;
      wheel_events = events;
      wheel_partial_events = u64 (w.wheel_partial_events + 1);
    }
    else record w {
      wheel_rotation = total -ℤ scale actions 120;
      pending_wheel_lines =
          clamp max_pending_wheel_lines
            (w.pending_wheel_lines +ℤ scale actions (action_lines rows e));
      wheel_events = events;
    }

unfoldable pub queue_wheel_scroll : ℕ → WheelEvent → Wheel → Wheel
unfolding apply_rotation
queue_wheel_scroll rows e w =
    if is_nothing e.rotation
    then w
    else apply_rotation rows e (w.wheel_rotation +ℤ normalized_rotation e) w

-- The lines that a flush scrolls: with the sign of the pending lines.
abbrev pub signed_lines : ℤ → ℕ → ℤ
signed_lines pending m = if ltb 0 (pos_part pending) then pos m else neg_ℕ m

-- The lines that go to `sakura_terminal_scroll_lines`, and the wheel after them.
unfoldable pub flush_wheel_scroll : Bool → Bool → ℕ → Wheel → Bool × ℤ × Wheel
flush_wheel_scroll smooth animating rows w =
    if is_nothing w.pending_wheel_lines || (smooth && animating)
    then (false, pos 0, w)
    else (let max_lines = if smooth then page_lines rows else 1 in
        let magnitude = min (magnitude w.pending_wheel_lines) max_lines in
        let lines = signed_lines w.pending_wheel_lines magnitude in
        (
          true,
          lines,
          record w {
            pending_wheel_lines = w.pending_wheel_lines -ℤ lines;
            wheel_scroll_updates = u64 (w.wheel_scroll_updates + 1);
            wheel_lines_scrolled = u64 (w.wheel_lines_scrolled + magnitude);
          },
        ))
