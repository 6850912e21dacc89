-- ===== src/Control/Wheel/Split.antt =====
-- What an event does to the wheel of src/wx/terminal_ctrl.cpp.
use sakura_wx_prototype.Prelude.{ℕ, ◌+◌, ◌*◌, ◌≤◌, ◌<◌, ◌≡◌}
use sakura_wx_prototype.Prelude.Int.{ℤ, pos_part, neg_part, ◌+ℤ◌, magnitude, scale, quotient, clamp}
use sakura_wx_prototype.Control.Wheel.{WheelEvent, Wheel, action_lines}

-- The rotation that is kept is less than an action, and at most 64 lines wait.
abbrev pub IsBounded : Wheel → Type 0
IsBounded w = (magnitude w.wheel_rotation < 120) × (magnitude w.pending_wheel_lines ≤ 64)

-- The wheel after a rotation adds up to `total`: whole actions of 120 go, as lines, to the pending
-- lines, which stop at 64, and the remainder stays, with the sign of the total.
pub record IsSplit (rows : ℕ) (e : WheelEvent) (total : ℤ) (w after : Wheel) : Type 0 where
  pub up : pos_part after.wheel_rotation + 120 * pos_part (quotient total 120) ≡ pos_part total
  pub down : neg_part after.wheel_rotation + 120 * neg_part (quotient total 120) ≡ neg_part total
  pub bounded : magnitude after.wheel_rotation < 120
  pub lines :
      after.pending_wheel_lines
      ≡ clamp 64 (w.pending_wheel_lines +ℤ scale (quotient total 120) (action_lines rows e))
