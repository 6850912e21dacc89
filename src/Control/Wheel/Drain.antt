-- ===== src/Control/Wheel/Drain.antt =====
-- How the pending lines of the wheel in src/wx/terminal_ctrl.cpp go to the screen.
use sakura_wx_prototype.Prelude.{
  ℕ, zero, suc, ◌+◌, ◌-◌, ◌≤◌, ◌≡◌, Bool, false, List, [], ◌∷◌, if◌then◌else◌,
}
use sakura_wx_prototype.Prelude.Int.{ℤ, pos_part, neg_part, magnitude}
use sakura_wx_prototype.Control.Wheel.{Wheel, page_lines, flush_wheel_scroll}

-- The lines of a number of flushes with no scroll being shown in steps, and the wheel after them.
unfoldable pub flush_times : ℕ → Bool → ℕ → Wheel → List ℤ × Wheel
unfolding flush_wheel_scroll
flush_times zero smooth rows w = ([], w)
flush_times (suc n) smooth rows w =
    let step = flush_wheel_scroll smooth false rows w in
    let rest = flush_times n smooth rows step.2 in (step.1 ∷ rest.0, rest.1)

abbrev pub total_up : List ℤ → ℕ
total_up [] = 0
total_up (n ∷ ns) = pos_part n + total_up ns

abbrev pub total_down : List ℤ → ℕ
total_down [] = 0
total_down (n ∷ ns) = neg_part n + total_down ns

abbrev pub line_limit : Bool → ℕ → ℕ
line_limit smooth rows = if smooth then page_lines rows else 1

-- What one flush does to the pending lines.
record IsFlushed (limit : ℕ) (lines : ℤ) (before after : ℤ) : Type 0 where
  up : pos_part lines + pos_part after ≡ pos_part before
  down : neg_part lines + neg_part after ≡ neg_part before
  progress : magnitude after ≤ magnitude before - 1
  few : magnitude lines ≤ limit
