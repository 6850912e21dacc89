-- ===== src/Scroll.antt =====
-- The detection of full-screen scrolling in src/terminal_core.cpp: `DetectFullScreenShift`,
-- `ObserveScreenScroll` and `ResetScreenObservation`, for a screen that is not null. What it
-- reads of the screen is libtsm's: the height, and the identifier of the line in each row.
pub mod Shift
pub mod Observe
use sakura_wx_prototype.Prelude.{
  ℕ, zero, suc, ◌+◌, ◌-◌, Bool, true, false, not, ◌&&◌, ◌||◌, List, [], ◌∷◌, ltb, ◌==◌,
  if◌then◌else◌, length, get_or,
}
use sakura_wx_prototype.Prelude.Int.{ℤ, pos, negsuc, ◌+ℤ◌}

module _ (previous_lines : List ℕ) (height : ℕ) (row_id : ℕ → ℕ) where
  -- `count` rounds of the loop over the rows, from `row` on, which stops early when neither
  -- direction is left.
  unfoldable pub compare_rows : ℕ → ℕ → ℕ → Bool → Bool → Bool × Bool
  compare_rows zero row delta moved_up moved_down = (moved_up, moved_down)
  compare_rows (suc count) row delta moved_up moved_down =
      let up = moved_up && (row_id row == get_or previous_lines (row + delta) 0) in
      let down = moved_down && (row_id (row + delta) == get_or previous_lines row 0) in
      let rest = compare_rows count (row + 1) delta up down in
      if not up && not down then (up, down) else rest

  -- `count` rounds of the loop over the distances, from `delta` on.
  unfoldable pub try_deltas : ℕ → ℕ → ℤ
  try_deltas zero delta = pos 0
  try_deltas (suc count) delta =
      let moved = compare_rows (height - delta) 0 delta true true in
      let rest = try_deltas count (delta + 1) in
      if moved.0 then pos delta else if moved.1 then negsuc (delta - 1) else rest

  unfoldable pub detect_full_screen_shift : ℤ
  detect_full_screen_shift =
      if not (length previous_lines == height) || ltb height 2
      then pos 0
      else try_deltas (height - 1) 1

-- What `ObserveScreenScroll` reads of the screen.
pub record LineView : Type 0 where
  pub height : ℕ
  pub row_id : ℕ → ℕ
  pub alternate : Bool
  pub line_pos : ℕ
  pub line_count : ℕ

-- The members that follow the screen's lines.
pub record Observation : Type 0 where
  pub observed_lines : List ℕ
  pub observed_alternate_screen : Bool
  pub pending_content_scroll_delta : ℤ

-- `count` rounds of the loop over the rows, from `row` on.
unfoldable pub lines_from : (ℕ → ℕ) → ℕ → ℕ → List ℕ
lines_from row_id zero row = []
lines_from row_id (suc count) row = row_id row ∷ lines_from row_id count (row + 1)

unfoldable pub reset_observation : LineView → Observation → Observation
unfolding lines_from
reset_observation view o = record o {
  observed_lines = lines_from view.row_id view.height 0;
  observed_alternate_screen = view.alternate;
}

abbrev pub same_screen : Bool → Bool → Bool
same_screen a b = if a then b else not b

-- The guard of the detection: the same screen as before, and not scrolled back.
abbrev pub is_comparable : LineView → Bool → Bool
is_comparable view previous_alternate =
    same_screen previous_alternate view.alternate && not (ltb view.line_pos view.line_count)

unfoldable pub observe_screen_scroll : LineView → List ℕ → Bool → Observation → Observation
unfolding reset_observation
observe_screen_scroll view previous_lines previous_alternate o =
    let delta = detect_full_screen_shift previous_lines view.height view.row_id in
    reset_observation view (
      if is_comparable view previous_alternate
      then record o { pending_content_scroll_delta = o.pending_content_scroll_delta +ℤ delta }
      else o)
