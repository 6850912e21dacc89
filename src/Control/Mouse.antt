-- ===== src/Control/Mouse.antt =====
-- The mouse handlers of src/wx/terminal_ctrl.cpp: `ForwardMouse`, `BeginMouseReporting`,
-- `EndMouseReporting`, `OnLeftDown`, `OnLeftUp`, `OnMouseButtonDown`, `OnMouseButtonUp`,
-- `UpdateSelectionAt` and `OnMotion`. What a handler calls is a list, in order; what the core and the
-- window answer is an argument. Times are in microseconds.
pub mod Events
pub mod Orderly
pub mod Drag
pub mod Applied
use sakura_wx_prototype.Prelude.{
  ℕ, ◌+◌, ◌-◌, ◌%◌, Bool, true, false, not, ◌&&◌, ◌||◌, List, [], ◌∷◌, ◌++◌, leb, ltb, ◌==◌,
  if◌then◌else◌,
}
use sakura_wx_prototype.Prelude.Int.{ℤ, pos, negsuc, pos_part, neg_part, ◌-ℤ◌, magnitude}
use sakura_wx_prototype.Control.Cells.{View, column_at, row_at, mouse_modifiers}

-- The members that the handlers use.
pub record Pointer : Type 0 where
  pub selection_dragging : Bool
  pub pointer_down : Bool
  pub mouse_reporting_gesture : Bool
  pub mouse_reporting_button : ℕ
  pub click_count : ℕ
  pub down_x : ℤ
  pub down_y : ℤ
  pub anchor_column : ℕ
  pub anchor_row : ℕ
  pub last_click_column : ℕ
  pub last_click_row : ℕ
  pub last_click_time : ℕ
  pub last_x : ℤ
  pub last_y : ℤ
  pub auto_scroll_direction : ℤ

pub record MouseEvent : Type 0 where
  pub x : ℤ
  pub y : ℤ
  pub shift_down : Bool
  pub meta_down : Bool
  pub control_down : Bool
  pub dragging : Bool
  pub right_down : Bool
  pub clicks : ℤ
  pub time : ℕ

-- What the core and the window answer: whether the application wants the mouse and takes the event,
-- whether there is a selection, and whether the window has the mouse.
pub record Answers : Type 0 where
  pub reporting_enabled : Bool
  pub handles : Bool
  pub has_selection : Bool
  pub has_capture : Bool

pub data Call : Type 0 where
  cancel_animation set_focus capture_mouse release_mouse clear_selection copy_selection
        request_refresh :
      Call
  report : ℕ → ℕ → ℕ → ℕ → ℕ → ℕ → ℕ → Call
  start_selection update_selection select_word : ℕ → ℕ → Call
  select_line : ℕ → Call
  scroll_lines : ℤ → Call

abbrev pub pressed : ℕ
pressed = 1

abbrev pub released : ℕ
released = 2

abbrev pub moved : ℕ
moved = 4

-- `sakura_terminal_handle_mouse` with the cell, the pixel, the button, the event and the modifiers.
abbrev pub report_call : View → MouseEvent → ℕ → ℕ → Call
report_call view e button event =
    report (column_at view e.x) (row_at view e.y) (pos_part e.x) (pos_part e.y) button event
      (mouse_modifiers e.shift_down e.meta_down e.control_down)

-- Whether the core took the event, and the calls.
unfoldable pub forward_mouse : View → Answers → MouseEvent → ℕ → ℕ → Bool × List Call
forward_mouse view core e button event =
    if e.shift_down || not core.reporting_enabled
    then (false, [])
    else (core.handles, report_call view e button event ∷ [])

abbrev pub begin_mouse_reporting : ℕ → Pointer → Pointer
begin_mouse_reporting button p = record p {
  mouse_reporting_gesture = true;
  mouse_reporting_button = button;
}

abbrev pub release_if : Answers → List Call
release_if core = if core.has_capture then release_mouse ∷ [] else []

unfoldable pub end_mouse_reporting : View → Answers → MouseEvent → Pointer → Pointer × List Call
end_mouse_reporting view core e p = if not p.mouse_reporting_gesture then (p, []) else (
  record p { mouse_reporting_gesture = false },
  report_call view e p.mouse_reporting_button released ∷ release_if core,
)

abbrev pub next_click : View → MouseEvent → Pointer → ℕ
next_click view e p =
    let same_cell =
      (column_at view e.x == p.last_click_column) && (row_at view e.y == p.last_click_row) in
    let quick_click = ltb (e.time - p.last_click_time) 500000 in
    if leb 2 (pos_part e.clicks) || (same_cell && quick_click) then p.click_count % 3 + 1 else 1

abbrev pub click_selection : ℕ → ℕ → ℕ → List Call
click_selection clicks column row =
    if clicks == 2
    then select_word column row ∷ []
    else if clicks == 3
    then select_line row ∷ []
    else []

-- A press that the core does not take.
unfoldable pub start_click : View → Answers → MouseEvent → Pointer → Pointer × List Call
start_click view core e p =
    let column = column_at view e.x in
    let row = row_at view e.y in
    let clicks = next_click view e p in
    let extend = e.shift_down && core.has_selection in
    let selection =
      if extend
      then update_selection column row ∷ []
      else clear_selection ∷ click_selection clicks column row in
    (
      record p {
        click_count = clicks;
        last_click_time = e.time;
        last_click_column = column;
        last_click_row = row;
        pointer_down = true;
        selection_dragging = extend;
        down_x = e.x;
        down_y = e.y;
        anchor_column = column;
        anchor_row = row;
      },
      selection ++ capture_mouse ∷ request_refresh ∷ [],
    )

unfoldable pub on_left_down : View → Answers → MouseEvent → Pointer → Pointer × List Call
unfolding forward_mouse start_click
on_left_down view core e p =
    let forwarded = forward_mouse view core e 0 pressed in
    let click = start_click view core e p in
    if forwarded.0
    then (
      begin_mouse_reporting 0 p,
      cancel_animation ∷ set_focus ∷ (forwarded.1 ++ capture_mouse ∷ []),
    )
    else (click.0, cancel_animation ∷ set_focus ∷ (forwarded.1 ++ click.1))

-- A release of a pointer that is down.
unfoldable pub finish_click : View → Answers → MouseEvent → Pointer → Pointer × List Call
finish_click view core e p =
    let update =
      if p.selection_dragging
      then update_selection (column_at view e.x) (row_at view e.y) ∷ []
      else [] in
    let copy = if p.selection_dragging || leb 2 p.click_count then copy_selection ∷ [] else [] in
    (
      record p { selection_dragging = false; pointer_down = false; auto_scroll_direction = pos 0 },
      update ++ (release_if core ++ (copy ++ request_refresh ∷ [])),
    )

unfoldable pub on_left_up : View → Answers → MouseEvent → Pointer → Pointer × List Call
unfolding end_mouse_reporting finish_click
on_left_up view core e p =
    if p.mouse_reporting_gesture
    then end_mouse_reporting view core e p
    else if not p.pointer_down
    then (p, [])
    else finish_click view core e p

unfoldable pub on_mouse_button_down : View → Answers → MouseEvent → Pointer → Pointer × List Call
unfolding forward_mouse
on_mouse_button_down view core e p =
    let button = if e.right_down then 2 else 1 in
    let forwarded = forward_mouse view core e button pressed in
    if forwarded.0
    then (begin_mouse_reporting button p, forwarded.1 ++ capture_mouse ∷ [])
    else (p, forwarded.1)

unfoldable pub on_mouse_button_up : View → Answers → MouseEvent → Pointer → Pointer × List Call
unfolding end_mouse_reporting
on_mouse_button_up view core e p =
    if p.mouse_reporting_gesture then end_mouse_reporting view core e p else (p, [])

-- Above the window the selection scrolls one way, below it the other.
abbrev pub auto_scroll : View → ℤ → ℤ
auto_scroll view y =
    if ltb 0 (neg_part y)
    then negsuc 0
    else if leb view.client_height (pos_part y)
    then pos 1
    else pos 0

abbrev pub auto_scroll_call : ℤ → List Call
auto_scroll_call direction =
    if magnitude direction == 0
    then []
    else scroll_lines (if ltb 0 (neg_part direction) then pos 1 else negsuc 0) ∷ []

unfoldable pub update_selection_at : View → MouseEvent → Pointer → Pointer × List Call
update_selection_at view e p =
    let direction = auto_scroll view e.y in
    (
      record p { auto_scroll_direction = direction },
      cancel_animation
          ∷ (auto_scroll_call direction
              ++ update_selection (column_at view e.x) (row_at view e.y) ∷ []),
    )

abbrev pub is_far : MouseEvent → Pointer → Bool
unfolding ◌-ℤ◌
is_far e p = leb 4 (magnitude (e.x -ℤ p.down_x)) || leb 4 (magnitude (e.y -ℤ p.down_y))

-- A movement with the pointer down.
unfoldable pub drag : View → MouseEvent → Pointer → Pointer × List Call
unfolding update_selection_at is_far
drag view e p =
    let begins = not p.selection_dragging && is_far e p in
    let start = if begins then start_selection p.anchor_column p.anchor_row ∷ [] else [] in
    let updated =
      update_selection_at view e
        (record p { selection_dragging = true; last_x = e.x; last_y = e.y }) in
    if not (p.selection_dragging || begins)
    then (p, [])
    else (updated.0, start ++ (updated.1 ++ request_refresh ∷ []))

unfoldable pub on_motion : View → Answers → MouseEvent → Pointer → Pointer × List Call
unfolding drag
on_motion view core e p =
    let reports = not e.shift_down && core.reporting_enabled in
    if p.mouse_reporting_gesture
    then (
      p,
      if e.dragging then report_call view e (32 + p.mouse_reporting_button) moved ∷ [] else [],
    )
    else if not p.pointer_down || not e.dragging
    then (p, if reports then report_call view e 0 moved ∷ [] else [])
    else drag view e p
