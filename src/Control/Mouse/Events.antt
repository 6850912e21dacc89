-- ===== src/Control/Mouse/Events.antt =====
-- Mouse events in sequence, for the handlers of src/wx/terminal_ctrl.cpp.
use sakura_wx_prototype.Prelude.{List, [], ◌∷◌, ◌++◌}
use sakura_wx_prototype.Control.Cells.{View}
use sakura_wx_prototype.Control.Mouse.{
  Pointer, MouseEvent, Answers, Call, on_left_down, on_left_up, on_mouse_button_down,
  on_mouse_button_up, on_motion,
}

-- An event for one of the handlers.
pub data Input : Type 0 where
  left_down left_up button_down button_up motion : MouseEvent → Input

unfoldable pub handle : View → Answers → Input → Pointer → Pointer × List Call
unfolding on_left_down on_left_up on_mouse_button_down on_mouse_button_up on_motion
handle view core (left_down e) p = on_left_down view core e p
handle view core (left_up e) p = on_left_up view core e p
handle view core (button_down e) p = on_mouse_button_down view core e p
handle view core (button_up e) p = on_mouse_button_up view core e p
handle view core (motion e) p = on_motion view core e p

-- The pointer after the events, each with what is answered to it, and the calls in order.
unfoldable pub handle_all : View → List (Answers × Input) → Pointer → Pointer × List Call
unfolding handle
handle_all view [] p = (p, [])
handle_all view (event ∷ events) p =
    let now = handle view event.0 event.1 p in
    let later = handle_all view events now.0 in (later.0, now.1 ++ later.1)
