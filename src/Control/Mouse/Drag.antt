-- ===== src/Control/Mouse/Drag.antt =====
-- A press, a movement and a release that select text, in src/wx/terminal_ctrl.cpp.
use sakura_wx_prototype.Prelude.{◌≡◌, refl, true, false, ◌||◌, List, [], ◌∷◌, ◌++◌, leb}
use sakura_wx_prototype.Prelude.Int.{pos, magnitude, ◌-ℤ◌}
use sakura_wx_prototype.Control.Cells.{View, column_at, row_at}
use sakura_wx_prototype.Control.Mouse.Events.{left_down, motion, left_up, handle, handle_all}
use sakura_wx_prototype.Control.Mouse.{
  Pointer, MouseEvent, Answers, Call, cancel_animation, set_focus, capture_mouse, clear_selection,
  copy_selection, request_refresh, start_selection, update_selection, release_if, next_click,
  click_selection, forward_mouse, start_click, on_left_down, finish_click, on_left_up, auto_scroll,
  auto_scroll_call, update_selection_at, is_far, drag, on_motion,
}

-- A press with nothing held that the application does not want, a movement that is 4 pixels or more
-- away, and a release.
abbrev pub IsDrag : Pointer → Answers → MouseEvent → MouseEvent → Type 0
IsDrag p core press move =
    (p.mouse_reporting_gesture ≡ false)
    × (press.shift_down ≡ false)
    × (core.reporting_enabled ≡ false)
    × (move.dragging ≡ true)
    × ((leb 4 (magnitude (move.x -ℤ press.x)) || leb 4 (magnitude (move.y -ℤ press.y))) ≡ true)

abbrev pub at_end : Pointer → Pointer
at_end p = record p {
  selection_dragging = false;
  pointer_down = false;
  auto_scroll_direction = pos 0;
}

release_drag :
    (view : View) (core : Answers) (release : MouseEvent) (p : Pointer)
    → p.mouse_reporting_gesture ≡ false
    → p.pointer_down ≡ true
    → p.selection_dragging ≡ true
    → on_left_up view core release p ≡ (
      at_end p,
      update_selection (column_at view release.x) (row_at view release.y)
          ∷ (release_if core ++ copy_selection ∷ request_refresh ∷ []),
    )
unfolding on_left_up finish_click
release_drag view core release p none down dragging = rw (none, down, dragging) refl

module _ (view : View) (core : Answers) (press move release : MouseEvent) (p : Pointer)
    (drags : IsDrag p core press move) where
  abbrev pub after_press : Pointer
  unfolding start_click
  after_press = (start_click view core press p).0

  press-calls : on_left_down view core press p ≡ (
    after_press,
    cancel_animation
        ∷ set_focus
        ∷ ((clear_selection
              ∷ click_selection
                  (next_click view press p)
                  (column_at view press.x)
                  (row_at view press.y))
            ++ capture_mouse ∷ request_refresh ∷ []),
  )
  unfolding on_left_down forward_mouse start_click
  press-calls = rw (drags.1, drags.2) refl

  abbrev pub after_move : Pointer
  after_move = record after_press {
    selection_dragging = true;
    last_x = move.x;
    last_y = move.y;
    auto_scroll_direction = auto_scroll view move.y;
  }

  move-calls : on_motion view core move after_press ≡ (
    after_move,
    start_selection (column_at view press.x) (row_at view press.y)
        ∷ cancel_animation
        ∷ ((auto_scroll_call (auto_scroll view move.y)
              ++ update_selection (column_at view move.x) (row_at view move.y) ∷ [])
            ++ request_refresh ∷ []),
  )
  unfolding on_motion drag update_selection_at start_click is_far
  move-calls = rw (drags.0, drags.1, drags.3, drags.4) refl

  -- The calls of a drag in order.
  abbrev pub drag_calls : List Call
  drag_calls =
      (cancel_animation
        ∷ set_focus
        ∷ ((clear_selection
              ∷ click_selection (next_click view press p) (column_at view press.x)
                  (row_at view press.y))
            ++ capture_mouse ∷ request_refresh ∷ []))
      ++ ((start_selection (column_at view press.x) (row_at view press.y)
            ∷ cancel_animation
            ∷ ((auto_scroll_call (auto_scroll view move.y)
                  ++ update_selection (column_at view move.x) (row_at view move.y) ∷ [])
                ++ request_refresh ∷ []))
          ++ ((update_selection (column_at view release.x) (row_at view release.y)
                ∷ (release_if core ++ copy_selection ∷ request_refresh ∷ []))
              ++ []))

  -- A press with nothing held that the application does not want, a movement 4 pixels away or more, and
  -- a release leave the pointer up, with no selection dragged and none scrolling, and make just these
  -- calls: the old selection is cleared, with what the click itself selects; the new one starts at the
  -- cell of the press, goes to the cell of the movement, scrolling if that is outside the window, ends at the
  -- cell of the release, and is copied.
  pub handle_all-drag_calls :
      handle_all view
        ((core, left_down press) ∷ (core, motion move) ∷ (core, left_up release) ∷ [])
        p
      ≡ (at_end after_move, drag_calls)
  unfolding handle_all handle start_click
  handle_all-drag_calls =
      rw (press-calls, move-calls, release_drag view core release after_move (drags.0) refl refl)
        refl
