-- ===== src/Control/Mouse/Orderly.antt =====
-- Any sequence of mouse events, in src/wx/terminal_ctrl.cpp.
use sakura_wx_prototype.Prelude.{
  ℕ, ◌+◌, ◌%◌, ◌≤◌, ◌<◌, ◌≡◌, refl, Bool, true, not, ◌&&◌, ◌||◌, List, [], ◌∷◌, ◌++◌, All,
  All-append, arith, leb, ◌==◌, if◌then◌else◌, if_cases,
}
use sakura_wx_prototype.Prelude.Int.{ℤ, magnitude}
use sakura_wx_prototype.Control.Cells.{View, column_at, row_at, HasCells, column_at_lt, row_at_lt}
use sakura_wx_prototype.Control.Mouse.{
  Pointer, MouseEvent, Answers, Call, cancel_animation, request_refresh, start_selection,
  update_selection, copy_selection, pressed, moved, report_call, forward_mouse, release_if,
  end_mouse_reporting, next_click, click_selection, start_click, on_left_down, finish_click,
  on_left_up, on_mouse_button_down, on_mouse_button_up, auto_scroll, auto_scroll_call,
  update_selection_at, is_far, drag, on_motion,
}
use sakura_wx_prototype.Control.Mouse.Events.{
  Input, left_down, left_up, button_down, button_up, motion, handle, handle_all,
}

-- A cell that is named in a call is one of the grid's.
abbrev pub IsInGrid : View → Call → Type 0
IsInGrid view (Call.report column row x y button event modifiers) =
    (column < view.columns) × (row < view.rows)
IsInGrid view (Call.start_selection column row) = (column < view.columns) × (row < view.rows)
IsInGrid view (Call.update_selection column row) = (column < view.columns) × (row < view.rows)
IsInGrid view (Call.select_word column row) = (column < view.columns) × (row < view.rows)
IsInGrid view (Call.select_line row) = row < view.rows
IsInGrid view _ = Unit

-- At most three clicks count; only a pointer that is down drags a selection, and it has gone down at
-- a cell of the grid.
abbrev pub IsOrderly : View → Pointer → Type 0
IsOrderly view p =
    (p.click_count ≤ 3)
    × (p.selection_dragging ≡ true → p.pointer_down ≡ true)
    × (p.pointer_down ≡ true → (p.anchor_column < view.columns) × (p.anchor_row < view.rows))

module _ (view : View) (cells : HasCells view) where
  abbrev Keeps : Pointer × List Call → Type 0
  Keeps result = IsOrderly view result.0 × All (λ c. IsInGrid view c) result.1

  abbrev CallsIn : List Call → Type 0
  CallsIn calls = All (λ c. IsInGrid view c) calls

  both_in : (xs ys : List Call) → CallsIn xs → CallsIn ys → CallsIn (xs ++ ys)
  both_in xs ys hx hy = All-append (λ c. IsInGrid view c) xs ys hx hy

  cell_in : (e : MouseEvent) → (column_at view e.x < view.columns) × (row_at view e.y < view.rows)
  cell_in e = (column_at_lt view e.x cells, row_at_lt view e.y cells)

  forward-in :
      (core : Answers) (e : MouseEvent) (button event : ℕ)
      → CallsIn (forward_mouse view core e button event).1
  unfolding forward_mouse
  forward-in core e button event =
      if_cases (λ (r : Bool × List Call). CallsIn r.1) (e.shift_down || not core.reporting_enabled)
        _ _ (λ none. tt) (λ some. (cell_in e, tt))

  release-in : (core : Answers) → CallsIn (release_if core)
  release-in core = if_cases CallsIn core.has_capture _ _ (λ yes. (tt, tt)) (λ no. tt)

  end-Keeps :
      (core : Answers) (e : MouseEvent) (p : Pointer)
      → IsOrderly view p
      → Keeps (end_mouse_reporting view core e p)
  unfolding end_mouse_reporting
  end-Keeps core e p h =
      if_cases Keeps (not p.mouse_reporting_gesture) _ _ (λ no. (h, tt))
        (λ yes. (h, (cell_in e, release-in core)))

  next_click_le : (e : MouseEvent) (p : Pointer) → next_click view e p ≤ 3
  next_click_le e p =
      if_cases (λ n. n ≤ 3) _ (p.click_count % 3 + 1) 1 (λ yes. omega arith) (λ no. omega arith)

  click_selection-in :
      (clicks : ℕ) (e : MouseEvent)
      → CallsIn (click_selection clicks (column_at view e.x) (row_at view e.y))
  click_selection-in clicks e =
      if_cases CallsIn (clicks == 2) _ _ (λ two. (cell_in e, tt))
        (λ other.
          if_cases CallsIn (clicks == 3) _ _ (λ three. (row_at_lt view e.y cells, tt)) (λ one. tt))

  start-Keeps : (core : Answers) (e : MouseEvent) (p : Pointer) → Keeps (start_click view core e p)
  unfolding start_click
  start-Keeps core e p = (
    (next_click_le e p, λ on. refl, λ down. cell_in e),
    both_in _ _
        (if_cases CallsIn (e.shift_down && core.has_selection) _ _ (λ yes. (cell_in e, tt))
          (λ no. (tt, click_selection-in (next_click view e p) e)))
        (tt, (tt, tt)),
  )

  down-Keeps :
      (core : Answers) (e : MouseEvent) (p : Pointer)
      → IsOrderly view p
      → Keeps (on_left_down view core e p)
  unfolding on_left_down
  down-Keeps core e p h =
      let forwarded = forward-in core e 0 pressed in
      let click = start-Keeps core e p in
      if_cases Keeps _ _ _ (λ yes. (h, (tt, (tt, both_in _ _ forwarded (tt, tt)))))
        (λ no. (click.0, (tt, (tt, both_in _ _ forwarded click.1))))

  finish-Keeps :
      (core : Answers) (e : MouseEvent) (p : Pointer)
      → IsOrderly view p
      → Keeps (finish_click view core e p)
  unfolding finish_click
  finish-Keeps core e p h =
      let update = update_selection (column_at view e.x) (row_at view e.y) ∷ [] in
      let copy = copy_selection ∷ [] in
      let updates =
        if_cases CallsIn p.selection_dragging update [] (λ yes. (cell_in e, tt)) (λ no. tt) in
      let copies =
        if_cases CallsIn (p.selection_dragging || leb 2 p.click_count) copy [] (λ yes. (tt, tt))
          (λ no. tt) in
      (
        (h.0, λ off. absurd (cc), λ off. absurd (cc)),
        both_in _ _ updates
            (both_in _ _ (release-in core) (both_in _ (request_refresh ∷ []) copies (tt, tt))),
      )

  up-Keeps :
      (core : Answers) (e : MouseEvent) (p : Pointer)
      → IsOrderly view p
      → Keeps (on_left_up view core e p)
  unfolding on_left_up
  up-Keeps core e p h =
      if_cases Keeps p.mouse_reporting_gesture _ _ (λ gesture. end-Keeps core e p h)
        (λ none.
          if_cases Keeps (not p.pointer_down) _ _ (λ up. (h, tt)) (λ down. finish-Keeps core e p h))

  button_down-Keeps :
      (core : Answers) (e : MouseEvent) (p : Pointer)
      → IsOrderly view p
      → Keeps (on_mouse_button_down view core e p)
  unfolding on_mouse_button_down
  button_down-Keeps core e p h =
      let forwarded = forward-in core e (if e.right_down then 2 else 1) pressed in
      if_cases Keeps _ _ _ (λ yes. (h, both_in _ _ forwarded (tt, tt))) (λ no. (h, forwarded))

  button_up-Keeps :
      (core : Answers) (e : MouseEvent) (p : Pointer)
      → IsOrderly view p
      → Keeps (on_mouse_button_up view core e p)
  unfolding on_mouse_button_up
  button_up-Keeps core e p h =
      if_cases Keeps p.mouse_reporting_gesture _ _ (λ gesture. end-Keeps core e p h)
        (λ none. (h, tt))

  auto_scroll-in : (direction : ℤ) → CallsIn (auto_scroll_call direction)
  auto_scroll-in direction =
      if_cases CallsIn (magnitude direction == 0) _ _ (λ none. tt) (λ some. (tt, tt))

  drag-Keeps :
      (e : MouseEvent) (p : Pointer)
      → IsOrderly view p
      → p.pointer_down ≡ true
      → Keeps (drag view e p)
  unfolding drag update_selection_at
  drag-Keeps e p h down =
      let begins = not p.selection_dragging && is_far e p in
      let start = start_selection p.anchor_column p.anchor_row ∷ [] in
      let starts = if_cases CallsIn begins start [] (λ yes. (h.2 down, tt)) (λ no. tt) in
      let cell = update_selection (column_at view e.x) (row_at view e.y) ∷ [] in
      let update =
        both_in (auto_scroll_call (auto_scroll view e.y)) cell
          (auto_scroll-in (auto_scroll view e.y)) (cell_in e, tt) in
      let updated = cancel_animation ∷ (auto_scroll_call (auto_scroll view e.y) ++ cell) in
      let last = both_in updated (request_refresh ∷ []) (tt, update) (tt, tt) in
      if_cases Keeps (not (p.selection_dragging || begins)) _ _ (λ no. (h, tt))
        (λ yes. ((h.0, λ on. down, λ on. h.2 on), both_in _ _ starts last))

  motion-Keeps :
      (core : Answers) (e : MouseEvent) (p : Pointer)
      → IsOrderly view p
      → Keeps (on_motion view core e p)
  unfolding on_motion
  motion-Keeps core e p h =
      if_cases Keeps p.mouse_reporting_gesture _ _
        (λ gesture. (
          h,
          if_cases CallsIn e.dragging
              (report_call view e (32 + p.mouse_reporting_button) moved ∷ []) []
              (λ yes. (cell_in e, tt)) (λ no. tt),
        ))
        (λ none.
          if_cases Keeps (not p.pointer_down || not e.dragging) _ _
            (λ idle. (
              h,
              if_cases CallsIn (not e.shift_down && core.reporting_enabled)
                  (report_call view e 0 moved ∷ []) [] (λ yes. (cell_in e, tt)) (λ no. tt),
            ))
            (λ down. drag-Keeps e p h (ground arith)))

  handle-Keeps :
      (core : Answers) (input : Input) (p : Pointer)
      → IsOrderly view p
      → Keeps (handle view core input p)
  unfolding handle
  handle-Keeps core (left_down e) p h = down-Keeps core e p h
  handle-Keeps core (left_up e) p h = up-Keeps core e p h
  handle-Keeps core (button_down e) p h = button_down-Keeps core e p h
  handle-Keeps core (button_up e) p h = button_up-Keeps core e p h
  handle-Keeps core (motion e) p h = motion-Keeps core e p h

-- On a grid of at least one cell, whose sides fit in 32 bits, after any mouse events with whatever
-- answers, from an orderly pointer: at most three clicks count, only a pointer that is down drags a
-- selection, and the cell where it went down is one of the grid's; and every cell that the calls
-- name, for a report or for the selection, is one of the grid's.
pub handle_all-IsOrderly :
    (view : View) (events : List (Answers × Input)) (p : Pointer)
    → HasCells view
    → IsOrderly view p
    → IsOrderly view (handle_all view events p).0
      × All (λ c. IsInGrid view c) (handle_all view events p).1
unfolding handle_all
handle_all-IsOrderly view [] p cells h = (h, tt)
handle_all-IsOrderly view (event ∷ events) p cells h =
    let now = handle-Keeps view cells event.0 event.1 p h in
    let later = handle_all-IsOrderly view events (handle view event.0 event.1 p).0 cells now.0 in
    (later.0, both_in view cells _ _ now.1 later.1)
