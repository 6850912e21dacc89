-- ===== src/Tests/Backend.antt =====
-- The theorems on the backend of src/terminal_core.cpp, and on the mouse of src/wx/terminal_ctrl.cpp with
-- it, at a screen of ten columns and four rows that logs what is called of it.
use sakura_wx_prototype.Prelude.{
  ℕ, ◌+◌, ◌-◌, ◌≡◌, refl, true, false, none, some, List, [], ◌∷◌, All, get_or, arith, length,
}
use sakura_wx_prototype.Prelude.Int.{pos, negsuc, ◌-ℤ◌}
use sakura_wx_prototype.CursorStyle.{ground_state, block}
use sakura_wx_prototype.Backend.{Libtsm, Backend, feed_output}
use sakura_wx_prototype.Backend.Viewport.{
  page_up, page_down, lines, scroll_all, Follows, scroll_all-Follows,
}
use sakura_wx_prototype.Backend.Feed.{IsFed, feed_output-IsFed}
use sakura_wx_prototype.Control.Cells.{View}
use sakura_wx_prototype.Control.Mouse.{Pointer, MouseEvent, Answers}
use sakura_wx_prototype.Control.Mouse.Events.{Input, left_down, left_up, motion, handle_all}
use sakura_wx_prototype.Control.Mouse.Orderly.{IsInGrid, IsOrderly, handle_all-IsOrderly}
use sakura_wx_prototype.Control.Mouse.Applied.{
  IsKept, apply_all, dragged_screen, apply_all-handle_all,
}

abbrev log : Libtsm (List ℕ)
log = record {
  width = λ s. 10;
  lines = λ s. record {
    height = 4;
    row_id = λ row. row + get_or s 0 0;
    alternate = false;
    line_pos = get_or s 0 5;
    line_count = 5;
  };
  mouse_mode = λ s. 0;
  resize = λ columns rows s. none;
  input = λ bytes s. (length bytes ∷ s, []);
  keyboard = λ keysym ascii modifiers unicode s. (true, s, []);
  mouse = λ cell_x cell_y pixel_x pixel_y button event modifiers s. (false, s, []);
  paste = λ text s. (s, []);
  page_up = λ pages s. (get_or s 0 5 - 4) ∷ s;
  page_down = λ pages s. (get_or s 0 5 + 4) ∷ s;
  up = λ count s. (get_or s 0 5 - count) ∷ s;
  down = λ count s. (get_or s 0 5 + count) ∷ s;
  selection_start = λ column row s. (1000 + column) ∷ row ∷ s;
  selection_target = λ column row s. (2000 + column) ∷ row ∷ s;
  selection_word = λ column row s. s;
  selection_reset = λ s. 3000 ∷ s;
  selection_copy = λ s. some (b'x' ∷ []);
}

abbrev new_backend : Backend (List ℕ)
new_backend = record {
  screen = [];
  observation = record {
    observed_lines = [];
    observed_alternate_screen = false;
    pending_content_scroll_delta = pos 0;
  };
  pending_viewport_scroll_delta = pos 0;
  selection_active = false;
  tracker = record { state = ground_state; parameters = []; style = block; changes = 0 };
  title = record { title = []; title_changes = 0 };
  output_waiting_for_render = false;
  metrics = record {
    output_bytes = 0;
    output_chunks = 0;
    input_events = 0;
    transport_write_bytes = 0;
    transport_write_events = 0;
    paste_bytes = 0;
    mouse_events = 0;
    mouse_events_forwarded = 0;
    mouse_mode_changes = 0;
    selection_copies = 0;
  };
  written = [];
}

scroll_all-Follows_example :
    Follows log new_backend
      (scroll_all log (page_up 1 ∷ lines (negsuc 1) ∷ page_down 2 ∷ []) new_backend)
scroll_all-Follows_example =
    scroll_all-Follows log (page_up 1 ∷ lines (negsuc 1) ∷ page_down 2 ∷ []) new_backend

feed_output-IsFed_example :
    IsFed log (b'h' ∷ b'i' ∷ []) new_backend (feed_output log (b'h' ∷ b'i' ∷ []) new_backend)
feed_output-IsFed_example =
    feed_output-IsFed log (b'h' ∷ b'i' ∷ []) new_backend (omega arith) (λ s. refl)

abbrev view : View
view = record { columns = 10; rows = 4; cell_width = 8; cell_height = 16; client_height = 64 }

abbrev quiet : Answers
quiet = record {
  reporting_enabled = false;
  handles = false;
  has_selection = false;
  has_capture = true;
}

abbrev pointer : Pointer
pointer = record {
  selection_dragging = false;
  pointer_down = false;
  mouse_reporting_gesture = false;
  mouse_reporting_button = 0;
  click_count = 1;
  down_x = pos 0;
  down_y = pos 0;
  anchor_column = 0;
  anchor_row = 0;
  last_click_column = 9;
  last_click_row = 3;
  last_click_time = 0;
  last_x = pos 0;
  last_y = pos 0;
  auto_scroll_direction = pos 0;
}

abbrev press : MouseEvent
press = record {
  x = pos 20;
  y = pos 20;
  shift_down = false;
  meta_down = false;
  control_down = false;
  dragging = false;
  right_down = false;
  clicks = pos 1;
  time = 700000;
}

abbrev move : MouseEvent
move = record press { x = pos 60; y = pos 40; dragging = true; time = 800000 }

abbrev release : MouseEvent
release = record press { x = pos 79; y = pos 40; time = 900000 }

handle_all-IsOrderly_example :
    IsOrderly view
      (handle_all view ((quiet, left_down press) ∷ (quiet, motion move) ∷ []) pointer).0
    × All
        (λ c. IsInGrid view c)
        (handle_all view ((quiet, left_down press) ∷ (quiet, motion move) ∷ []) pointer).1
handle_all-IsOrderly_example =
    handle_all-IsOrderly view ((quiet, left_down press) ∷ (quiet, motion move) ∷ []) pointer
      (omega arith, omega arith, omega arith, omega arith)
      (omega arith, λ on. absurd (cc), λ down. absurd (cc))

apply_all-handle_all_example :
    let events : List (Answers × Input) =
      (quiet, left_down press) ∷ (quiet, motion move) ∷ (quiet, left_up release) ∷ [] in
    let after = apply_all log (handle_all view events pointer).1 new_backend in
    (after.screen ≡ dragged_screen log view press move release new_backend)
    × IsKept log (dragged_screen log view press move release new_backend) after
unfolding ◌-ℤ◌
apply_all-handle_all_example =
    apply_all-handle_all log view quiet press move release pointer new_backend
      (refl, refl, refl, refl, refl) (omega arith, omega arith, omega arith, omega arith) refl refl
      refl refl
