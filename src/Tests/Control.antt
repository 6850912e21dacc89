-- ===== src/Tests/Control.antt =====
-- The theorems on src/wx/terminal_ctrl.cpp at concrete inputs, and runs of the models.
use sakura_wx_prototype.Prelude.{
  ℕ, ap, ◌∙◌, inl, ◌<◌, Bool-cases, ◌+◌, ◌*◌, ◌≤◌, ◌≡◌, refl, true, false, ◌&&◌, ◌⊎◌, inr, some, [],
  ◌∷◌, ◌==◌, if◌then◌else◌, arith,
}
use sakura_wx_prototype.Prelude.Int.{pos, negsuc, ◌+ℤ◌}
use sakura_wx_prototype.Dirty.{dirty_empty}
use sakura_wx_prototype.CursorStyle.{block}
use sakura_wx_prototype.Take.{PackedFrame, no_scroll, content_scroll}
use sakura_wx_prototype.Grid.{empty_grid}
use sakura_wx_prototype.Frame.Info.{info_of}
use sakura_wx_prototype.Pty.Process.{TransportState, stopped, running, failed}
use sakura_wx_prototype.Control.Status.{TransportStatus, Told}
use sakura_wx_prototype.Control.Status.Changes.{told, poll_all, poll_all-told}
use sakura_wx_prototype.Control.Wheel.{WheelEvent, Wheel}
use sakura_wx_prototype.Paint.Surface.{scroll_framebuffer}
use sakura_wx_prototype.Paint.Surface.Shows.{IsBelow, scroll_framebuffer-Moves}
use sakura_wx_prototype.Control.Refresh.{PendingFrame, merge_frame, request_frame_refresh}
use sakura_wx_prototype.Control.Refresh.Merge.{IsUpdate, request_frame_refresh-IsUpdate}

abbrev turned : Wheel
turned = record {
  wheel_rotation = negsuc 89;
  pending_wheel_lines = negsuc 60;
  wheel_events = 4;
  wheel_partial_events = 1;
  wheel_scroll_updates = 0;
  wheel_lines_scrolled = 0;
}

abbrev turn_down : WheelEvent
turn_down = record {
  rotation = negsuc 59;
  wheel_delta = pos 120;
  lines_per_action = pos 4;
  is_page_scroll = false;
}

-- A frame of two columns and two rows; the first scrolls a row up and marks the last row.
abbrev scrolled_frame : PackedFrame
scrolled_frame = record {
  generation = 2;
  changed = true;
  full_repaint = false;
  scroll_delta = pos 1;
  scroll_kind = content_scroll;
  dirty = record { left = 0; top = 1; right = 2; bottom = 2 };
  dirty_spans = [];
  columns = 2;
  rows = 2;
  cursor_x = 0;
  cursor_y = 0;
  cursor_visible = true;
  cursor_style = block;
  alternate_screen = false;
  grid = empty_grid;
}

-- The second marks one cell.
abbrev typed_frame : PackedFrame
typed_frame = record scrolled_frame {
  generation = 3;
  scroll_delta = pos 0;
  scroll_kind = no_scroll;
  dirty = record { left = 1; top = 0; right = 2; bottom = 1 };
}

abbrev waiting_frame : PendingFrame
waiting_frame = record {
  frame = scrolled_frame;
  info = info_of scrolled_frame;
  dirty = scrolled_frame.dirty;
  full_repaint = false;
}

abbrev old_picture : ℕ → ℕ → ℕ
old_picture x y = 10 * x + y

abbrev scrolled_picture : ℕ → ℕ → ℕ
scrolled_picture x y = if y == 0 then old_picture x 1 else 77

abbrev typed_picture : ℕ → ℕ → ℕ
typed_picture x y = if (x == 1) && (y == 0) then 99 else scrolled_picture x y

outside_scrolled :
    IsUpdate old_picture scrolled_picture (info_of scrolled_frame) scrolled_frame.dirty
outside_scrolled x y inside_x inside_y outside = elim (Bool-cases (y == 0)) [
  | inl e ↦ let top : y ≡ 0 = ground arith in (1, omega arith, omega arith, rw top refl)
  | inr e ↦ absurd (outside (omega arith, omega arith, ground arith, omega arith))
]

outside_typed : IsUpdate scrolled_picture typed_picture (info_of typed_frame) typed_frame.dirty
outside_typed x y inside_x inside_y outside = elim (Bool-cases ((x == 1) && (y == 0))) [
  | inl e ↦ absurd (outside (ground arith, omega arith, omega arith, ground arith))
  | inr e ↦ (y, refl, inside_y, rw e refl)
]

request_frame_refresh-IsUpdate_example :
    (m : PendingFrame) × ((request_frame_refresh 8 16 (some typed_frame) (some waiting_frame)).0
      ≡ some m)
    × (m.frame ≡ typed_frame)
    × (((m.full_repaint ≡ true)
          × ((typed_frame.full_repaint ≡ true) ⊎ (waiting_frame.full_repaint ≡ true)))
        ⊎ IsUpdate old_picture typed_picture m.info m.dirty)
unfolding dirty_empty
request_frame_refresh-IsUpdate_example =
    request_frame_refresh-IsUpdate old_picture scrolled_picture typed_picture typed_frame
      waiting_frame 8 16 refl (inr (1, 0, (omega arith, omega arith, omega arith, omega arith)))
      refl refl refl (inr outside_scrolled) (inr outside_typed)

scroll_framebuffer-Moves_example :
    let moved = scroll_framebuffer (pos 1) 2 3 old_picture 1 1 in
    ((z : ℕ) × (1 < 2) × (1 < 3) × (z < 3) × IsBelow (pos 1) 1 z × (moved ≡ old_picture 1 z))
    ⊎ (((2 ≤ 1) ⊎ (3 ≤ 1) ⊎ ((z : ℕ) → z < 3 → ¬ IsBelow (pos 1) 1 z)) × (moved ≡ old_picture 1 1))
scroll_framebuffer-Moves_example = scroll_framebuffer-Moves 2 3 old_picture 1 1 (pos 1)

abbrev status_of : TransportState → TransportStatus
status_of state = record {
  state = state;
  exit_code = negsuc 0;
  signal = 0;
  exit_code_valid = false;
}

abbrev untold : Told
untold = record { last_transport_state = stopped; last_title = []; last_error = [] }

poll_all-told_example :
    told
      (poll_all
        (b'!' ∷ [])
        (status_of running ∷ status_of running ∷ status_of failed ∷ [])
        untold).1
    ≡ status_of running ∷ status_of failed ∷ []
poll_all-told_example =
    poll_all-told (b'!' ∷ []) (status_of running ∷ status_of running ∷ status_of failed ∷ []) untold

-- Of three rows, the frame that waits marks the middle one, and the new one scrolls up by a row and
-- marks the last: the first row then shows what the middle one did before the frame that waited.
abbrev marked_frame : PackedFrame
marked_frame = record typed_frame {
  rows = 3;
  dirty = record { left = 0; top = 1; right = 2; bottom = 2 };
}

abbrev scrolling_frame : PackedFrame
scrolling_frame = record scrolled_frame {
  rows = 3;
  dirty = record { left = 0; top = 2; right = 2; bottom = 3 };
}

abbrev marked_picture : ℕ → ℕ → ℕ
marked_picture x y = if y == 1 then 88 else old_picture x y

abbrev scrolling_picture : ℕ → ℕ → ℕ
scrolling_picture x y = if y == 2 then 77 else marked_picture x (y + 1)

abbrev joined : PendingFrame
unfolding merge_frame
joined =
    merge_frame
      (some record {
        frame = marked_frame;
        info = info_of marked_frame;
        dirty = marked_frame.dirty;
        full_repaint = false;
      })
      scrolling_frame (info_of scrolling_frame)

outdated_row :
    (joined.full_repaint ≡ false)
    × ¬ IsUpdate old_picture scrolling_picture joined.info joined.dirty
unfolding joined ◌+ℤ◌
outdated_row = (
  refl,
  λ right.
      let (z, below, inside, shows) =
        right 0 0 (omega arith) (omega arith) (λ h. omega (arith, h.0, h.1, h.2, h.3)) in
      let first : z ≡ 1 = omega arith in
      let differs : 88 ≡ old_picture 0 1 = shows ∙ ap (old_picture 0) first in omega arith,
)
