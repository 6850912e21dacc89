-- ===== src/Tests/Core.antt =====
-- The theorems on styles, the cursor style, the title and scroll detection of
-- src/terminal_core.cpp, at concrete inputs, and runs of the models.
use sakura_wx_prototype.Prelude.{
  false, ℕ, ◌⊎◌, ◌≢◌, ◌+◌, ◌≤◌, ◌≡◌, refl, List, [], ◌∷◌, ◌++◌, none, some, arith, length,
}
use sakura_wx_prototype.Prelude.Int.{pos, negsuc}
use sakura_wx_prototype.Style.{PackedStyle, black, default_style, style_index}
use sakura_wx_prototype.Style.Intern.{Interned, style_index-Interned}
use sakura_wx_prototype.Style.Id.{packed_style_id-injective}
use sakura_wx_prototype.CursorStyle.{
  Tracker, ground_state, csi, block, underline, track_cursor_style,
}
use sakura_wx_prototype.CursorStyle.Sequence.{track_bound}
use sakura_wx_prototype.Title.{TitleState, vte_osc}
use sakura_wx_prototype.Title.Osc.{vte_osc_command, vte_osc_malformed}
use sakura_wx_prototype.Scroll.{
  LineView, Observation, observe_screen_scroll, detect_full_screen_shift, try_deltas, compare_rows,
}
use sakura_wx_prototype.Scroll.Observe.{AddsShift, IsOf, observe_screen_scroll-IsOf}
use sakura_wx_prototype.Scroll.Shift.{IsShift, detect-IsShift}

abbrev white_on_black : PackedStyle
white_on_black = record {
  foreground = record { red = 255; green = 255; blue = 255 };
  background = black;
  attributes = 5;
}

style_index-Interned_example :
    Interned (default_style ∷ []) white_on_black (style_index (default_style ∷ []) white_on_black)
style_index-Interned_example =
    style_index-Interned (default_style ∷ []) white_on_black (tt, tt) (omega arith)

packed_style_id-injective_example : white_on_black ≡ white_on_black
packed_style_id-injective_example =
    packed_style_id-injective white_on_black white_on_black
      (
        (omega arith, omega arith, omega arith),
        (omega arith, omega arith, omega arith),
        omega arith,
      )
      (
        (omega arith, omega arith, omega arith),
        (omega arith, omega arith, omega arith),
        omega arith,
      )
      refl

abbrev at_rest : Tracker
at_rest = record { state = ground_state; parameters = []; style = block; changes = 0 }

abbrev in_sequence : Tracker
in_sequence = record { state = csi; parameters = b'3' ∷ []; style = block; changes = 0 }

-- `ESC [ 4 SP q` selects the underline.
track_underline :
    track_cursor_style at_rest (0x1b ∷ b'[' ∷ b'4' ∷ b' ' ∷ b'q' ∷ [])
    ≡ record { state = ground_state; parameters = b'4' ∷ []; style = underline; changes = 1 }
unfolding track_cursor_style
track_underline = refl

-- `ESC [ 4294967299 SP q` selects the underline as well.
track_wrapped :
    (track_cursor_style at_rest (
      0x1b
      ∷ b'['
      ∷ (b'4' ∷ b'2' ∷ b'9' ∷ b'4' ∷ b'9' ∷ b'6' ∷ b'7' ∷ b'2' ∷ b'9' ∷ b'9' ∷ b' ' ∷ b'q'
          ∷ []))).style
    ≡ underline
unfolding track_cursor_style
track_wrapped = refl

track_bound_example :
    length (track_cursor_style in_sequence (b'1' ∷ b';' ∷ b'2' ∷ [])).parameters ≤ 16
track_bound_example = track_bound in_sequence (b'1' ∷ b';' ∷ b'2' ∷ []) (omega arith)

abbrev untitled : TitleState
untitled = record { title = []; title_changes = 0 }

vte_osc_command_example :
    let command : List ℕ = b'2' ∷ [] in
    let after = vte_osc untitled (some (command ++ b';' ∷ b'a' ∷ b';' ∷ b'b' ∷ [])) in
    (((command ≡ b'0' ∷ []) ⊎ (command ≡ b'1' ∷ []) ⊎ (command ≡ b'2' ∷ []))
      × (after ≡ record { title = b'a' ∷ b';' ∷ b'b' ∷ []; title_changes = 1 }))
    ⊎ ((command ≢ b'0' ∷ []) × (command ≢ b'1' ∷ []) × (command ≢ b'2' ∷ []) × (after ≡ untitled))
vte_osc_command_example =
    vte_osc_command untitled (b'2' ∷ []) (b'a' ∷ b';' ∷ b'b' ∷ []) ((λ e. omega arith), tt)
      (omega arith)

vte_osc_malformed_example :
    (vte_osc untitled (some (b'2' ∷ b'a' ∷ [])) ≡ untitled) × (vte_osc untitled none ≡ untitled)
vte_osc_malformed_example =
    vte_osc_malformed untitled (b'2' ∷ b'a' ∷ []) ((λ e. omega arith), ((λ e. omega arith), tt))

-- A screen of four rows in which every line moved up by one.
abbrev old_lines : List ℕ
old_lines = 10 ∷ 11 ∷ 12 ∷ 13 ∷ []

abbrev moved_up : ℕ → ℕ
moved_up row = 11 + row

abbrev moved_down : ℕ → ℕ
moved_down row = 8 + row

detect_up : detect_full_screen_shift old_lines 4 moved_up ≡ pos 1
unfolding detect_full_screen_shift try_deltas compare_rows
detect_up = refl

detect_down : detect_full_screen_shift old_lines 4 moved_down ≡ negsuc 1
unfolding detect_full_screen_shift try_deltas compare_rows
detect_down = refl

detect-IsShift_example :
    IsShift old_lines 4 moved_up 1 (detect_full_screen_shift old_lines 4 moved_up)
detect-IsShift_example = detect-IsShift old_lines 4 moved_up refl

abbrev scrolled_view : LineView
scrolled_view = record {
  height = 4;
  row_id = moved_up;
  alternate = false;
  line_pos = 9;
  line_count = 9;
}

abbrev observation : Observation
observation = record {
  observed_lines = old_lines;
  observed_alternate_screen = false;
  pending_content_scroll_delta = pos 2;
}

abbrev observed : Observation
observed = observe_screen_scroll scrolled_view old_lines false observation

observe_screen_scroll-IsOf_example :
    IsOf scrolled_view observed × AddsShift scrolled_view old_lines false observation observed
observe_screen_scroll-IsOf_example =
    observe_screen_scroll-IsOf scrolled_view old_lines false observation refl
