-- ===== src/Backend.antt =====
-- The operations of `TerminalBackend` in src/terminal_core.cpp, for a backend with a screen and a
-- parser: `Resize`, `FeedOutput`, `HandleKey`, `Paste`, `HandleMouse`, the scroll and the selection
-- operations, and the callbacks `VteWrite`, `VteMouse` and `VteOsc`. The screen and the parser are
-- libtsm's: what the operations call of them is a `Libtsm`.
pub mod Viewport
pub mod Feed
use sakura_wx_prototype.Prelude.{
  ℕ, ◌+◌, ◌-◌, ◌^◌, ◌%◌, Bool, true, false, not, ◌&&◌, ◌||◌, Option, none, some, List, [], ◌∷◌,
  ◌++◌, leb, ltb, ◌==◌, if◌then◌else◌, length,
}
use sakura_wx_prototype.Prelude.Int.{ℤ, pos, pos_part, neg_part, magnitude, ◌+ℤ◌, sub_ℕ}
use sakura_wx_prototype.Prelude.Word.{u64}
use sakura_wx_prototype.CursorStyle.{Tracker, track_cursor_style}
use sakura_wx_prototype.Title.{TitleState, vte_osc}
use sakura_wx_prototype.Scroll.{LineView, Observation, reset_observation, observe_screen_scroll}

-- What the parser calls while it works.
pub data Callback : Type 0 where
  write : List ℕ → Callback
  mouse_mode : Callback
  osc : Option (List ℕ) → Callback

-- libtsm on screens of type `S`; a selection that cannot be copied is `none`.
pub record Libtsm (S : Type 0) : Type 0 where
  pub width : S → ℕ
  pub lines : S → LineView
  pub mouse_mode : S → ℕ
  pub resize : ℕ → ℕ → S → Option S
  pub input : List ℕ → S → S × List Callback
  pub keyboard : ℕ → ℕ → ℕ → ℕ → S → Bool × S × List Callback
  pub mouse : ℕ → ℕ → ℕ → ℕ → ℕ → ℕ → ℕ → S → Bool × S × List Callback
  pub paste : List ℕ → S → S × List Callback
  pub page_up : ℕ → S → S
  pub page_down : ℕ → S → S
  pub up : ℕ → S → S
  pub down : ℕ → S → S
  pub selection_start : ℕ → ℕ → S → S
  pub selection_target : ℕ → ℕ → S → S
  pub selection_word : ℕ → ℕ → S → S
  pub selection_reset : S → S
  pub selection_copy : S → Option (List ℕ)

pub record BackendMetrics : Type 0 where
  pub output_bytes : ℕ
  pub output_chunks : ℕ
  pub input_events : ℕ
  pub transport_write_bytes : ℕ
  pub transport_write_events : ℕ
  pub paste_bytes : ℕ
  pub mouse_events : ℕ
  pub mouse_events_forwarded : ℕ
  pub mouse_mode_changes : ℕ
  pub selection_copies : ℕ

-- The members that the operations use; `written` is what the write callback has been given.
pub record Backend (S : Type 0) : Type 0 where
  pub screen : S
  pub observation : Observation
  pub pending_viewport_scroll_delta : ℤ
  pub selection_active : Bool
  pub tracker : Tracker
  pub title : TitleState
  pub output_waiting_for_render : Bool
  pub metrics : BackendMetrics
  pub written : List (List ℕ)

module _ {S : Type 0} where
  unfoldable pub call_back : Callback → Backend S → Backend S
  unfolding vte_osc
  call_back (write bytes) b = record b {
    metrics = record b.metrics {
      transport_write_bytes = u64 (b.metrics.transport_write_bytes + length bytes);
      transport_write_events = u64 (b.metrics.transport_write_events + 1);
    };
    written = b.written ++ bytes ∷ [];
  }
  call_back mouse_mode b = record b {
    metrics = record b.metrics { mouse_mode_changes = u64 (b.metrics.mouse_mode_changes + 1) };
  }
  call_back (osc sequence) b = record b { title = vte_osc b.title sequence }

  unfoldable pub call_back_all : List Callback → Backend S → Backend S
  unfolding call_back
  call_back_all [] b = b
  call_back_all (c ∷ callbacks) b = call_back_all callbacks (call_back c b)

  module _ (tsm : Libtsm S) where
    unfoldable pub resize : ℕ → ℕ → Backend S → Bool × Backend S
    unfolding reset_observation
    resize columns rows b = elim (tsm.resize columns rows b.screen) [
      | none ↦ (false, b)
      | some screen ↦ (
        true,
        record b {
          screen = screen;
          observation = record (reset_observation (tsm.lines screen) b.observation) {
            pending_content_scroll_delta = pos 0;
          };
          pending_viewport_scroll_delta = pos 0;
        },
      )
    ]

    -- The observation as it is, or a new one if the screen's height is not its own.
    abbrev pub current_observation : Backend S → Observation
    unfolding reset_observation
    current_observation b =
        if length b.observation.observed_lines == (tsm.lines b.screen).height
        then b.observation
        else reset_observation (tsm.lines b.screen) b.observation

    -- Data that is not empty.
    unfoldable pub feed_data : List ℕ → Backend S → Backend S
    unfolding current_observation call_back_all observe_screen_scroll track_cursor_style
    feed_data bytes b =
        let before = current_observation b in
        let parsed = tsm.input bytes b.screen in
        let fed = call_back_all parsed.1 (record b {
          observation = before;
          screen = parsed.0;
          tracker = track_cursor_style b.tracker bytes;
          output_waiting_for_render = true;
          metrics = record b.metrics {
            output_bytes = u64 (b.metrics.output_bytes + length bytes);
            output_chunks = u64 (b.metrics.output_chunks + 1);
          };
        }) in
        record fed {
          observation =
              observe_screen_scroll (tsm.lines fed.screen) before.observed_lines
                before.observed_alternate_screen fed.observation;
        }

    unfoldable pub feed_output : List ℕ → Backend S → Backend S
    unfolding feed_data
    feed_output bytes b = if ltb 0 (length bytes) then feed_data bytes b else b

    unfoldable pub handle_key : ℕ → ℕ → ℕ → ℕ → Backend S → Bool × Backend S
    unfolding call_back_all
    handle_key keysym ascii modifiers unicode b =
        let handled = tsm.keyboard keysym ascii modifiers unicode b.screen in
        (
          handled.0,
          call_back_all handled.2 (record b {
            screen = handled.1;
            metrics = record b.metrics { input_events = u64 (b.metrics.input_events + 1) };
          }),
        )

    unfoldable pub paste : List ℕ → Backend S → Backend S
    unfolding call_back_all
    paste text b =
        let pasted = tsm.paste text b.screen in
        if length text == 0
        then b
        else call_back_all pasted.1 (record b {
          screen = pasted.0;
          metrics = record b.metrics { paste_bytes = u64 (b.metrics.paste_bytes + length text) };
        })

    unfoldable pub handle_mouse : ℕ → ℕ → ℕ → ℕ → ℕ → ℕ → ℕ → Backend S → Bool × Backend S
    unfolding call_back_all
    handle_mouse cell_x cell_y pixel_x pixel_y button event modifiers b =
        let handled = tsm.mouse cell_x cell_y pixel_x pixel_y button event modifiers b.screen in
        let after = call_back_all handled.2 (record b {
          screen = handled.1;
          metrics = record b.metrics { mouse_events = u64 (b.metrics.mouse_events + 1) };
        }) in
        (
          handled.0,
          if handled.0
              then record after {
                metrics = record after.metrics {
                  mouse_events_forwarded = u64 (after.metrics.mouse_events_forwarded + 1);
                };
              }
              else after,
        )

    abbrev pub mouse_reporting_enabled : Backend S → Bool
    mouse_reporting_enabled b = not (tsm.mouse_mode b.screen == 0)

    -- The screen is scrolled, and the movement of its position is added to the pending one.
    unfoldable pub scroll_to : S → Backend S → Backend S
    scroll_to screen b = record b {
      screen = screen;
      pending_viewport_scroll_delta =
          b.pending_viewport_scroll_delta
          +ℤ sub_ℕ (tsm.lines screen).line_pos (tsm.lines b.screen).line_pos;
    }

    unfoldable pub scroll_page_up : ℕ → Backend S → Backend S
    unfolding scroll_to
    scroll_page_up pages b = scroll_to (tsm.page_up pages b.screen) b

    unfoldable pub scroll_page_down : ℕ → Backend S → Backend S
    unfolding scroll_to
    scroll_page_down pages b = scroll_to (tsm.page_down pages b.screen) b

    unfoldable pub scroll_lines : ℤ → Backend S → Backend S
    unfolding scroll_to
    scroll_lines lines b =
        if magnitude lines == 0
        then b
        else if ltb 0 (pos_part lines)
        then scroll_to (tsm.up (pos_part lines) b.screen) b
        else scroll_to (tsm.down (neg_part lines) b.screen) b

    abbrev pub is_inside : ℕ → ℕ → Backend S → Bool
    is_inside column row b =
        not (leb (tsm.width b.screen) column) && not (leb (tsm.lines b.screen).height row)

    unfoldable pub start_selection : ℕ → ℕ → Backend S → Backend S
    start_selection column row b =
        if is_inside column row b
        then record b { screen = tsm.selection_start column row b.screen; selection_active = true }
        else b

    unfoldable pub update_selection : ℕ → ℕ → Backend S → Backend S
    update_selection column row b =
        if b.selection_active
        then record b { screen = tsm.selection_target column row b.screen }
        else b

    unfoldable pub select_word : ℕ → ℕ → Backend S → Backend S
    select_word column row b =
        if is_inside column row b
        then record b {
          screen = tsm.selection_word column row (tsm.selection_reset b.screen);
          selection_active = true;
        }
        else b

    -- `tsm_screen_get_width(screen_) - 1` wraps.
    unfoldable pub select_line : ℕ → Backend S → Backend S
    unfolding start_selection update_selection
    select_line row b =
        let started = start_selection 0 row b in
        if leb (tsm.lines b.screen).height row
        then b
        else update_selection ((tsm.width started.screen + 2 ^ 32 - 1) % 2 ^ 32) row started

    unfoldable pub clear_selection : Backend S → Backend S
    clear_selection b = record b { screen = tsm.selection_reset b.screen; selection_active = false }

    abbrev pub count_copy : List ℕ → Backend S → Backend S
    count_copy text b = if length text == 0 then b else record b {
      metrics = record b.metrics { selection_copies = u64 (b.metrics.selection_copies + 1) };
    }

    unfoldable pub copied : Option (List ℕ) → Backend S → List ℕ × Backend S
    copied none b = ([], record b { selection_active = false })
    copied (some text) b = (text, count_copy text b)

    unfoldable pub copy_selection : Backend S → List ℕ × Backend S
    unfolding copied
    copy_selection b =
        if not b.selection_active then ([], b) else copied (tsm.selection_copy b.screen) b
