-- ===== src/Backend/Feed.antt =====
-- Output that is fed to the backend of src/terminal_core.cpp.
use mathlib.Core.Path.{subst}
use sakura_wx_prototype.Prelude.Word.{u64}
use sakura_wx_prototype.Prelude.{
  ◌+◌, true, ℕ, ◌<◌, ◌≡◌, refl, sym, ◌∙◌, ap, List, [], ◌∷◌, arith, length, ltb, ◌==◌, if_cases,
}
use sakura_wx_prototype.CursorStyle.{track_cursor_style}
use sakura_wx_prototype.Scroll.{Observation, reset_observation, observe_screen_scroll}
use sakura_wx_prototype.Scroll.Observe.{
  IsOf, AddsShift, length-lines_from, observe_screen_scroll-IsOf,
}
use sakura_wx_prototype.Backend.{
  Callback, write, mouse_mode, osc, Libtsm, Backend, call_back, call_back_all, current_observation,
  feed_data, feed_output,
}

module _ {S : Type 0} where
  -- The callbacks leave the screen, the observation, the tracker and the selection.
  abbrev IsBeside : Backend S → Backend S → Type 0
  IsBeside before after =
      (after.screen ≡ before.screen)
      × (after.observation ≡ before.observation)
      × (after.tracker ≡ before.tracker)
      × (after.selection_active ≡ before.selection_active)

  call_back_all-IsBeside :
      (callbacks : List Callback) (b : Backend S) → IsBeside b (call_back_all callbacks b)
  unfolding call_back_all call_back
  call_back_all-IsBeside [] b = (refl, refl, refl, refl)
  call_back_all-IsBeside (write bytes ∷ callbacks) b =
      call_back_all-IsBeside callbacks (call_back (write bytes) b)
  call_back_all-IsBeside (mouse_mode ∷ callbacks) b =
      call_back_all-IsBeside callbacks (call_back mouse_mode b)
  call_back_all-IsBeside (osc sequence ∷ callbacks) b =
      call_back_all-IsBeside callbacks (call_back (osc sequence) b)

  module _ (tsm : Libtsm S) where
    length-current_observation :
        (b : Backend S)
        → length (current_observation tsm b).observed_lines ≡ (tsm.lines b.screen).height
    unfolding reset_observation
    length-current_observation b =
        let height = (tsm.lines b.screen).height in
        if_cases (λ (o : Observation). length o.observed_lines ≡ height)
          (length b.observation.observed_lines == height) _ _ (λ same. ground arith)
          (λ other. length-lines_from (tsm.lines b.screen).row_id height 0)

    -- What the backend is after output has been fed to it.
    abbrev pub IsFed : List ℕ → Backend S → Backend S → Type 0
    unfolding current_observation
    IsFed bytes b after =
        let before = current_observation tsm b in
        (after.screen ≡ (tsm.input bytes b.screen).0)
        × (after.tracker ≡ track_cursor_style b.tracker bytes)
        × (after.selection_active ≡ b.selection_active)
        × IsOf (tsm.lines after.screen) after.observation
        × AddsShift (tsm.lines after.screen) before.observed_lines before.observed_alternate_screen
            before after.observation

    -- Before the callbacks run.
    abbrev parsed : List ℕ → Backend S → Backend S
    unfolding current_observation track_cursor_style
    parsed bytes b = record b {
      observation = current_observation tsm b;
      screen = (tsm.input bytes b.screen).0;
      tracker = track_cursor_style b.tracker bytes;
      output_waiting_for_render = true;
      metrics = record b.metrics {
        output_bytes = u64 (b.metrics.output_bytes + length bytes);
        output_chunks = u64 (b.metrics.output_chunks + 1);
      };
    }

    feed_data-IsFed :
        (bytes : List ℕ) (b : Backend S)
        → ((s : S) → (tsm.lines (tsm.input bytes s).0).height ≡ (tsm.lines s).height)
        → IsFed bytes b (feed_data tsm bytes b)
    unfolding feed_data parsed
    feed_data-IsFed bytes b keeps =
        let before = current_observation tsm b in
        let fed = call_back_all (tsm.input bytes b.screen).1 (parsed bytes b) in
        let beside = call_back_all-IsBeside (tsm.input bytes b.screen).1 (parsed bytes b) in
        let same : length before.observed_lines ≡ (tsm.lines fed.screen).height =
          length-current_observation b
          ∙ sym (keeps b.screen)
          ∙ ap (λ (s : S). (tsm.lines s).height) (sym beside.0) in
        let observed =
          observe_screen_scroll-IsOf (tsm.lines fed.screen) before.observed_lines
            before.observed_alternate_screen fed.observation same in
        (
          beside.0,
          beside.2,
          beside.3,
          observed.0,
          subst
              (λ (o : Observation).
                AddsShift (tsm.lines fed.screen) before.observed_lines
                  before.observed_alternate_screen o
                  (observe_screen_scroll (tsm.lines fed.screen) before.observed_lines
                    before.observed_alternate_screen fed.observation))
              beside.1 observed.1,
        )

    -- Output that is not empty, if the parser keeps the height of the screen: the parser gets it and
    -- the cursor style is tracked through it, and a selection stays; the observation afterwards is of the
    -- new screen, whatever it was before; and the pending scroll grows by the distance by which the lines
    -- that were observed are shifted on it, if the two screens can be compared, and stays if not.
    pub feed_output-IsFed :
        (bytes : List ℕ) (b : Backend S)
        → 0 < length bytes
        → ((s : S) → (tsm.lines (tsm.input bytes s).0).height ≡ (tsm.lines s).height)
        → IsFed bytes b (feed_output tsm bytes b)
    unfolding feed_output
    feed_output-IsFed bytes b some keeps =
        if_cases (λ (after : Backend S). IsFed bytes b after) (ltb 0 (length bytes))
          (feed_data tsm bytes b) b (λ yes. feed_data-IsFed bytes b keeps)
          (λ no. absurd (ground arith))
