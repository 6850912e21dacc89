-- ===== src/Control/Mouse/Applied.antt =====
-- The calls of the mouse handlers of src/wx/terminal_ctrl.cpp on the backend of src/terminal_core.cpp.
use mathlib.Core.Path.{subst, sym}
use sakura_wx_prototype.Prelude.{
  ℕ, ◌≡◌, refl, true, false, ◌⊎◌, inl, inr, Option, none, some, List, [], ◌∷◌, ◌++◌, arith,
  Bool-cases, if_cases, length, ◌==◌,
}
use sakura_wx_prototype.Prelude.Int.{pos}
use sakura_wx_prototype.Backend
use sakura_wx_prototype.Backend.{Libtsm, Backend}
use sakura_wx_prototype.Control.Cells.{View, column_at, row_at, HasCells, column_at_lt, row_at_lt}
use sakura_wx_prototype.Control.Mouse.{
  Pointer, MouseEvent, Answers, Call, release_if, next_click, auto_scroll,
}
use sakura_wx_prototype.Control.Mouse.Events.{Input, left_down, motion, left_up, handle_all}
use sakura_wx_prototype.Control.Mouse.Drag.{IsDrag, drag_calls, handle_all-drag_calls}

-- The selection of the screen can be copied and stays active, or it cannot and is not.
abbrev pub IsKept : {S : Type 0} → Libtsm S → S → Backend S → Type 0
IsKept tsm screen after =
    ((tsm.selection_copy screen ≡ none) × (after.selection_active ≡ false))
    ⊎ ((text : List ℕ) × (tsm.selection_copy screen ≡ some text) × (after.selection_active ≡ true))

module _ {S : Type 0} (tsm : Libtsm S) where
  -- A call on the backend; those on the window leave it.
  unfoldable pub apply_call : Call → Backend S → Backend S
  unfolding Backend.handle_mouse Backend.start_selection Backend.update_selection
      Backend.select_word Backend.select_line Backend.clear_selection Backend.scroll_lines
      Backend.copy_selection
  apply_call (Call.report column row x y button event modifiers) b =
      (Backend.handle_mouse tsm column row x y button event modifiers b).1
  apply_call (Call.start_selection column row) b = Backend.start_selection tsm column row b
  apply_call (Call.update_selection column row) b = Backend.update_selection tsm column row b
  apply_call (Call.select_word column row) b = Backend.select_word tsm column row b
  apply_call (Call.select_line row) b = Backend.select_line tsm row b
  apply_call (Call.scroll_lines lines) b = Backend.scroll_lines tsm lines b
  apply_call Call.clear_selection b = Backend.clear_selection tsm b
  apply_call Call.copy_selection b = (Backend.copy_selection tsm b).1
  apply_call _ b = b

  unfoldable pub apply_all : List Call → Backend S → Backend S
  unfolding apply_call
  apply_all [] b = b
  apply_all (call ∷ calls) b = apply_all calls (apply_call call b)

  apply_all-release :
      (core : Answers) (calls : List Call) (b : Backend S)
      → apply_all (release_if core ++ calls) b ≡ apply_all calls b
  unfolding apply_all apply_call
  apply_all-release core calls b = elim (Bool-cases core.has_capture) [
    | inl e ↦ rw e refl
    | inr e ↦ rw e refl
  ]

  abbrev pub dragged_screen : View → MouseEvent → MouseEvent → MouseEvent → Backend S → S
  dragged_screen view press move release b =
      tsm.selection_target (column_at view release.x) (row_at view release.y) (
        tsm.selection_target (column_at view move.x) (row_at view move.y) (
          tsm.selection_start (column_at view press.x) (row_at view press.y)
            (tsm.selection_reset b.screen)))

  copied_kept :
      (copy : Option (List ℕ)) (c : Backend S)
      → c.selection_active ≡ true
      → let after = (Backend.copied tsm copy c).1 in
        (after.screen ≡ c.screen)
        × (((copy ≡ none) × (after.selection_active ≡ false))
            ⊎ ((text : List ℕ) × (copy ≡ some text) × (after.selection_active ≡ true)))
  unfolding Backend.copied
  copied_kept none c active = (refl, inl (refl, refl))
  copied_kept (some text) c active =
      if_cases
        (λ (r : Backend S).
          (r.screen ≡ c.screen)
          × (((some text ≡ none) × (r.selection_active ≡ false))
              ⊎ ((copy : List ℕ) × (some text ≡ some copy) × (r.selection_active ≡ true))))
        (length text == 0) _ _ (λ e. (refl, inr (text, refl, active)))
        (λ e. (refl, inr (text, refl, active)))

  module _ (view : View) (core : Answers) (press move release : MouseEvent) (p : Pointer)
      (b : Backend S) where
    abbrev dragged : S
    dragged = dragged_screen view press move release b

    abbrev started : Backend S
    started = record b {
      screen =
          tsm.selection_start (column_at view press.x) (row_at view press.y)
            (tsm.selection_reset b.screen);
      selection_active = true;
    }

    starts_inside :
        HasCells view
        → tsm.width (tsm.selection_reset b.screen) ≡ view.columns
        → (tsm.lines (tsm.selection_reset b.screen)).height ≡ view.rows
        → Backend.start_selection tsm
            (column_at view press.x)
            (row_at view press.y)
            (Backend.clear_selection tsm b)
          ≡ started
    unfolding Backend.start_selection Backend.clear_selection
    starts_inside cells columns rows =
        let column = column_at_lt view press.x cells in
        let row = row_at_lt view press.y cells in ground arith

    copied_screen :
        let copied = (Backend.copy_selection tsm (record started { screen = dragged })).1 in
        (copied.screen ≡ dragged) × IsKept tsm dragged copied
    unfolding Backend.copy_selection Backend.copied
    copied_screen =
        copied_kept (tsm.selection_copy dragged) (record started { screen = dragged }) refl

    -- A single click, and a movement inside the window.
    apply_all-drag_calls :
        (drags : IsDrag p core press move)
        → HasCells view
        → tsm.width (tsm.selection_reset b.screen) ≡ view.columns
        → (tsm.lines (tsm.selection_reset b.screen)).height ≡ view.rows
        → next_click view press p ≡ 1
        → auto_scroll view move.y ≡ pos 0
        → let after = apply_all (drag_calls view core press move release p drags) b in
          (after.screen ≡ dragged) × IsKept tsm dragged after
    unfolding apply_all apply_call Backend.start_selection Backend.update_selection
        Backend.clear_selection Backend.copy_selection Backend.copied
    apply_all-drag_calls drags cells columns rows once inside =
        rw (once, inside)
          (rw (apply_all, starts_inside cells columns rows)
            (elim (Bool-cases core.has_capture) [
              | inl e ↦ rw e copied_screen
              | inr e ↦ rw e copied_screen
            ]))

-- Pressing, moving 4 pixels away or more inside the window, and releasing, on a backend whose screen
-- has as many columns and rows as the window shows, where the press is a single click that the
-- application does not want: the handlers' calls make libtsm reset its selection, start one at the cell of the
-- press and move its end to the cell of the movement and then to that of the release; and the
-- selection stays active if libtsm can copy it, and is no longer active if libtsm cannot.
pub apply_all-handle_all :
    {S : Type 0} (tsm : Libtsm S) (view : View) (core : Answers) (press move release : MouseEvent)
    (p : Pointer) (b : Backend S)
    → IsDrag p core press move
    → HasCells view
    → tsm.width (tsm.selection_reset b.screen) ≡ view.columns
    → (tsm.lines (tsm.selection_reset b.screen)).height ≡ view.rows
    → next_click view press p ≡ 1
    → auto_scroll view move.y ≡ pos 0
    → let events : List (Answers × Input) =
        (core, left_down press) ∷ (core, motion move) ∷ (core, left_up release) ∷ [] in
      let after = apply_all tsm (handle_all view events p).1 b in
      (after.screen ≡ dragged_screen tsm view press move release b)
      × IsKept tsm (dragged_screen tsm view press move release b) after
apply_all-handle_all {S = S} tsm view core press move release p b drags cells columns rows once
      inside =
    subst
      (λ (r : Pointer × List Call).
        ((apply_all tsm r.1 b).screen ≡ dragged_screen tsm view press move release b)
        × IsKept tsm (dragged_screen tsm view press move release b) (apply_all tsm r.1 b))
      (sym (handle_all-drag_calls view core press move release p drags))
      (apply_all-drag_calls tsm view core press move release p b drags cells columns rows once
        inside)
