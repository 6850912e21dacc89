-- ===== src/CursorStyle.antt =====
-- The DECSCUSR tracker of src/terminal_core.cpp: `TrackCursorStyle` with its state
-- (`CursorSequenceState`, the parameter bytes, the style and its counter).
pub mod Sequence
use sakura_wx_prototype.Prelude.{
  ℕ, ◌+◌, ◌-◌, ◌*◌, ◌^◌, min, Bool, true, false, ◌&&◌, ◌||◌, List, [], ◌∷◌, ◌++◌, ltb, leb, ◌==◌,
  if◌then◌else◌, length,
}
use sakura_wx_prototype.Prelude.Word.{u32, u64}

pub data SequenceState : Type 0 where
  ground_state escape csi csi_intermediate : SequenceState

-- `SakuraTerminalCursorStyle`.
pub data Shape : Type 0 where
  block underline bar : Shape

pub record Tracker : Type 0 where
  pub state : SequenceState
  pub parameters : List ℕ
  pub style : Shape
  pub changes : ℕ

abbrev pub same_shape : Shape → Shape → Bool
same_shape block block = true
same_shape underline underline = true
same_shape bar bar = true
same_shape _ _ = false

abbrev pub is_digit : ℕ → Bool
is_digit ch = leb b'0' ch && leb ch b'9'

-- `std::strtoul(text, nullptr, 10)`: the leading digits, at most `ULONG_MAX`. The parameters hold
-- digits and semicolons only, so there is no space or sign to skip.
unfoldable pub digits_from : ℕ → List ℕ → ℕ
digits_from value [] = value
digits_from value (ch ∷ text) =
    let rest = digits_from (value * 10 + (ch - b'0')) text in if is_digit ch then rest else value

unfoldable pub strtoul : List ℕ → ℕ
unfolding digits_from
strtoul text = min (2 ^ 64 - 1) (digits_from 0 text)

unfoldable pub shape_for : ℕ → Shape → Shape
shape_for value style =
    if (value == 0) || (value == 1) || (value == 2)
    then block
    else if (value == 3) || (value == 4)
    then underline
    else if (value == 5) || (value == 6)
    then bar
    else style

-- The value of the parameters, converted to `unsigned int`.
unfoldable pub parameter_value : List ℕ → ℕ
unfolding strtoul
parameter_value [] = 0
parameter_value (ch ∷ text) = u32 (strtoul (ch ∷ text))

unfoldable pub select_style : Tracker → Tracker
unfolding shape_for parameter_value
select_style t =
    let style = shape_for (parameter_value t.parameters) t.style in
    if same_shape style t.style
    then record t { state = ground_state }
    else record t { state = ground_state; style = style; changes = u64 (t.changes + 1) }

-- Where a sequence that breaks off leaves the tracker.
abbrev pub restart : ℕ → SequenceState
restart ch = if ch == 0x1b then escape else ground_state

unfoldable pub step_csi : Tracker → ℕ → Tracker
step_csi t ch =
    if is_digit ch || (ch == b';')
    then if ltb (length t.parameters) 16
      then record t { parameters = t.parameters ++ ch ∷ [] }
      else t
    else if ch == b' '
    then record t { state = csi_intermediate }
    else record t { state = restart ch }

unfoldable pub step_in : SequenceState → Tracker → ℕ → Tracker
unfolding step_csi select_style
step_in ground_state t ch = if ch == 0x1b then record t { state = escape } else t
step_in escape t ch =
    if ch == b'['
    then record t { parameters = []; state = csi }
    else if ch == 0x1b
    then t
    else record t { state = ground_state }
step_in csi t ch = step_csi t ch
step_in csi_intermediate t ch =
    if ch == b'q' then select_style t else record t { state = restart ch }

unfoldable pub track_cursor_style : Tracker → List ℕ → Tracker
unfolding step_in
track_cursor_style t [] = t
track_cursor_style t (ch ∷ bytes) = track_cursor_style (step_in t.state t ch) bytes
