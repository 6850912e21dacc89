-- ===== src/CursorStyle/Sequence.antt =====
-- What byte sequences do to the cursor style tracker of src/terminal_core.cpp.
use sakura_wx_prototype.Prelude.{
  ℕ, ◌+◌, ◌-◌, ◌*◌, ◌≤◌, ◌≡◌, refl, ◌∙◌, ◌≢◌, List, [], ◌∷◌, arith, length, length-append, All,
  if◌then◌else◌,
}
use sakura_wx_prototype.Prelude.Word.{u64}
use sakura_wx_prototype.CursorStyle.{
  SequenceState, ground_state, escape, csi, csi_intermediate, Shape, Tracker, same_shape, shape_for,
  step_in, track_cursor_style,
}

abbrev pub IsDigit : ℕ → Type 0
IsDigit ch = (b'0' ≤ ch) × (ch ≤ b'9')

-- The number that decimal digits write.
pub decimal : ℕ → List ℕ → ℕ
decimal value [] = value
decimal value (ch ∷ text) = decimal (value * 10 + (ch - b'0')) text

abbrev collecting : List ℕ → Shape → ℕ → Tracker
collecting ps style changes = record {
  state = csi;
  parameters = ps;
  style = style;
  changes = changes;
}

-- The tracker after a complete sequence that carried the number `value`.
abbrev pub selected : Tracker → List ℕ → ℕ → Tracker
selected t ds value = record {
  state = ground_state;
  parameters = ds;
  style = shape_for value t.style;
  changes = if same_shape (shape_for value t.style) t.style then t.changes else u64 (t.changes + 1);
}

step_in_bound :
    (s : SequenceState) (t : Tracker) (ch : ℕ)
    → length t.parameters ≤ 16
    → length (step_in s t ch).parameters ≤ 16
unfolding step_in
step_in_bound ground_state t ch h = ground arith
step_in_bound escape t ch h = ground arith
step_in_bound csi t ch h = ground (arith, length-append t.parameters (ch ∷ []))
step_in_bound csi_intermediate t ch h = ground arith

step_in_quiet :
    (s : SequenceState) (t : Tracker) (ch : ℕ)
    → ch ≢ b'q'
    → ((step_in s t ch).style ≡ t.style) × ((step_in s t ch).changes ≡ t.changes)
unfolding step_in
step_in_quiet ground_state t ch h = ground arith
step_in_quiet escape t ch h = ground arith
step_in_quiet csi t ch h = ground arith
step_in_quiet csi_intermediate t ch h = ground arith

-- Whatever bytes come, a tracker with at most 16 parameter bytes never stores more than 16.
pub track_bound :
    (t : Tracker) (bytes : List ℕ)
    → length t.parameters ≤ 16
    → length (track_cursor_style t bytes).parameters ≤ 16
unfolding track_cursor_style
track_bound t [] h = h
track_bound t (ch ∷ bytes) h =
    track_bound (step_in t.state t ch) bytes (step_in_bound t.state t ch h)

-- Output without the byte `q` leaves the cursor style and its counter alone.
pub track_quiet :
    (t : Tracker) (bytes : List ℕ)
    → All (λ ch. ch ≢ b'q') bytes
    → ((track_cursor_style t bytes).style ≡ t.style)
      × ((track_cursor_style t bytes).changes ≡ t.changes)
unfolding track_cursor_style
track_quiet t [] h = (refl, refl)
track_quiet t (ch ∷ bytes) h =
    let now = step_in_quiet t.state t ch h.0 in
    let later = track_quiet (step_in t.state t ch) bytes h.1 in (later.0 ∙ now.0, later.1 ∙ now.1)
