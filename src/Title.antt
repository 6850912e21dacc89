-- ===== src/Title.antt =====
-- The window title of src/terminal_core.cpp: `VteOsc`, which libtsm calls with the payload of an
-- operating system command. A null pointer is `none`.
pub mod Osc
use sakura_wx_prototype.Prelude.{
  ℕ, ◌+◌, Bool, false, ◌||◌, List, [], ◌∷◌, Option, none, some, ltb, ◌==◌, if◌then◌else◌, length,
}
use sakura_wx_prototype.Prelude.Word.{u64}

pub record TitleState : Type 0 where
  pub title : List ℕ
  pub title_changes : ℕ

-- `sequence.find(';')` with the two `substr` calls: what stands before and behind the first one.
unfoldable pub split_sequence : List ℕ → Option (List ℕ × List ℕ)
split_sequence [] = none
split_sequence (ch ∷ sequence) =
    if ch == b';' then some ([], sequence) else elim (split_sequence sequence) [
      | none ↦ none
      | some (command, value) ↦ some (ch ∷ command, value)
    ]

-- `command == "0" || command == "1" || command == "2"`.
unfoldable pub is_title_command : List ℕ → Bool
is_title_command [] = false
is_title_command (ch ∷ []) = (ch == b'0') || (ch == b'1') || (ch == b'2')
is_title_command (ch ∷ next ∷ command) = false

unfoldable pub osc_sequence : TitleState → List ℕ → TitleState
unfolding split_sequence is_title_command
osc_sequence s sequence = elim (split_sequence sequence) [
  | none ↦ s
  | some (command, value) ↦
      if is_title_command command
      then record { title = value; title_changes = u64 (s.title_changes + 1) }
      else s
]

unfoldable pub vte_osc : TitleState → Option (List ℕ) → TitleState
unfolding osc_sequence
vte_osc s none = s
vte_osc s (some sequence) = if ltb (length sequence) 2 then s else osc_sequence s sequence
