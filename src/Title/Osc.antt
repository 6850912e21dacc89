-- ===== src/Title/Osc.antt =====
-- What `VteOsc` of src/terminal_core.cpp makes of a payload.
use sakura_wx_prototype.Prelude.{
  ℕ, ◌+◌, ◌<◌, ◌≡◌, refl, ap, ◌≢◌, ◌⊎◌, inl, inr, true, false, ◌==◌, Bool-cases, List, [], ◌∷◌,
  ◌++◌, none, some, arith, length, length-append, All,
}
use sakura_wx_prototype.Prelude.Word.{u64}
use sakura_wx_prototype.Title.{TitleState, split_sequence, is_title_command, vte_osc}

abbrev pub NoSeparator : List ℕ → Type 0
NoSeparator = All λ ch. ch ≢ b';'

split-append :
    (command value : List ℕ)
    → NoSeparator command
    → split_sequence (command ++ b';' ∷ value) ≡ some (command, value)
unfolding split_sequence
split-append [] value h = refl
split-append (ch ∷ command) value h = ground (arith, split-append command value h.1)

split-none : (sequence : List ℕ) → NoSeparator sequence → split_sequence sequence ≡ none
unfolding split_sequence
split-none [] h = refl
split-none (ch ∷ sequence) h = ground (arith, split-none sequence h.1)

title_commands :
    (command : List ℕ)
    → (((command ≡ b'0' ∷ []) ⊎ (command ≡ b'1' ∷ []) ⊎ (command ≡ b'2' ∷ []))
        × (is_title_command command ≡ true))
      ⊎ (((command ≢ b'0' ∷ []) × (command ≢ b'1' ∷ []) × (command ≢ b'2' ∷ []))
          × (is_title_command command ≡ false))
unfolding is_title_command
title_commands [] = inr (((λ e. absurd (cc)), (λ e. absurd (cc)), (λ e. absurd (cc))), refl)
title_commands (ch ∷ next ∷ command) =
    inr (((λ e. ground arith), (λ e. ground arith), (λ e. ground arith)), refl)
title_commands (ch ∷ []) = elim (Bool-cases (ch == b'0')) [
  | inl e ↦ let same : ch ≡ b'0' = ground arith in inl (inl (ap (λ c. c ∷ []) same), ground arith)
  | inr not_zero ↦ elim (Bool-cases (ch == b'1')) [
    | inl e ↦
        let same : ch ≡ b'1' = ground arith in inl (inr (inl (ap (λ c. c ∷ []) same)), ground arith)
    | inr not_one ↦ elim (Bool-cases (ch == b'2')) [
      | inl e ↦
          let same : ch ≡ b'2' = ground arith in
          inl (inr (inr (ap (λ c. c ∷ []) same)), ground arith)
      | inr not_two ↦
          inr (((λ e. ground arith), (λ e. ground arith), (λ e. ground arith)), ground arith)
    ]
  ]
]

-- A payload `command;value`, with no semicolon in the command and with either of them not empty,
-- whose command is the byte `0`, `1` or `2` makes the value, semicolons and all, the title, and counts
-- one change; with any other command nothing changes.
pub vte_osc_command :
    (s : TitleState) (command value : List ℕ)
    → NoSeparator command
    → 0 < length command + length value
    → let after = vte_osc s (some (command ++ b';' ∷ value)) in
      (((command ≡ b'0' ∷ []) ⊎ (command ≡ b'1' ∷ []) ⊎ (command ≡ b'2' ∷ []))
        × (after ≡ record { title = value; title_changes = u64 (s.title_changes + 1) }))
      ⊎ ((command ≢ b'0' ∷ []) × (command ≢ b'1' ∷ []) × (command ≢ b'2' ∷ []) × (after ≡ s))
unfolding vte_osc
vte_osc_command s command value h long =
    let enough = length-append command (b';' ∷ value) in
    let split = split-append command value h in
    elim (title_commands command) [
      | inl (which, e) ↦ inl (which, ground (arith, enough, split, e))
      | inr (none_of, e) ↦ inr (none_of.0, none_of.1, none_of.2, ground (arith, enough, split, e))
    ]

-- A payload without a semicolon, or none at all, changes nothing.
pub vte_osc_malformed :
    (s : TitleState) (sequence : List ℕ)
    → NoSeparator sequence
    → (vte_osc s (some sequence) ≡ s) × (vte_osc s none ≡ s)
unfolding vte_osc
vte_osc_malformed s sequence h = ground (arith, split-none sequence h)
