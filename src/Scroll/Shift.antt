-- ===== src/Scroll/Shift.antt =====
-- `DetectFullScreenShift` of src/terminal_core.cpp against what a shift of the screen is.
use mathlib.Core.Path.{subst}
use sakura_wx_prototype.Prelude.{
  ℕ, zero, suc, ◌+◌, ◌-◌, ◌≤◌, ◌<◌, ◌≡◌, refl, sym, ◌↔◌, inl, inr, Bool, true, ◌&&◌, List, arith,
  ltb, ◌==◌, length, get_or, Bool-cases,
}
use sakura_wx_prototype.Prelude.Int.{ℤ, pos, negsuc}
use sakura_wx_prototype.Scroll.{compare_rows, try_deltas, detect_full_screen_shift}

module _ (previous_lines : List ℕ) (height : ℕ) (row_id : ℕ → ℕ) where
  -- Every row now shows the line that stood `delta` rows below it.
  abbrev pub MovedUp : ℕ → Type 0
  MovedUp delta =
      (row : ℕ) → row + delta < height → row_id row ≡ get_or previous_lines (row + delta) 0

  -- Every row below now shows the line that stood `delta` rows above it.
  abbrev pub MovedDown : ℕ → Type 0
  MovedDown delta =
      (row : ℕ) → row + delta < height → row_id (row + delta) ≡ get_or previous_lines row 0

  all_up : ℕ → ℕ → ℕ → Bool
  all_up zero row delta = true
  all_up (suc count) row delta =
      (row_id row == get_or previous_lines (row + delta) 0) && all_up count (row + 1) delta

  all_down : ℕ → ℕ → ℕ → Bool
  all_down zero row delta = true
  all_down (suc count) row delta =
      (row_id (row + delta) == get_or previous_lines row 0) && all_down count (row + 1) delta

  -- Leaving the loop early changes no flag.
  compare_rows_lem :
      (count row delta : ℕ) (moved_up moved_down : Bool)
      → compare_rows previous_lines height row_id count row delta moved_up moved_down
        ≡ (moved_up && all_up count row delta, moved_down && all_down count row delta)
  unfolding compare_rows all_up all_down
  compare_rows_lem zero row delta up down = ground arith
  compare_rows_lem (suc count) row delta up down = ground (
    arith,
    compare_rows_lem count (row + 1) delta
        (up && (row_id row == get_or previous_lines (row + delta) 0))
        (down && (row_id (row + delta) == get_or previous_lines row 0)),
  )

  all_up_iff :
      (count row delta : ℕ)
      → (all_up count row delta ≡ true)
        ↔ ((r : ℕ) → row ≤ r → r < row + count → row_id r ≡ get_or previous_lines (r + delta) 0)
  unfolding all_up
  all_up_iff zero row delta = (λ e r lo hi. absurd (omega arith), λ h. refl)
  all_up_iff (suc count) row delta =
      let ih = all_up_iff count (row + 1) delta in
      (
        λ e r lo hi. elim (Bool-cases (r == row)) [
          | inl here ↦ ground arith
          | inr later ↦ ih.0 (ground arith) r (ground arith) (omega arith)
        ],
        λ h. ground (
          arith,
          h row (omega arith) (omega arith),
          ih.1 (λ r lo hi. h r (omega arith) (omega arith)),
        ),
      )

  all_down_iff :
      (count row delta : ℕ)
      → (all_down count row delta ≡ true)
        ↔ ((r : ℕ) → row ≤ r → r < row + count → row_id (r + delta) ≡ get_or previous_lines r 0)
  unfolding all_down
  all_down_iff zero row delta = (λ e r lo hi. absurd (omega arith), λ h. refl)
  all_down_iff (suc count) row delta =
      let ih = all_down_iff count (row + 1) delta in
      (
        λ e r lo hi. elim (Bool-cases (r == row)) [
          | inl here ↦ ground arith
          | inr later ↦ ih.0 (ground arith) r (ground arith) (omega arith)
        ],
        λ h. ground (
          arith,
          h row (omega arith) (omega arith),
          ih.1 (λ r lo hi. h r (omega arith) (omega arith)),
        ),
      )

  MovedUp-iff :
      (delta : ℕ) → delta ≤ height → (all_up (height - delta) 0 delta ≡ true) ↔ MovedUp delta
  MovedUp-iff delta small =
      let all = all_up_iff (height - delta) 0 delta in
      (
        λ e r inside. all.0 e r (omega arith) (omega arith),
        λ h. all.1 (λ r lo hi. h r (omega arith)),
      )

  MovedDown-iff :
      (delta : ℕ) → delta ≤ height → (all_down (height - delta) 0 delta ≡ true) ↔ MovedDown delta
  MovedDown-iff delta small =
      let all = all_down_iff (height - delta) 0 delta in
      (
        λ e r inside. all.0 e r (omega arith) (omega arith),
        λ h. all.1 (λ r lo hi. h r (omega arith)),
      )

  -- No distance from `low` on and below `high` is a shift, in either direction.
  abbrev pub NoShift : ℕ → ℕ → Type 0
  NoShift low high = (delta : ℕ) → low ≤ delta → delta < high → ¬ MovedUp delta × ¬ MovedDown delta

  -- What the answer `n` says of the distances from `low` on: a positive one is the least shift and
  -- goes up; a negative one is the least shift, goes down and not up as well; 0 is no shift at all.
  abbrev pub IsShift : ℕ → ℤ → Type 0
  IsShift low (pos zero) = NoShift low height
  IsShift low (pos (suc n)) =
      (low ≤ suc n) × (suc n < height) × MovedUp (suc n) × NoShift low (suc n)
  IsShift low (negsuc n) =
      (low ≤ suc n) × (suc n < height) × MovedDown (suc n) × ¬ MovedUp (suc n) × NoShift low (suc n)

  IsShift-later :
      (low : ℕ) (answer : ℤ)
      → ¬ MovedUp low
      → ¬ MovedDown low
      → IsShift (suc low) answer
      → IsShift low answer
  IsShift-later low (pos zero) up down h = later
    where
      later : NoShift low height
      later delta lo hi = elim (Bool-cases (delta == low)) [
        | inl here ↦ let e : delta ≡ low = ground arith in rw e (up, down)
        | inr after ↦ h delta (ground arith) hi
      ]
  IsShift-later low (pos (suc n)) up down (lo, inside, m, none) = (omega arith, inside, m, later)
    where
      later : NoShift low (suc n)
      later delta lo hi = elim (Bool-cases (delta == low)) [
        | inl here ↦ let e : delta ≡ low = ground arith in rw e (up, down)
        | inr after ↦ none delta (ground arith) hi
      ]
  IsShift-later low (negsuc n) up down (lo, inside, m, not_up, none) =
      (omega arith, inside, m, not_up, later)
    where
      later : NoShift low (suc n)
      later delta lo hi = elim (Bool-cases (delta == low)) [
        | inl here ↦ let e : delta ≡ low = ground arith in rw e (up, down)
        | inr after ↦ none delta (ground arith) hi
      ]

  nothing_below : (low : ℕ) → NoShift low low
  nothing_below low delta lo hi = absurd (omega arith)

  try_deltas-IsShift :
      (count low : ℕ)
      → suc low + count ≡ height
      → IsShift (suc low) (try_deltas previous_lines height row_id count (suc low))
  unfolding try_deltas
  try_deltas-IsShift zero low e = λ delta lo hi. absurd (omega arith)
  try_deltas-IsShift (suc count) low e =
      let delta : ℕ = suc low in
      let up = MovedUp-iff delta (omega arith) in
      let down = MovedDown-iff delta (omega arith) in
      let back : suc low - 1 ≡ low = omega arith in
      let next : suc low + 1 ≡ suc (suc low) = omega arith in
      let moved = compare_rows_lem (height - delta) 0 delta true true in
      elim (Bool-cases (all_up (height - delta) 0 delta)) [
        | inl u ↦ rw (moved, u) (omega arith, omega arith, up.0 u, nothing_below delta)
        | inr u ↦ elim (Bool-cases (all_down (height - delta) 0 delta)) [
          | inl d ↦
              rw (moved, u, d)
                (subst (λ n. IsShift (suc low) (negsuc n)) (sym back)
                  (omega arith, omega arith, down.0 d, λ m. cc (u, up.1 m), nothing_below delta))
          | inr d ↦
              rw (moved, u, d, next)
                (IsShift-later delta _ (λ m. cc (u, up.1 m)) (λ m. cc (d, down.1 m))
                  (try_deltas-IsShift count (suc low) (omega arith)))
        ]
      ]

  -- For as many old lines as the screen has rows, `DetectFullScreenShift` answers 0 exactly if no distance from 1 on shifts the old lines into the
  -- screen, and otherwise the least such distance, negative for a shift down that is not also a
  -- shift up.
  pub detect-IsShift :
      length previous_lines ≡ height
      → IsShift 1 (detect_full_screen_shift previous_lines height row_id)
  unfolding detect_full_screen_shift
  detect-IsShift same =
      let size : (length previous_lines == height) ≡ true = ground arith in
      elim (Bool-cases (ltb height 2)) [
        | inl small ↦ rw (size, small) (λ delta lo hi. absurd (ground arith))
        | inr big ↦ rw (size, big) (try_deltas-IsShift (height - 1) 0 (ground arith))
      ]
