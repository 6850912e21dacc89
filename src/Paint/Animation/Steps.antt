-- ===== src/Paint/Animation/Steps.antt =====
-- Sequences of steps of the scroll shown by src/wx/terminal_renderer.cpp.
use sakura_wx_prototype.Prelude.{
  ℕ, ◌+◌, ◌-◌, ◌*◌, ◌≤◌, ◌<◌, min, max, ◌≡◌, refl, ◌⊎◌, inl, inr, Bool, true, false, not, Option,
  none, some, List, [], ◌∷◌, leb, ◌==◌, arith, if◌then◌else◌, if_cases,
}
use sakura_wx_prototype.Prelude.Int.{ℤ, magnitude}
use sakura_wx_prototype.Frame.Info.{FrameInfo}
use sakura_wx_prototype.Paint.Animation.{
  ScrollConfig, Animation, direction_of, cancel_scroll_animation, start_animation,
  begin_scroll_animation, move_to, complete, advance_scroll_animation,
}

-- A step: a frame begins a scroll, something cancels it, or time passes.
pub data AnimationEvent (A : Type 0) : Type 0 where
  begin : ℕ → ℕ → Bool → FrameInfo → Option (ℕ → A) → AnimationEvent A
  cancel : Bool → AnimationEvent A
  advance : ℕ → AnimationEvent A

-- A scroll that is shown has rows to come from, a distance that the progress has not passed, a
-- direction and a duration within its limit; if none is shown there is no direction.
abbrev pub IsShown : {A : Type 0} → ScrollConfig → Animation A → Type 0
IsShown config a =
    ((a.active ≡ false) × (magnitude a.direction ≡ 0))
    ⊎ ((a.active ≡ true)
        × (magnitude a.direction ≡ 1)
        × (0 < a.distance_px)
        × (a.progress_px ≤ a.distance_px)
        × (1 ≤ a.duration_ms)
        × (0 < config.scroll_animation_max_ms → a.duration_ms ≤ config.scroll_animation_max_ms))

-- Rounding a part of a whole gives no more than the whole.
abbrev pub RoundsWithin : (ℕ → ℕ → ℕ → ℕ) → Type 0
RoundsWithin rounded = (elapsed whole n : ℕ) → elapsed ≤ whole → rounded elapsed whole n ≤ n

direction_of-magnitude : (delta : ℤ) → magnitude (direction_of delta) ≡ 1
direction_of-magnitude delta = ground arith

not-true : (b : Bool) → not b ≡ true → b ≡ false
not-true true e = absurd (cc)
not-true false e = refl

not-false : (b : Bool) → not b ≡ false → b ≡ true
not-false true e = refl
not-false false e = absurd (cc)

module _ {A : Type 0} (config : ScrollConfig) where
  abbrev Kept : Animation A → Type 0
  Kept a = IsShown config a

  resting : (a : Animation A) → Kept a → a.active ≡ false → magnitude a.direction ≡ 0
  resting a (inl h) rest = h.1
  resting a (inr h) rest = absurd (ground arith)

  cancel-IsShown :
      (forced : Bool) (a : Animation A)
      → Kept a
      → Kept (cancel_scroll_animation forced a)
        × ((cancel_scroll_animation forced a).active ≡ false)
  unfolding cancel_scroll_animation
  cancel-IsShown forced a h =
      if_cases (λ b. Kept b × (b.active ≡ false)) (not a.active) a _
        (λ off. (h, not-true a.active off)) (λ on. (inl (refl, refl), refl))

  start-IsShown :
      (cell_height now : ℕ) (info : FrameInfo) (copy : Option (ℕ → A)) (a : Animation A)
      → Kept a
      → a.active ≡ false
      → Kept (start_animation config cell_height now info copy a)
  unfolding start_animation
  start-IsShown cell_height now info none a h rest = inl (rest, resting a h rest)
  start-IsShown cell_height now info (some copy) a h rest =
      if_cases Kept (magnitude info.scroll_delta * cell_height == 0) _ _
        (λ e. inl (rest, resting a h rest))
        (λ e. inr (
          refl,
          direction_of-magnitude info.scroll_delta,
          ground arith,
          omega arith,
          omega arith,
          λ limit. ground arith,
        ))

  begin-IsShown :
      (cell_height now : ℕ) (valid : Bool) (info : FrameInfo) (copy : Option (ℕ → A))
      (a : Animation A)
      → Kept a
      → Kept (begin_scroll_animation config cell_height now valid info copy a)
  unfolding begin_scroll_animation
  begin-IsShown cell_height now valid info copy a h =
      if_cases Kept _ a _ (λ e. h)
        (λ e.
          let (kept, off) =
            if_cases (λ b. Kept b × (b.active ≡ false)) a.active (cancel_scroll_animation true a) a
              (λ on. cancel-IsShown true a h) (λ off. (h, off)) in
          start-IsShown cell_height now info copy
            (if a.active then cancel_scroll_animation true a else a) kept off)

  move_to-IsShown :
      (progress : ℕ) (a : Animation A)
      → Kept a
      → progress ≤ a.distance_px
      → Kept (move_to progress a)
  unfolding move_to
  move_to-IsShown progress a h short =
      if_cases Kept (progress == a.progress_px) a _ (λ e. h)
        (λ e. elim h [ inl off ↦ inl off | inr on ↦ inr (on.0, on.1, on.2, short, on.4, on.5) ])

  module _ (rounded : ℕ → ℕ → ℕ → ℕ) (within : RoundsWithin rounded) where
    advance-IsShown :
        (now : ℕ) (a : Animation A) → Kept a → Kept (advance_scroll_animation rounded now a).1
    unfolding advance_scroll_animation complete
    advance-IsShown now a h =
        let whole = max 1 a.duration_ms * 1000 in
        let elapsed = min (now - a.started) whole in
        let short = within elapsed whole a.distance_px (omega arith) in
        if_cases (λ (r : Bool × Animation A). Kept r.1) (not a.active) (false, a) _ (λ off. h)
          (λ on.
            if_cases (λ (r : Bool × Animation A). Kept r.1) (leb whole elapsed) _ _
              (λ e. inl (refl, refl))
              (λ e. move_to-IsShown (rounded elapsed whole a.distance_px) a h short))

advance-ends :
    {A : Type 0} (rounded : ℕ → ℕ → ℕ → ℕ) (a : Animation A) (now : ℕ)
    → a.started + max 1 a.duration_ms * 1000 ≤ now
    → (advance_scroll_animation rounded now a).1.active ≡ false
unfolding advance_scroll_animation complete
advance-ends {A = A} rounded a now late =
    let whole = max 1 a.duration_ms * 1000 in
    let elapsed = min (now - a.started) whole in
    let over : whole ≤ elapsed = omega arith in
    if_cases (λ (r : Bool × Animation A). r.1.active ≡ false) (not a.active) (false, a) _
      (λ off. not-true a.active off)
      (λ on.
        if_cases (λ (r : Bool × Animation A). r.1.active ≡ false) (leb whole elapsed) _ _
          (λ e. refl) (λ e. absurd (ground arith)))

-- The state after the steps.
unfoldable pub animate :
    {A : Type 0}
    → ScrollConfig
    → (ℕ → ℕ → ℕ → ℕ)
    → List (AnimationEvent A)
    → Animation A
    → Animation A
animate config rounded [] a = a
animate config rounded (begin cell_height now valid info copy ∷ events) a =
    animate config rounded events (begin_scroll_animation config cell_height now valid info copy a)
animate config rounded (cancel forced ∷ events) a =
    animate config rounded events (cancel_scroll_animation forced a)
animate config rounded (advance now ∷ events) a =
    animate config rounded events (advance_scroll_animation rounded now a).1

-- Under any steps, begun, cancelled or moved on by time, if rounding a part of a distance gives no more
-- than the distance: a scroll that is shown has a direction, a distance above 0 that its progress never
-- passes, and a duration of at least a millisecond and at most the limit, if there is one; and when none is
-- shown there is no direction. It has ended by the first step in time that its duration has passed.
pub animate-IsShown :
    {A : Type 0} (config : ScrollConfig) (rounded : ℕ → ℕ → ℕ → ℕ)
    (events : List (AnimationEvent A)) (a : Animation A) (now : ℕ)
    → RoundsWithin rounded
    → IsShown config a
    → let last = animate config rounded events a in
      IsShown config last
      × (last.started + max 1 last.duration_ms * 1000 ≤ now
          → (advance_scroll_animation rounded now last).1.active ≡ false)
unfolding animate
animate-IsShown config rounded [] a now within h = (h, λ late. advance-ends rounded a now late)
animate-IsShown config rounded (begin cell_height at valid info copy ∷ events) a now within h =
    animate-IsShown config rounded events _ now within
      (begin-IsShown config cell_height at valid info copy a h)
animate-IsShown config rounded (cancel forced ∷ events) a now within h =
    animate-IsShown config rounded events _ now within (cancel-IsShown config forced a h).0
animate-IsShown config rounded (advance at ∷ events) a now within h =
    animate-IsShown config rounded events _ now within
      (advance-IsShown config rounded within at a h)
