-- ===== src/Scroll/Observe.antt =====
-- What `ObserveScreenScroll` of src/terminal_core.cpp remembers and adds up.
use sakura_wx_prototype.Prelude.{
  ℕ, zero, suc, ◌+◌, ◌<◌, ◌≡◌, ◌≢◌, ◌≤◌, refl, ap, ◌∙◌, Bool, true, false, ◌⊎◌, inl, inr, List,
  some, arith, length, get_elem?, Bool-cases,
}
use sakura_wx_prototype.Prelude.Int.{ℤ, ◌+ℤ◌}
use sakura_wx_prototype.Scroll.{
  LineView, Observation, detect_full_screen_shift, lines_from, reset_observation, same_screen,
  is_comparable, observe_screen_scroll,
}
use sakura_wx_prototype.Scroll.Shift.{IsShift, detect-IsShift}

pub length-lines_from :
    (row_id : ℕ → ℕ) (count row : ℕ) → length (lines_from row_id count row) ≡ count
unfolding lines_from
length-lines_from row_id zero row = refl
length-lines_from row_id (suc count) row = ap suc (length-lines_from row_id count (row + 1))

get_elem?-lines_from :
    (row_id : ℕ → ℕ) (count row i : ℕ)
    → i < count
    → get_elem? (lines_from row_id count row) i ≡ some (row_id (row + i))
unfolding lines_from
get_elem?-lines_from row_id zero row i h = absurd (omega arith)
get_elem?-lines_from row_id (suc count) row zero h = ap (λ n. some (row_id n)) (omega arith)
get_elem?-lines_from row_id (suc count) row (suc i) h =
    get_elem?-lines_from row_id count (row + 1) i (omega arith)
    ∙ ap (λ n. some (row_id n)) (omega arith)

-- The observation is of the screen: its lines, in order, and which screen it is.
abbrev pub IsOf : LineView → Observation → Type 0
IsOf view o =
    (length o.observed_lines ≡ view.height)
    × ((row : ℕ) → row < view.height → get_elem? o.observed_lines row ≡ some (view.row_id row))
    × (o.observed_alternate_screen ≡ view.alternate)

-- The screen is the same one, main or alternate, as before and is not scrolled back, and the distance
-- by which the old lines were shifted is added to the pending scroll; or it is another screen or one
-- that is scrolled back, and the pending scroll stays.
abbrev pub AddsShift : LineView → List ℕ → Bool → Observation → Observation → Type 0
AddsShift view previous_lines previous_alternate before after =
    ((view.alternate ≡ previous_alternate)
      × (view.line_count ≤ view.line_pos)
      × ((delta : ℤ) × IsShift previous_lines view.height view.row_id 1 delta
          × (after.pending_content_scroll_delta ≡ before.pending_content_scroll_delta +ℤ delta)))
    ⊎ (((view.alternate ≢ previous_alternate) ⊎ (view.line_pos < view.line_count))
        × (after.pending_content_scroll_delta ≡ before.pending_content_scroll_delta))

same_screen-eq : (a b : Bool) → same_screen a b ≡ true → b ≡ a
unfolding same_screen
same_screen-eq true true e = refl
same_screen-eq false false e = refl
same_screen-eq true false e = absurd (cc)
same_screen-eq false true e = absurd (cc)

same_screen-ne : (a b : Bool) → same_screen a b ≡ false → b ≢ a
unfolding same_screen
same_screen-ne true true e = absurd (cc)
same_screen-ne false false e = absurd (cc)
same_screen-ne true false e = λ q. cc
same_screen-ne false true e = λ q. cc

comparable-true :
    (view : LineView) (previous_alternate : Bool)
    → is_comparable view previous_alternate ≡ true
    → (view.alternate ≡ previous_alternate) × (view.line_count ≤ view.line_pos)
comparable-true view previous_alternate e =
    (same_screen-eq previous_alternate view.alternate (ground arith), ground arith)

comparable-false :
    (view : LineView) (previous_alternate : Bool)
    → is_comparable view previous_alternate ≡ false
    → (view.alternate ≢ previous_alternate) ⊎ (view.line_pos < view.line_count)
comparable-false view previous_alternate e =
    elim (Bool-cases (same_screen previous_alternate view.alternate)) [
      | inl same ↦ inr (ground arith)
      | inr other ↦ inl (same_screen-ne previous_alternate view.alternate other)
    ]

-- For as many old lines as the screen has rows, `ObserveScreenScroll` leaves an observation of the
-- screen; and it adds to the pending scroll the distance by which the old lines were shifted, or
-- leaves it when the screens differ or the screen is scrolled back.
pub observe_screen_scroll-IsOf :
    (view : LineView) (previous_lines : List ℕ) (previous_alternate : Bool) (o : Observation)
    → length previous_lines ≡ view.height
    → IsOf view (observe_screen_scroll view previous_lines previous_alternate o)
      × AddsShift view previous_lines previous_alternate o
          (observe_screen_scroll view previous_lines previous_alternate o)
unfolding observe_screen_scroll reset_observation
observe_screen_scroll-IsOf view previous_lines previous_alternate o same = (
  (length-lines_from view.row_id view.height 0, lines, refl),
  elim (Bool-cases (is_comparable view previous_alternate)) [
    | inl e ↦
        let shift = detect-IsShift previous_lines view.height view.row_id same in
        let delta : ℤ = detect_full_screen_shift previous_lines view.height view.row_id in
        let (kept, bottom) = comparable-true view previous_alternate e in
        rw e (inl (kept, bottom, (delta, shift, refl)))
    | inr e ↦ rw e (inr (comparable-false view previous_alternate e, refl))
  ],
)
  where
    lines :
        (row : ℕ)
        → row < view.height
        → get_elem? (lines_from view.row_id view.height 0) row ≡ some (view.row_id row)
    lines row h =
        get_elem?-lines_from view.row_id view.height 0 row h
        ∙ ap (λ n. some (view.row_id n)) (omega arith)
