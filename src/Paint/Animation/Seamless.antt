-- ===== src/Paint/Animation/Seamless.antt =====
-- What a scroll in steps shows in src/wx/terminal_renderer.cpp.
use sakura_wx_prototype.Prelude.{
  ℕ, ◌+◌, ◌-◌, ◌≤◌, ◌<◌, min, ◌≡◌, ap, ◌∙◌, inl, inr, Bool-cases, leb, ltb, arith,
}
use sakura_wx_prototype.Prelude.Int.{pos_part}
use sakura_wx_prototype.Paint.Animation.{Animation, draw_scroll_animation}

-- The rows of a picture from an offset on are those of the bitmap.
abbrev pub IsWindowOf : {A : Type 0} → (ℕ → A) → ℕ → ℕ → (ℕ → A) → Type 0
IsWindowOf picture offset rows bitmap = (y : ℕ) → y < rows → bitmap y ≡ picture (y + offset)

zero_more : (n : ℕ) → n + 0 ≡ n
zero_more n = omega arith

module _ {A : Type 0} (background : A) (picture framebuffer source : ℕ → A) (height grid_height : ℕ)
    (a : Animation A) (inside : grid_height ≤ height) (short : a.distance_px ≤ grid_height)
    (progress : a.progress_px ≤ a.distance_px) where
  draw_upward :
      (y : ℕ)
      → y < grid_height
      → 0 < pos_part a.direction
      → IsWindowOf picture 0 grid_height source
      → IsWindowOf picture a.distance_px grid_height framebuffer
      → draw_scroll_animation background framebuffer source height grid_height a y
        ≡ picture (y + a.progress_px)
  unfolding draw_scroll_animation
  draw_upward y inside_y up old new =
      let p = a.progress_px in
      let full : min p (min a.distance_px grid_height) ≡ p = omega arith in
      elim (Bool-cases (leb (grid_height - p) y)) [
        | inl new_part ↦
            let place : y - (a.distance_px - p) + a.distance_px ≡ y + p = ground arith in
            let shows = new (y - (a.distance_px - p)) (omega arith) ∙ ap picture place in
            rw full (ground (arith, shows))
        | inr old_part ↦
            let shows = old (y + p) (ground arith) ∙ ap picture (zero_more (y + p)) in
            rw full (ground (arith, shows))
      ]

  draw_downward :
      (y : ℕ)
      → y < grid_height
      → pos_part a.direction ≡ 0
      → IsWindowOf picture a.distance_px grid_height source
      → IsWindowOf picture 0 grid_height framebuffer
      → draw_scroll_animation background framebuffer source height grid_height a y
        ≡ picture (y + (a.distance_px - a.progress_px))
  unfolding draw_scroll_animation
  draw_downward y inside_y down old new =
      let p = a.progress_px in
      let left = a.distance_px - p in
      let full : min p (min a.distance_px grid_height) ≡ p = omega arith in
      elim (Bool-cases (ltb y p)) [
        | inl new_part ↦
            let shows = new (y + left) (ground arith) ∙ ap picture (zero_more (y + left)) in
            rw full (ground (arith, shows))
        | inr old_part ↦
            let place : y - p + a.distance_px ≡ y + left = ground arith in
            let shows = old (y - p) (omega arith) ∙ ap picture place in
            rw full (ground (arith, shows))
      ]

-- While a scroll of at most the grid's height is shown, the window shows the picture moved by exactly
-- the progress, without a gap or a jump: if upward, the old rows are the picture's from the start
-- and the new ones those from the distance on, and a row shows the picture's row that is the progress
-- further; if downward, the old rows are those from the distance on, the new ones from the start, and a
-- row shows the one that is further by what is left of the distance.
pub draw_scroll_animation-seamless :
    {A : Type 0} (background : A) (picture framebuffer source : ℕ → A) (height grid_height y : ℕ)
    (a : Animation A)
    → grid_height ≤ height
    → a.distance_px ≤ grid_height
    → a.progress_px ≤ a.distance_px
    → y < grid_height
    → (0 < pos_part a.direction
        → IsWindowOf picture 0 grid_height source
        → IsWindowOf picture a.distance_px grid_height framebuffer
        → draw_scroll_animation background framebuffer source height grid_height a y
          ≡ picture (y + a.progress_px))
      × (pos_part a.direction ≡ 0
          → IsWindowOf picture a.distance_px grid_height source
          → IsWindowOf picture 0 grid_height framebuffer
          → draw_scroll_animation background framebuffer source height grid_height a y
            ≡ picture (y + (a.distance_px - a.progress_px)))
draw_scroll_animation-seamless background picture framebuffer source height grid_height y a inside
      short progress inside_y =
    (
      draw_upward background picture framebuffer source height grid_height a inside short progress y
          inside_y,
      draw_downward background picture framebuffer source height grid_height a inside short progress
          y inside_y,
    )
