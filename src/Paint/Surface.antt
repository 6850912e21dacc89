-- ===== src/Paint/Surface.antt =====
-- `ScrollFramebuffer` of src/wx/terminal_renderer.cpp by cells, for cells with a width and a height. A
-- picture says what each cell of the window's grid shows; the pixels of one cell are moved together.
pub mod Shows
use sakura_wx_prototype.Prelude.{ℕ, ◌+◌, ◌-◌, min, ◌&&◌, ◌||◌, leb, ltb, ◌==◌, if◌then◌else◌}
use sakura_wx_prototype.Prelude.Int.{ℤ, pos_part, magnitude}

-- What is shown at a column and a row.
abbrev pub Picture : Type 0 → Type 0
Picture A = ℕ → ℕ → A

module _ {A : Type 0} where
  -- A block copy inside the picture: `count` rows of that many columns, from one row to another.
  abbrev pub blit : ℕ → ℕ → ℕ → ℕ → Picture A → Picture A
  blit columns count target source picture x y =
      if ltb x columns && leb target y && ltb y (target + count)
      then picture x (y - target + source)
      else picture x y

  unfoldable pub scroll_framebuffer : ℤ → ℕ → ℕ → Picture A → Picture A
  scroll_framebuffer delta columns rows picture =
      let distance = min (magnitude delta) rows in
      if (magnitude delta == 0) || (columns == 0) || (rows == 0) || leb rows distance
      then picture
      else if ltb 0 (pos_part delta)
      then blit columns (rows - distance) 0 distance picture
      else blit columns (rows - distance) distance 0 picture
