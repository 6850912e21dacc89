-- ===== src/Paint/Surface/Shows.antt =====
-- What a framebuffer of src/wx/terminal_renderer.cpp shows after it was moved.
use sakura_wx_prototype.Prelude.{
  ℕ, suc, ◌+◌, ◌-◌, ◌<◌, ◌≤◌, min, ◌≡◌, ap, ◌⊎◌, inl, inr, leb, ltb, arith, Bool-cases,
}
use sakura_wx_prototype.Prelude.Int.{ℤ, pos, negsuc, pos_part, neg_part}
use sakura_wx_prototype.Paint.Surface.{Picture, scroll_framebuffer}

-- Row `z` lies `delta` rows below row `y`, above it for a negative `delta`.
abbrev pub IsBelow : ℤ → ℕ → ℕ → Type 0
IsBelow delta y z = y + pos_part delta ≡ z + neg_part delta

module _ {A : Type 0} (columns rows : ℕ) (picture : Picture A) (x y : ℕ) where
  scroll_framebuffer-row :
      (delta : ℤ) (z : ℕ)
      → x < columns
      → y < rows
      → z < rows
      → IsBelow delta y z
      → scroll_framebuffer delta columns rows picture x y ≡ picture x z
  unfolding scroll_framebuffer
  scroll_framebuffer-row (pos d) z inside_x inside_y inside_z e =
      let row : z ≡ y + d = omega arith in rw row (ground (arith, ap (picture x) row))
  scroll_framebuffer-row (negsuc d) z inside_x inside_y inside_z e =
      let back : y - min (suc d) rows + 0 ≡ z = omega arith in ground (arith, ap (picture x) back)

  scroll_framebuffer-outside :
      (delta : ℤ)
      → (columns ≤ x) ⊎ (rows ≤ y)
      → scroll_framebuffer delta columns rows picture x y ≡ picture x y
  unfolding scroll_framebuffer
  scroll_framebuffer-outside (pos d) (inl out) = ground arith
  scroll_framebuffer-outside (pos d) (inr out) = ground arith
  scroll_framebuffer-outside (negsuc d) (inl out) = ground arith
  scroll_framebuffer-outside (negsuc d) (inr out) = ground arith

  scroll_framebuffer-uncovered :
      (delta : ℤ)
      → (y + pos_part delta < neg_part delta) ⊎ (rows + neg_part delta ≤ y + pos_part delta)
      → scroll_framebuffer delta columns rows picture x y ≡ picture x y
  unfolding scroll_framebuffer
  scroll_framebuffer-uncovered (pos d) (inl before) = ground arith
  scroll_framebuffer-uncovered (pos d) (inr behind) = ground arith
  scroll_framebuffer-uncovered (negsuc d) (inl before) = ground arith
  scroll_framebuffer-uncovered (negsuc d) (inr behind) = ground arith

  -- After `ScrollFramebuffer` a cell of the grid shows what the picture showed `delta` rows below it,
  -- where the grid has that row. A cell for which it has none, and a cell outside the grid, shows what
  -- it showed before.
  pub scroll_framebuffer-Moves :
      (delta : ℤ)
      → ((z : ℕ) × (x < columns)
          × (y < rows)
          × (z < rows)
          × IsBelow delta y z
          × (scroll_framebuffer delta columns rows picture x y ≡ picture x z))
        ⊎ (((columns ≤ x) ⊎ (rows ≤ y) ⊎ ((z : ℕ) → z < rows → ¬ IsBelow delta y z))
            × (scroll_framebuffer delta columns rows picture x y ≡ picture x y))
  scroll_framebuffer-Moves delta = elim (Bool-cases (leb columns x)) [
    | inl e ↦
        let out : columns ≤ x = ground arith in
        inr (inl out, scroll_framebuffer-outside delta (inl out))
    | inr in_columns ↦ elim (Bool-cases (leb rows y)) [
      | inl e ↦
          let out : rows ≤ y = ground arith in
          inr (inr (inl out), scroll_framebuffer-outside delta (inr out))
      | inr in_rows ↦ elim (Bool-cases (ltb (y + pos_part delta) (neg_part delta))) [
        | inl e ↦
            let before : y + pos_part delta < neg_part delta = ground arith in
            inr (inr (inr (λ z h g. omega arith)), scroll_framebuffer-uncovered delta (inl before))
        | inr e ↦ elim (Bool-cases (leb (rows + neg_part delta) (y + pos_part delta))) [
          | inl f ↦
              let behind : rows + neg_part delta ≤ y + pos_part delta = ground arith in
              inr
                (inr (inr (λ z h g. omega arith)), scroll_framebuffer-uncovered delta (inr behind))
          | inr f ↦
              let z = y + pos_part delta - neg_part delta in
              let enough : neg_part delta ≤ y + pos_part delta = ground arith in
              let fits : y + pos_part delta < rows + neg_part delta = ground arith in
              let inside_x : x < columns = ground arith in
              let inside_y : y < rows = ground arith in
              let inside_z : z < rows = omega arith in
              let below : IsBelow delta y z = omega arith in
              inl (
                z,
                inside_x,
                inside_y,
                inside_z,
                below,
                scroll_framebuffer-row delta z inside_x inside_y inside_z below,
              )
        ]
      ]
    ]
  ]
