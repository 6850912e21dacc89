-- ===== src/Draw/Cached.antt =====
-- The comparison of a drawn cell with the grid in `DrawPackedCell` of src/terminal_core.cpp.
use mathlib.Core.Path.{subst}
use sakura_wx_prototype.Prelude.{
  ℕ, ◌+◌, ◌≤◌, ◌≡◌, ◌≢◌, refl, sym, ◌==◌, ◌∙◌, ◌⊎◌, inl, inr, Bool, true, false, ◌&&◌, List, [],
  ◌∷◌, some, arith, length, get_elem?, slice, Option-cases,
}
use sakura_wx_prototype.Style.{PackedStyle, TsmAttr, max_styles, packed_style_for}
use sakura_wx_prototype.Style.Intern.{IsDistinct, IsDistinct-get_elem?}
use sakura_wx_prototype.Grid.{PackedCell, PackedRow, PackedGrid, text_valid}
use sakura_wx_prototype.Draw.{DrawnCell, first_codepoint, same_bytes, is_cached}
use sakura_wx_prototype.Draw.Text.{shown_codepoint, shown_text, first_codepoint-shown}

-- The index is that of the style; or it is 0, and the table of styles is full and has no such style.
abbrev pub IsStyle : List PackedStyle → TsmAttr → ℕ → Type 0
IsStyle styles attr index =
    (get_elem? styles index ≡ some (packed_style_for attr))
    ⊎ ((length styles ≡ max_styles)
        × ((i : ℕ) → get_elem? styles i ≢ some (packed_style_for attr))
        × (index ≡ 0))

pub IsStyle-unique :
    (styles : List PackedStyle) (attr : TsmAttr) (i j : ℕ)
    → IsDistinct styles
    → IsStyle styles attr i
    → IsStyle styles attr j
    → i ≡ j
IsStyle-unique styles attr i j d (inl h) (inl g) =
    IsDistinct-get_elem? styles (packed_style_for attr) i j d h g
IsStyle-unique styles attr i j d (inl h) (inr g) = absurd (g.1 i h)
IsStyle-unique styles attr i j d (inr h) (inl g) = absurd (h.1 j g)
IsStyle-unique styles attr i j d (inr h) (inr g) = h.2 ∙ sym g.2

-- The grid has the cell already with the style of that index: its width and first code point, and
-- its text, which lies in the row's text.
abbrev pub HasAt : (ℕ → List ℕ) → PackedGrid → DrawnCell → ℕ → Type 0
HasAt encode grid cell index =
    (row : PackedRow) × (cached : PackedCell) × (get_elem? grid.row_data cell.row ≡ some row)
    × (get_elem? row.cells cell.column ≡ some cached)
    × (cached.style_index ≡ index)
    × (cached.width ≡ cell.width)
    × (cached.codepoint ≡ shown_codepoint cell.codepoints cell.width)
    × (cached.text_offset + cached.text_length ≤ length row.text)
    × (cached.text_length ≡ length (shown_text encode cell.codepoints cell.width))
    × (slice row.text cached.text_offset cached.text_length
        ≡ shown_text encode cell.codepoints cell.width)

pub and_right : (a b : Bool) → (a && b) ≡ true → b ≡ true
and_right true b e = e
and_right false b e = absurd (cc)

same_bytes-eq : (left right : List ℕ) → same_bytes left right ≡ true → left ≡ right
unfolding same_bytes
same_bytes-eq [] [] e = refl
same_bytes-eq [] (b ∷ right) e = absurd (cc)
same_bytes-eq (a ∷ left) [] e = absurd (cc)
same_bytes-eq (a ∷ left) (b ∷ right) e =
    let rest = same_bytes-eq left right (and_right (a == b) (same_bytes left right) e) in
    let here : a ≡ b = ground arith in λ i. here i ∷ rest i

same_bytes_refl : (bytes : List ℕ) → same_bytes bytes bytes ≡ true
unfolding same_bytes
same_bytes_refl [] = refl
same_bytes_refl (a ∷ bytes) = ground (arith, same_bytes_refl bytes)

module _ (encode : ℕ → List ℕ) (grid : PackedGrid) (cell : DrawnCell) (index : ℕ) where
  -- The comparison finds just the cells that the grid has.
  pub is_cached-HasAt :
      is_cached grid cell index (shown_text encode cell.codepoints cell.width) ≡ true
      → HasAt encode grid cell index
  unfolding is_cached
  is_cached-HasAt e = elim (Option-cases (get_elem? grid.row_data cell.row)) [
    | inl f ↦ absurd (ground arith)
    | inr (row, at) ↦ elim (Option-cases (get_elem? row.cells cell.column)) [
      | inl f ↦ absurd (ground arith)
      | inr (cached, there) ↦
          let text = shown_text encode cell.codepoints cell.width in
          let old = slice row.text cached.text_offset cached.text_length in
          let style : cached.style_index ≡ index = ground arith in
          let width : cached.width ≡ cell.width = ground arith in
          let codepoint : cached.codepoint ≡ first_codepoint cell = ground arith in
          let fits : cached.text_offset + cached.text_length ≤ length row.text = ground arith in
          let count : cached.text_length ≡ length text = ground arith in
          let bytes : same_bytes old text ≡ true = ground arith in
          (
            row,
            cached,
            at,
            there,
            style,
            width,
            codepoint ∙ first_codepoint-shown cell,
            fits,
            count,
            same_bytes-eq old text bytes,
          )
    ]
  ]

  pub HasAt-is_cached :
      HasAt encode grid cell index
      → is_cached grid cell index (shown_text encode cell.codepoints cell.width) ≡ true
  unfolding is_cached
  HasAt-is_cached (row, cached, at, there, style, width, codepoint, fits, count, bytes) =
      let text = shown_text encode cell.codepoints cell.width in
      let old = slice row.text cached.text_offset cached.text_length in
      let first : cached.codepoint ≡ first_codepoint cell =
        codepoint ∙ sym (first_codepoint-shown cell) in
      let valid : text_valid row.text cached.text_offset cached.text_length ≡ true = ground arith in
      let same : same_bytes old text ≡ true =
        subst (λ b. same_bytes b text ≡ true) (sym bytes) (same_bytes_refl text) in
      let style_same : (cached.style_index == index) ≡ true = ground arith in
      let width_same : (cached.width == cell.width) ≡ true = ground arith in
      let first_same : (cached.codepoint == first_codepoint cell) ≡ true = ground arith in
      let count_same : (cached.text_length == length text) ≡ true = ground arith in
      rw (is_cached, at, there, style_same, width_same, first_same, valid, count_same, same) refl
