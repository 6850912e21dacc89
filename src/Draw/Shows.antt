-- ===== src/Draw/Shows.antt =====
-- What one call of `DrawPackedCell` in src/terminal_core.cpp records.
use mathlib.Core.Path.{subst}
use sakura_wx_prototype.Prelude.{
  ℕ, ◌+◌, ◌-◌, ◌^◌, ◌<◌, ◌≤◌, ◌≡◌, refl, sym, ap, ◌∙◌, ◌⊎◌, inl, inr, true, false, ◌&&◌, List, [],
  ◌∷◌, ◌++◌, some, arith, leb, length, length-append, get_elem?, slice, drop-append, take,
  Bool-cases,
}
use sakura_wx_prototype.Prelude.Word.{u32}
use sakura_wx_prototype.Style.{TsmAttr, packed_style_for}
use sakura_wx_prototype.Style.Intern.{Absent-get_elem?, style_index-Interned}
use sakura_wx_prototype.Grid.Rebuild.{ChangedCell}
use sakura_wx_prototype.Draw.{
  DrawContext, DrawnCell, is_changed, first_codepoint, is_cached, record_cell, intern_style,
  draw_changed, draw_packed_cell,
}
use sakura_wx_prototype.Draw.Context.{IsRecorded}
use sakura_wx_prototype.Draw.Cached.{
  IsStyle, IsStyle-unique, HasAt, and_right, is_cached-HasAt, HasAt-is_cached,
}
use sakura_wx_prototype.Draw.Text.{
  shown_codepoint, shown_text, first_codepoint-shown, encoded_text-shown,
}
use sakura_wx_prototype.Grid.{PackedGrid}

-- The change is the cell: its place, its width and first code point, its text, and its style, unless
-- the table of styles is full.
abbrev pub Shows : (ℕ → List ℕ) → DrawContext → DrawnCell → TsmAttr → ChangedCell → Type 0
Shows encode after cell attr c =
    (c.column ≡ cell.column)
    × (c.row ≡ cell.row)
    × (c.width ≡ cell.width)
    × (c.codepoint ≡ shown_codepoint cell.codepoints cell.width)
    × (slice after.changed_text c.text_offset c.text_length
        ≡ shown_text encode cell.codepoints cell.width)
    × IsStyle after.grid.styles attr c.style_index

-- The grid has the cell already, with its style.
abbrev pub Has : (ℕ → List ℕ) → PackedGrid → DrawnCell → TsmAttr → Type 0
Has encode grid cell attr =
    (index : ℕ) × IsStyle grid.styles attr index × HasAt encode grid cell index

-- Nothing is recorded, because the text is longer than 128 bytes, or because rows are reused and the
-- grid has the cell; or neither is so, and one change is recorded, that shows the cell.
abbrev pub Records : (ℕ → List ℕ) → DrawContext → DrawnCell → TsmAttr → DrawContext → Type 0
Records encode context cell attr after =
    ((after.changed_cells ≡ context.changed_cells)
      × (after.changed_text ≡ context.changed_text)
      × ((128 < length (shown_text encode cell.codepoints cell.width))
          ⊎ ((context.reuse_scrolled_rows ≡ true) × Has encode after.grid cell attr)))
    ⊎ ((c : ChangedCell) × (length (shown_text encode cell.codepoints cell.width) ≤ 128)
        × (¬ ((context.reuse_scrolled_rows ≡ true) × Has encode after.grid cell attr))
        × (after.changed_cells ≡ context.changed_cells ++ c ∷ [])
        × Shows encode after cell attr c)

take_all : (xs : List ℕ) → take (length xs) xs ≡ xs
take_all [] = refl
take_all (x ∷ xs) = ap (◌∷◌ x) (take_all xs)

slice_end :
    (old text : List ℕ) (offset count : ℕ)
    → offset ≡ length old
    → count ≡ length text
    → slice (old ++ text) offset count ≡ text
slice_end old text offset count p q = rw (p, q, drop-append old text) (take_all text)

draw_changed-Records :
    (encode : ℕ → List ℕ) (context : DrawContext) (cell : DrawnCell) (attr : TsmAttr)
    → length context.changed_text + 128 < 2 ^ 32
    → IsRecorded context
    → Records encode context cell attr (draw_changed encode context cell attr)
unfolding draw_changed intern_style record_cell
draw_changed-Records encode context cell attr room h =
    let after : DrawContext = (intern_style context attr).0 in
    let index : ℕ = (intern_style context attr).1 in
    let interned =
      style_index-Interned context.grid.styles (packed_style_for attr) h.distinct h.bounded in
    let styled : IsStyle after.grid.styles attr index = elim interned.found [
      | inl found ↦ inl found
      | inr (full, absent, same) ↦ inr (
        ap (λ o. length o.0) same ∙ full,
        λ i e.
            Absent-get_elem? context.grid.styles (packed_style_for attr) i absent
              (ap (λ o. get_elem? o.0 i) (sym same) ∙ e),
        ap (λ o. o.1) same,
      )
    ] in
    let text = shown_text encode cell.codepoints cell.width in
    let size = length-append context.changed_text text in
    elim (encoded_text-shown encode cell) [
      | inr (long, e) ↦ rw (draw_changed, e) (inl (refl, refl, inl long))
      | inl (short, e) ↦
          elim (Bool-cases (after.reuse_scrolled_rows && is_cached after.grid cell index text)) [
            | inl f ↦
                let reuse : context.reuse_scrolled_rows ≡ true = ground arith in
                let cached = and_right after.reuse_scrolled_rows _ f in
                let has : Has encode after.grid cell attr =
                  (index, styled, is_cached-HasAt encode after.grid cell index cached) in
                rw (draw_changed, e, f) (inl (refl, refl, inr (reuse, has)))
            | inr f ↦
                let not_there : ¬ (
                    (context.reuse_scrolled_rows ≡ true) × Has encode after.grid cell attr) =
                  λ h'.
                    let (reuse, (other, its_style, has)) = h' in
                    let same =
                      IsStyle-unique after.grid.styles attr other index interned.distinct its_style
                        styled in
                    let here =
                      HasAt-is_cached encode after.grid cell index
                        (subst (HasAt encode after.grid cell) same has) in
                    ground arith in
                rw (draw_changed, e, f)
                  (inr (
                    record {
                      column = cell.column;
                      row = cell.row;
                      width = cell.width;
                      codepoint = first_codepoint cell;
                      style_index = index;
                      text_offset = u32 (length context.changed_text);
                      text_length = u32 (
                          length (context.changed_text ++ text)
                          - u32 (length context.changed_text));
                    },
                    short,
                    not_there,
                    refl,
                    (
                      refl,
                      refl,
                      refl,
                      first_codepoint-shown cell,
                      slice_end context.changed_text text (u32 (length context.changed_text)) _
                          (omega arith) (omega arith),
                      styled,
                    ),
                  ))
          ]
    ]

-- For a cell of the grid with attributes that is new, in a context that satisfies the invariant with
-- room for 128 bytes more: `DrawPackedCell` records one change, behind the others, that has the
-- cell's place, width, first code point, text and style (or style 0 if the table is full and has no
-- such style); or it records nothing. It records nothing just if the text is longer than 128 bytes, or
-- rows are reused and the grid has the cell already, with all of these. The code point is the first one, or a
-- blank or, for width 0, zero where there is none; the text is the encodings of the code points, or a
-- blank where there are none and the width is not 0.
pub draw_packed_cell-Records :
    (encode : ℕ → List ℕ) (context : DrawContext) (cell : DrawnCell) (attr : TsmAttr)
    → cell.attr ≡ some attr
    → cell.column < context.grid.columns
    → cell.row < context.grid.rows
    → is_changed context cell ≡ true
    → length context.changed_text + 128 < 2 ^ 32
    → IsRecorded context
    → Records encode context cell attr (draw_packed_cell encode context cell)
unfolding draw_packed_cell
draw_packed_cell-Records encode context cell attr given column row changed room h =
    let in_columns : leb context.grid.columns cell.column ≡ false = ground arith in
    let in_rows : leb context.grid.rows cell.row ≡ false = ground arith in
    rw (draw_packed_cell, given, in_columns, in_rows, changed)
      (draw_changed-Records encode context cell attr room h)
