-- ===== src/Draw.antt =====
-- `PackedDrawContext` and `DrawPackedCell` of src/terminal_core.cpp: what the terminal makes of a cell
-- that libtsm draws. `tsm_ucs4_to_utf8` of libtsm is the parameter `encode`.
pub mod Context
pub mod Text
pub mod Cached
pub mod Shows
use sakura_wx_prototype.Prelude.{
  ℕ, ◌+◌, ◌-◌, Bool, true, false, not, ◌&&◌, ◌||◌, List, [], ◌∷◌, ◌++◌, Option, none, some, leb,
  ltb, ◌==◌, if◌then◌else◌, length, get_elem?, slice,
}
use sakura_wx_prototype.Prelude.Word.{u32, u64}
use sakura_wx_prototype.Dirty.{DirtyRegion, DirtySpan, include_dirty, include_cell_span}
use sakura_wx_prototype.Style.{TsmAttr, packed_style_for, style_index}
use sakura_wx_prototype.Grid.{PackedCell, PackedRow, PackedGrid, text_valid}
use sakura_wx_prototype.Grid.Rebuild.{ChangedCell}

pub record DrawContext : Type 0 where
  pub grid : PackedGrid
  pub changed_cells : List ChangedCell
  pub changed_text : List ℕ
  pub dirty_spans : List DirtySpan
  pub dirty : DirtyRegion
  pub previous_age : ℕ
  pub full_repaint : Bool
  pub cursor_changed : Bool
  pub previous_cursor_x : ℕ
  pub previous_cursor_y : ℕ
  pub cursor_x : ℕ
  pub cursor_y : ℕ
  pub decoded_cells : ℕ
  pub reuse_scrolled_rows : Bool

-- The arguments of a call. No attributes is the null pointer.
pub record DrawnCell : Type 0 where
  pub codepoints : List ℕ
  pub width : ℕ
  pub column : ℕ
  pub row : ℕ
  pub attr : Option TsmAttr
  pub age : ℕ

abbrev pub is_cursor_cell : DrawContext → DrawnCell → Bool
is_cursor_cell context cell =
    context.cursor_changed
    && (((cell.column == context.previous_cursor_x) && (cell.row == context.previous_cursor_y))
        || ((cell.column == context.cursor_x) && (cell.row == context.cursor_y)))

abbrev pub is_changed : DrawContext → DrawnCell → Bool
is_changed context cell =
    context.full_repaint
    || (cell.age == 0)
    || ltb context.previous_age cell.age
    || is_cursor_cell context cell

abbrev pub first_codepoint : DrawnCell → ℕ
first_codepoint cell = elim cell.codepoints [
  | [] ↦ if cell.width == 0 then 0 else b' '
  | codepoint ∷ rest ↦ codepoint
]

abbrev pub same_bytes : List ℕ → List ℕ → Bool
same_bytes [] [] = true
same_bytes (a ∷ left) (b ∷ right) = (a == b) && same_bytes left right
same_bytes _ _ = false

module _ (encode : ℕ → List ℕ) where
  -- The loop over the code points, with the text so far; `none` if it outgrows the buffer.
  unfoldable pub encode_from : List ℕ → List ℕ → Option (List ℕ)
  encode_from encoded [] = some encoded
  encode_from encoded (codepoint ∷ codepoints) =
      let utf8 = encode codepoint in
      let rest = encode_from (encoded ++ utf8) codepoints in
      if ltb 128 (length encoded + length utf8) then none else rest

  unfoldable pub encoded_text : DrawnCell → Option (List ℕ)
  unfolding encode_from
  encoded_text cell = elim (encode_from [] cell.codepoints) [
    | none ↦ none
    | some text ↦
        some (if (length cell.codepoints == 0) && ltb 0 cell.width then b' ' ∷ [] else text)
  ]

-- The cell of the grid shows what is drawn.
unfoldable pub is_cached : PackedGrid → DrawnCell → ℕ → List ℕ → Bool
is_cached grid cell style text = elim (get_elem? grid.row_data cell.row) [
  | none ↦ false
  | some row ↦ elim (get_elem? row.cells cell.column) [
    | none ↦ false
    | some cached ↦
        (cached.style_index == style)
        && (cached.width == cell.width)
        && (cached.codepoint == first_codepoint cell)
        && (text_valid row.text cached.text_offset cached.text_length
            && (cached.text_length == length text)
            && same_bytes (slice row.text cached.text_offset cached.text_length) text)
  ]
]

-- What follows the comparison with the grid.
unfoldable pub record_cell : DrawContext → DrawnCell → ℕ → List ℕ → DrawContext
record_cell context cell style text =
    let columns = context.grid.columns in
    let rows = context.grid.rows in
    let offset = u32 (length context.changed_text) in
    let changed_text = context.changed_text ++ text in
    record context {
      decoded_cells = u64 (context.decoded_cells + 1);
      dirty = include_dirty context.dirty cell.column cell.row cell.width columns rows;
      dirty_spans =
          include_cell_span context.dirty_spans cell.column cell.row cell.width columns rows;
      changed_text = changed_text;
      changed_cells =
          context.changed_cells
          ++ record {
            column = cell.column;
            row = cell.row;
            width = cell.width;
            codepoint = first_codepoint cell;
            style_index = style;
            text_offset = offset;
            text_length = u32 (length changed_text - offset);
          }
            ∷ [];
    }

-- The grid with the style of the cell, and the style's index.
unfoldable pub intern_style : DrawContext → TsmAttr → DrawContext × ℕ
intern_style context attr =
    let (styles, index) = style_index context.grid.styles (packed_style_for attr) in
    (record context { grid = record context.grid { styles = styles } }, index)

-- What follows the test of the age.
unfoldable pub draw_changed : (ℕ → List ℕ) → DrawContext → DrawnCell → TsmAttr → DrawContext
draw_changed encode context cell attr =
    let (styled, index) = intern_style context attr in
    elim (encoded_text encode cell) [
      | none ↦ styled
      | some text ↦
          if styled.reuse_scrolled_rows && is_cached styled.grid cell index text
          then styled
          else record_cell styled cell index text
    ]

unfoldable pub draw_packed_cell : (ℕ → List ℕ) → DrawContext → DrawnCell → DrawContext
draw_packed_cell encode context cell = elim cell.attr [
  | none ↦ context
  | some attr ↦
      if leb context.grid.columns cell.column
        || leb context.grid.rows cell.row
        || not (is_changed context cell)
      then context
      else draw_changed encode context cell attr
]

-- `tsm_screen_draw_since` calls back for one cell after the other.
unfoldable pub draw_cells : (ℕ → List ℕ) → DrawContext → List DrawnCell → DrawContext
draw_cells encode context [] = context
draw_cells encode context (cell ∷ cells) =
    draw_cells encode (draw_packed_cell encode context cell) cells
