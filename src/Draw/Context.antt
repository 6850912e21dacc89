-- ===== src/Draw/Context.antt =====
-- What `DrawPackedCell` of src/terminal_core.cpp keeps true of the context.
use sakura_wx_prototype.Prelude.{
  ℕ, ◌+◌, ◌-◌, ◌*◌, ◌^◌, ◌≤◌, ◌<◌, ◌≡◌, refl, ap, sym, ◌∙◌, inl, inr, Bool, true, false, ◌&&◌, ◌||◌,
  not, List, [], ◌∷◌, ◌++◌, some, arith, leb, ltb, length, length-append, lt_of_get_elem?,
  get_elem?-some_of_lt, All, All-append, All-map, Bool-cases, Option-cases,
}
use sakura_wx_prototype.Dirty.Cells.{IsBoxed, include_cell_both-IsBoxed}
use sakura_wx_prototype.Style.{PackedStyle, TsmAttr, max_styles, packed_style_for, style_index}
use sakura_wx_prototype.Style.Intern.{IsDistinct, style_index-Interned}
use sakura_wx_prototype.Grid.{PackedGrid}
use sakura_wx_prototype.Grid.Rebuild.{ChangedCell}
use sakura_wx_prototype.Draw.{
  DrawContext, DrawnCell, is_changed, encode_from, encoded_text, is_cached, record_cell,
  intern_style, draw_changed, draw_packed_cell, draw_cells,
}

-- The change is for a cell of the grid, has a style of the table, and has its text in the context's,
-- of at most 128 bytes.
abbrev pub IsPlaced : PackedGrid → ℕ → ChangedCell → Type 0
IsPlaced grid size c =
    (c.column < grid.columns)
    × (c.row < grid.rows)
    × (c.style_index < length grid.styles)
    × (c.text_offset + c.text_length ≤ size)
    × (c.text_length ≤ 128)

pub record IsRecorded (context : DrawContext) : Type 0 where
  pub boxed : IsBoxed context.dirty context.dirty_spans
  pub distinct : IsDistinct context.grid.styles
  pub bounded : length context.grid.styles ≤ max_styles
  pub styled : 0 < length context.grid.styles
  pub placed : All (IsPlaced context.grid (length context.changed_text)) context.changed_cells

encode_from_bound :
    (encode : ℕ → List ℕ) (encoded codepoints text : List ℕ)
    → length encoded ≤ 128
    → encode_from encode encoded codepoints ≡ some text
    → length text ≤ 128
unfolding encode_from
encode_from_bound encode encoded [] text h e = ground arith
encode_from_bound encode encoded (codepoint ∷ codepoints) text h e =
    let size = length-append encoded (encode codepoint) in
    elim (Bool-cases (ltb 128 (length encoded + length (encode codepoint)))) [
      | inl f ↦ absurd (ground arith)
      | inr f ↦
          let next : encode_from encode encoded (codepoint ∷ codepoints)
              ≡ encode_from encode (encoded ++ encode codepoint) codepoints =
            rw f refl in
          encode_from_bound encode (encoded ++ encode codepoint) codepoints text (ground arith)
            (sym next ∙ e)
    ]

encoded_text_bound :
    (encode : ℕ → List ℕ) (cell : DrawnCell) (text : List ℕ)
    → encoded_text encode cell ≡ some text
    → length text ≤ 128
unfolding encoded_text
encoded_text_bound encode cell text e =
    elim (Option-cases (encode_from encode [] cell.codepoints)) [
      | inl f ↦ absurd (ground arith)
      | inr (most, f) ↦
          let short = encode_from_bound encode [] cell.codepoints most (omega arith) f in
          ground (arith, short)
    ]

intern_style-IsRecorded :
    (context : DrawContext) (attr : TsmAttr)
    → IsRecorded context
    → IsRecorded (intern_style context attr).0
      × ((intern_style context attr).1 < length (intern_style context attr).0.grid.styles)
unfolding intern_style
intern_style-IsRecorded context attr h =
    let style : PackedStyle = packed_style_for attr in
    let interned = style_index-Interned context.grid.styles style h.distinct h.bounded in
    let (last, at_last) =
      get_elem?-some_of_lt context.grid.styles (length context.grid.styles - 1)
        (omega (arith, h.styled)) in
    let kept = interned.stable (length context.grid.styles - 1) last at_last in
    let grows : length context.grid.styles - 1 < length (style_index context.grid.styles style).0 =
      lt_of_get_elem? _ _ _ kept in
    let fits : (style_index context.grid.styles style).1
        < length (style_index context.grid.styles style).0 =
      elim interned.found [
        | inl found ↦ lt_of_get_elem? _ _ _ found
        | inr (full, absent, same) ↦
            let first : (style_index context.grid.styles style).1 ≡ 0 = ap (λ o. o.1) same in
            omega (arith, h.styled, grows)
      ] in
    (
      record {
        boxed = h.boxed;
        distinct = interned.distinct;
        bounded = interned.bounded;
        styled = omega (arith, h.styled, grows);
        placed =
            All-map (λ c p. (p.0, p.1, omega (arith, p.2, h.styled, grows), p.3, p.4))
              context.changed_cells h.placed;
      },
      fits,
    )

record_cell-IsRecorded :
    (context : DrawContext) (cell : DrawnCell) (style : ℕ) (text : List ℕ)
    → cell.column < context.grid.columns
    → cell.row < context.grid.rows
    → context.grid.rows < 2 ^ 32
    → length context.changed_text + 128 < 2 ^ 32
    → style < length context.grid.styles
    → length text ≤ 128
    → IsRecorded context
    → IsRecorded (record_cell context cell style text)
unfolding record_cell
record_cell-IsRecorded context cell style text column row rows room known short h =
    let size = length-append context.changed_text text in
    record {
      boxed =
          include_cell_both-IsBoxed context.dirty context.dirty_spans cell.column cell.row
            cell.width context.grid.columns context.grid.rows rows h.boxed;
      distinct = h.distinct;
      bounded = h.bounded;
      styled = h.styled;
      placed =
          All-append _ context.changed_cells _
            (All-map (λ c p. (p.0, p.1, p.2, omega (arith, p.3), p.4)) context.changed_cells
              h.placed)
            ((column, row, known, omega arith, omega arith), tt);
    }

draw_changed-IsRecorded :
    (encode : ℕ → List ℕ) (context : DrawContext) (cell : DrawnCell) (attr : TsmAttr)
    → cell.column < context.grid.columns
    → cell.row < context.grid.rows
    → context.grid.rows < 2 ^ 32
    → length context.changed_text + 128 < 2 ^ 32
    → IsRecorded context
    → IsRecorded (draw_changed encode context cell attr)
unfolding draw_changed intern_style
draw_changed-IsRecorded encode context cell attr column row rows room h =
    let (styled, known) = intern_style-IsRecorded context attr h in
    let after : DrawContext = (intern_style context attr).0 in
    let index : ℕ = (intern_style context attr).1 in
    elim (Option-cases (encoded_text encode cell)) [
      | inl e ↦ rw (draw_changed, e) styled
      | inr (text, e) ↦
          elim (Bool-cases (after.reuse_scrolled_rows && is_cached after.grid cell index text)) [
            | inl f ↦ rw (draw_changed, e, f) styled
            | inr f ↦
                rw (draw_changed, e, f)
                  (record_cell-IsRecorded after cell index text column row rows room known
                    (encoded_text_bound encode cell text e) styled)
          ]
    ]

inside_grid : (a b c : Bool) → (a || b || c) ≡ false → (a ≡ false) × (b ≡ false)
inside_grid true b c e = absurd (cc)
inside_grid false true c e = absurd (cc)
inside_grid false false c e = (refl, refl)

draw_packed_cell-IsRecorded :
    (encode : ℕ → List ℕ) (context : DrawContext) (cell : DrawnCell)
    → context.grid.rows < 2 ^ 32
    → length context.changed_text + 128 < 2 ^ 32
    → IsRecorded context
    → IsRecorded (draw_packed_cell encode context cell)
unfolding draw_packed_cell
draw_packed_cell-IsRecorded encode context cell rows room h = elim (Option-cases cell.attr) [
  | inl e ↦ rw (draw_packed_cell, e) h
  | inr (attr, e) ↦
      elim (Bool-cases (
        leb context.grid.columns cell.column
        || leb context.grid.rows cell.row
        || not (is_changed context cell))) [
          | inl f ↦ rw (draw_packed_cell, e, f) h
          | inr f ↦
              let (in_columns, in_rows) =
                inside_grid (leb context.grid.columns cell.column) (leb context.grid.rows cell.row)
                  (not (is_changed context cell)) f in
              rw (draw_packed_cell, e, f)
                (draw_changed-IsRecorded encode context cell attr (ground (arith, in_columns))
                  (ground (arith, in_rows)) rows room h)
        ]
]

-- A call adds at most 128 bytes of text, and leaves the size of the grid.
draw_changed_room :
    (encode : ℕ → List ℕ) (context : DrawContext) (cell : DrawnCell) (attr : TsmAttr)
    → (length (draw_changed encode context cell attr).changed_text
        ≤ length context.changed_text + 128)
      × ((draw_changed encode context cell attr).grid.columns ≡ context.grid.columns)
      × ((draw_changed encode context cell attr).grid.rows ≡ context.grid.rows)
unfolding draw_changed intern_style record_cell
draw_changed_room encode context cell attr =
    let after : DrawContext = (intern_style context attr).0 in
    let index : ℕ = (intern_style context attr).1 in
    elim (Option-cases (encoded_text encode cell)) [
      | inl e ↦ rw (draw_changed, e) (omega arith, refl, refl)
      | inr (text, e) ↦
          let short = encoded_text_bound encode cell text e in
          let size = length-append context.changed_text text in
          elim (Bool-cases (after.reuse_scrolled_rows && is_cached after.grid cell index text)) [
            | inl f ↦ rw (draw_changed, e, f) (omega arith, refl, refl)
            | inr f ↦ rw (draw_changed, e, f) (omega arith, refl, refl)
          ]
    ]

draw_packed_cell_room :
    (encode : ℕ → List ℕ) (context : DrawContext) (cell : DrawnCell)
    → (length (draw_packed_cell encode context cell).changed_text
        ≤ length context.changed_text + 128)
      × ((draw_packed_cell encode context cell).grid.columns ≡ context.grid.columns)
      × ((draw_packed_cell encode context cell).grid.rows ≡ context.grid.rows)
unfolding draw_packed_cell
draw_packed_cell_room encode context cell = elim (Option-cases cell.attr) [
  | inl e ↦ rw (draw_packed_cell, e) (omega arith, refl, refl)
  | inr (attr, e) ↦
      elim (Bool-cases (
        leb context.grid.columns cell.column
        || leb context.grid.rows cell.row
        || not (is_changed context cell))) [
          | inl f ↦ rw (draw_packed_cell, e, f) (omega arith, refl, refl)
          | inr f ↦ rw (draw_packed_cell, e, f) (draw_changed_room encode context cell attr)
        ]
]

-- From a context of which this holds, in a grid of fewer than 2 ^ 32 rows, and while the context's text
-- has room within 32 bits for 128 bytes for each cell: whatever cells libtsm draws, and however it
-- encodes them, the dirty spans stay inside the dirty region, the styles are not empty and stay
-- distinct and within their limit, and every change recorded is for a cell of the grid, has a style
-- of the table, and has its text in the context's, of at most 128 bytes.
pub draw_cells-IsRecorded :
    (encode : ℕ → List ℕ) (context : DrawContext) (cells : List DrawnCell)
    → context.grid.rows < 2 ^ 32
    → length context.changed_text + 128 * length cells < 2 ^ 32
    → IsRecorded context
    → IsRecorded (draw_cells encode context cells)
unfolding draw_cells
draw_cells-IsRecorded encode context [] rows room h = h
draw_cells-IsRecorded encode context (cell ∷ cells) rows room h =
    let (text, columns, same) = draw_packed_cell_room encode context cell in
    draw_cells-IsRecorded encode (draw_packed_cell encode context cell) cells (omega arith)
      (omega arith) (draw_packed_cell-IsRecorded encode context cell rows (omega arith) h)
