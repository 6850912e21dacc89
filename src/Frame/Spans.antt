-- ===== src/Frame/Spans.antt =====
-- `ForEachPackedRunSpan` of src/terminal_core.cpp: how a run is cut into spans.
use sakura_wx_prototype.Prelude.{
  ℕ, zero, suc, map, ◌+◌, ◌-◌, ◌^◌, ◌≤◌, ◌<◌, min, max, ◌≡◌, refl, ap, sym, ◌∙◌, inl, inr, Bool,
  true, false, ◌||◌, List, [], ◌∷◌, Option, some, arith, leb, ltb, ◌==◌, length, slice, get_elem?,
  get_elem?-some_of_lt, get_or, Bool-cases,
}
use sakura_wx_prototype.Style.{PackedStyle, packed_style_id}
use sakura_wx_prototype.Grid.{
  PackedCell, PackedRun, PackedRow, PackedGrid, default_cell, text_valid,
}
use sakura_wx_prototype.Frame.{
  RunView, fill_packed_run_view, span_cells, bounded_span, visit_spans, for_each_packed_run_span,
}
use sakura_wx_prototype.Frame.Layout.{
  IsLaidOut, offset_at, offset_at-cell, offset_at_mono, offset_at-le,
}

-- The spans stand side by side from `left` on and have `count` cells together, each at least one and
-- at most `bound`, all of the run's style; and their texts, one behind the other, are the bytes from
-- `offset` to `end`.
abbrev pub Tiles : ℕ → ℕ → ℕ → ℕ → ℕ → ℕ → List PackedRun → Type 0
Tiles bound style left count offset end [] = (count ≡ 0) × (offset ≡ end)
Tiles bound style left count offset end (span ∷ spans) =
    ((span.left ≡ left)
      × (1 ≤ span.cell_count)
      × (span.cell_count ≤ min bound count)
      × (span.style_index ≡ style)
      × (span.text_offset ≡ offset))
    × Tiles bound style (left + span.cell_count) (count - span.cell_count)
        (offset + span.text_length) end spans

Tiles-eq :
    (bound style left left' count count' offset offset' end : ℕ) (spans : List PackedRun)
    → left ≡ left'
    → count ≡ count'
    → offset ≡ offset'
    → Tiles bound style left count offset end spans
    → Tiles bound style left' count' offset' end spans
Tiles-eq bound style left left' count count' offset offset' end spans p q r h = rw (← p, ← q, ← r) h

span_cells_bounds :
    (row : PackedRow) (source : PackedRun) (bound offset : ℕ)
    → 2 ≤ bound
    → offset < source.cell_count
    → (1 ≤ span_cells row source bound offset)
      × (span_cells row source bound offset ≤ min bound (source.cell_count - offset))
unfolding span_cells
span_cells_bounds row source bound offset h k = ground arith

get_or-some :
    (cells : List PackedCell) (i : ℕ) (c : PackedCell)
    → get_elem? cells i ≡ some c
    → get_or cells i default_cell ≡ c
get_or-some [] i c e = cc
get_or-some (d ∷ cells) zero c e = ground arith
get_or-some (d ∷ cells) (suc i) c e = get_or-some cells i c e

-- In a row that is laid out every span has its text.
bounded_span-some :
    (row : PackedRow) (source : PackedRun) (column count : ℕ)
    → IsLaidOut row
    → length row.text < 2 ^ 32
    → 1 ≤ count
    → column + count ≤ length row.cells
    → bounded_span row source column count
      ≡ some (record {
        left = column;
        cell_count = count;
        style_index = source.style_index;
        text_offset = offset_at row.cells 0 column;
        text_length = offset_at row.cells 0 (column + count) - offset_at row.cells 0 column;
      })
unfolding bounded_span
bounded_span-some row source column count laid small h inside =
    let last : ℕ = column + count - 1 in
    let (c, e) = get_elem?-some_of_lt row.cells column (omega arith) in
    let (d, f) = get_elem?-some_of_lt row.cells last (omega arith) in
    let first_at = offset_at-cell row.cells 0 (length row.text) column c laid e in
    let last_at = offset_at-cell row.cells 0 (length row.text) last d laid f in
    let next : suc last ≡ column + count = omega arith in
    let after : offset_at row.cells 0 (column + count) ≡ d.text_offset + d.text_length =
      ap (offset_at row.cells 0) (sym next) ∙ last_at.1 in
    let ends = offset_at-le row.cells 0 (length row.text) (column + count) laid in
    let ends_first = offset_at-le row.cells 0 (length row.text) (suc column) laid in
    let rises = offset_at_mono row.cells 0 column (column + count) (omega arith) in
    rw (get_or-some row.cells column c e, get_or-some row.cells last d f)
      (ground (arith, first_at, last_at, after, ends, ends_first, rises))

module _ {ℓ} {A : Type ℓ} (row : PackedRow) (source : PackedRun) (callback : PackedRun → Option A)
    (view : PackedRun → A) (laid : IsLaidOut row) (small : length row.text < 2 ^ 32)
    (inside : source.left + source.cell_count ≤ length row.cells)
    (accepts : (span : PackedRun)
      → span.style_index ≡ source.style_index
      → span.text_offset + span.text_length ≤ length row.text
      → callback span ≡ some (view span)) where
  abbrev pub Visited : ℕ → ℕ → List A × Bool → Type ℓ
  Visited bound offset out =
      (spans : List PackedRun) × (out ≡ (map view spans, true))
      × Tiles bound source.style_index (source.left + offset) (source.cell_count - offset)
          (offset_at row.cells 0 (source.left + offset))
          (offset_at row.cells 0 (source.left + source.cell_count)) spans

  visit_spans-Visited :
      (fuel bound offset : ℕ)
      → 2 ≤ bound
      → offset ≤ source.cell_count
      → source.cell_count ≤ fuel + offset
      → Visited bound offset (visit_spans row source callback fuel bound offset)
  unfolding visit_spans
  visit_spans-Visited zero bound offset h k enough =
      let done : offset ≡ source.cell_count = omega arith in
      let full : leb source.cell_count offset ≡ true = ground arith in
      ([], rw full refl, (omega arith, ap (λ o. offset_at row.cells 0 (source.left + o)) done))
  visit_spans-Visited (suc fuel) bound offset h k enough =
      elim (Bool-cases (leb source.cell_count offset)) [
        | inl e ↦
            let done : offset ≡ source.cell_count = ground arith in
            rw e ([], refl, (omega arith, ap (λ o. offset_at row.cells 0 (source.left + o)) done))
        | inr e ↦
            let cells : ℕ = span_cells row source bound offset in
            let size = span_cells_bounds row source bound offset h (ground arith) in
            let some_cells : (cells == 0) ≡ false = ground arith in
            let column : ℕ = source.left + offset in
            let found = bounded_span-some row source column cells laid small size.0 (omega arith) in
            let before : ℕ = offset_at row.cells 0 column in
            let after : ℕ = offset_at row.cells 0 (column + cells) in
            let rises = offset_at_mono row.cells 0 column (column + cells) (omega arith) in
            let ends = offset_at-le row.cells 0 (length row.text) (column + cells) laid in
            let span : PackedRun = record {
              left = column;
              cell_count = cells;
              style_index = source.style_index;
              text_offset = before;
              text_length = after - before;
            } in
            let accepted = accepts span refl (omega arith) in
            let (spans, eq, tiles) =
              visit_spans-Visited fuel bound (offset + cells) h (omega arith) (omega arith) in
            let along : source.left + (offset + cells) ≡ column + cells = omega arith in
            let fewer : source.cell_count - (offset + cells) ≡ source.cell_count - offset - cells =
              omega arith in
            let next : offset_at row.cells 0 (source.left + (offset + cells))
                ≡ before + (after - before) =
              ap (offset_at row.cells 0) along ∙ omega arith in
            rw (e, some_cells, found, accepted)
              (
                span ∷ spans,
                rw eq refl,
                (
                  (refl, size.0, size.1, refl, refl),
                  Tiles-eq bound source.style_index _ _ _ _ _ _ _ spans along fewer next tiles,
                ),
              )
      ]

abbrev pub run_view : PackedRow → ℕ → PackedStyle → PackedRun → RunView
run_view row row_index style span = record {
  row = row_index;
  left = span.left;
  cell_count = span.cell_count;
  style_id = packed_style_id style;
  text = slice row.text span.text_offset span.text_length;
  foreground = style.foreground;
  background = style.background;
  attributes = style.attributes;
}

fill_packed_run_view-some :
    (grid : PackedGrid) (row : PackedRow) (row_index : ℕ) (span : PackedRun) (style : PackedStyle)
    → get_elem? grid.styles span.style_index ≡ some style
    → span.text_offset + span.text_length ≤ length row.text
    → fill_packed_run_view grid row row_index span ≡ some (run_view row row_index style span)
unfolding fill_packed_run_view
fill_packed_run_view-some grid row row_index span style e h =
    let valid : text_valid row.text span.text_offset span.text_length ≡ true = ground arith in
    rw (fill_packed_run_view, e, valid) refl

-- In a row that is laid out, whose text is below 2 ^ 32 bytes, and for a run with a style of the grid
-- and with at least one cell, all inside the row: the visit with a bound that is not 0 completes the
-- run. The views it passes on are of spans side by side from the run's first column to its last, each
-- of at least one cell and at most the bound (or two, if that is more) and of the run's style, whose
-- texts follow one another from where the run's first cell has its text to where its last ends.
pub for_each_packed_run_span-Tiles :
    (grid : PackedGrid) (row : PackedRow) (row_index : ℕ) (source : PackedRun) (style : PackedStyle)
    (max_cells : ℕ)
    → IsLaidOut row
    → length row.text < 2 ^ 32
    → get_elem? grid.styles source.style_index ≡ some style
    → 1 ≤ source.cell_count
    → source.left + source.cell_count ≤ length row.cells
    → 1 ≤ max_cells
    → (spans : List PackedRun) × (for_each_packed_run_span row source
          (fill_packed_run_view grid row row_index)
          max_cells
        ≡ (map (run_view row row_index style) spans, true))
      × Tiles
          (max 2 max_cells)
          source.style_index
          source.left
          source.cell_count
          (offset_at row.cells 0 source.left)
          (offset_at row.cells 0 (source.left + source.cell_count))
          spans
unfolding for_each_packed_run_span
for_each_packed_run_span-Tiles grid row row_index source style max_cells laid small known some_cells
      inside bound =
    let accepts : (span : PackedRun)
        → span.style_index ≡ source.style_index
        → span.text_offset + span.text_length ≤ length row.text
        → fill_packed_run_view grid row row_index span ≡ some (run_view row row_index style span) =
      λ span same fits.
        fill_packed_run_view-some grid row row_index span style
          (ap (get_elem? grid.styles) same ∙ known) fits in
    let (spans, eq, tiles) =
      visit_spans-Visited row source (fill_packed_run_view grid row row_index)
        (run_view row row_index style) laid small inside accepts source.cell_count (max 2 max_cells)
        0 (omega arith) (omega arith) (omega arith) in
    let first : source.left + 0 ≡ source.left = omega arith in
    let guards : ((max_cells == 0)
          || (source.cell_count == 0)
          || leb (length row.cells) source.left
          || ltb (length row.cells - source.left) source.cell_count)
        ≡ false =
      ground arith in
    (
      spans,
      rw (guards, eq) refl,
      Tiles-eq _ _ _ _ _ _ _ _ _ spans first (omega arith) (ap (offset_at row.cells 0) first) tiles,
    )
