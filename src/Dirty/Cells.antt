-- ===== src/Dirty/Cells.antt =====
-- How the dirty region and the dirty spans of src/terminal_core.cpp stay in step: `DrawPackedCell`
-- includes each changed cell in both.
use sakura_wx_prototype.Prelude.{
  ℕ, zero, suc, ◌+◌, ◌-◌, ◌^◌, ◌≤◌, ◌<◌, ◌≡◌, inl, inr, min, false, List, [], ◌∷◌, arith, leb, ◌||◌,
  ◌==◌, Bool-cases, All, All-map,
}
use sakura_wx_prototype.Dirty.{
  DirtyRegion, DirtySpan, include_dirty, push_span, include_span, include_cell_span, rows_region,
  include_rows, include_row_spans, cell_left, cell_right, outside,
}

-- The span has a cell, and the region holds every one.
abbrev pub Holds : DirtyRegion → DirtySpan → Type 0
Holds d s =
    (s.left < s.right)
    × (d.left ≤ s.left)
    × (s.right ≤ d.right)
    × (d.top ≤ s.row)
    × (s.row < d.bottom)

-- The region holds every span.
abbrev pub IsBoxed : DirtyRegion → List DirtySpan → Type 0
IsBoxed d = All (Holds d)

push_span-IsBoxed :
    (d : DirtyRegion) (spans : List DirtySpan) (row left right : ℕ)
    → Holds d (record { row = row; left = left; right = right })
    → IsBoxed d spans
    → IsBoxed d (push_span spans row left right)
unfolding push_span
push_span-IsBoxed d [] row left right h b = (h, tt)
push_span-IsBoxed d (s ∷ []) row left right h b = ground arith
push_span-IsBoxed d (s ∷ t ∷ spans) row left right h b =
    (b.0, push_span-IsBoxed d (t ∷ spans) row left right h b.1)

include_span-IsBoxed :
    (d : DirtyRegion) (spans : List DirtySpan) (row left right : ℕ)
    → (left < right → Holds d (record { row = row; left = left; right = right }))
    → IsBoxed d spans
    → IsBoxed d (include_span spans row left right)
unfolding include_span
include_span-IsBoxed d spans row left right h b = elim (Bool-cases (leb right left)) [
  | inl e ↦ rw e b
  | inr e ↦ rw e (push_span-IsBoxed d spans row left right (h (ground arith)) b)
]

-- A region that grows still holds what it held; an empty one held nothing.
include_dirty-Holds :
    (d : DirtyRegion) (column row width columns rows : ℕ) (s : DirtySpan)
    → Holds d s
    → Holds (include_dirty d column row width columns rows) s
unfolding include_dirty
include_dirty-Holds d column row width columns rows s h = ground arith

include_dirty-Holds_new :
    (d : DirtyRegion) (column row width columns rows : ℕ)
    → rows < 2 ^ 32
    → outside column row columns rows ≡ false
    → cell_left column width < cell_right column width columns
    → Holds (include_dirty d column row width columns rows) (record {
      row = row;
      left = cell_left column width;
      right = cell_right column width columns;
    })
unfolding include_dirty
include_dirty-Holds_new d column row width columns rows small inside h = ground arith

-- Including a cell in the region and in the spans keeps every span inside the region, whatever the
-- cell and its width, in a grid of fewer than 2 ^ 32 rows.
pub include_cell_both-IsBoxed :
    (d : DirtyRegion) (spans : List DirtySpan) (column row width columns rows : ℕ)
    → rows < 2 ^ 32
    → IsBoxed d spans
    → IsBoxed
        (include_dirty d column row width columns rows)
        (include_cell_span spans column row width columns rows)
unfolding include_cell_span
include_cell_both-IsBoxed d spans column row width columns rows small b =
    let kept : IsBoxed (include_dirty d column row width columns rows) spans =
      All-map (include_dirty-Holds d column row width columns rows) spans b in
    elim (Bool-cases (outside column row columns rows)) [
      | inl e ↦ rw e kept
      | inr e ↦ rw e (
          include_span-IsBoxed _ spans row _ _
            (include_dirty-Holds_new d column row width columns rows small e) kept)
    ]

include_row_spans-IsBoxed :
    (count row columns : ℕ) (d : DirtyRegion) (spans : List DirtySpan)
    → d.left ≤ 0
    → columns ≤ d.right
    → d.top ≤ row
    → row + count ≤ d.bottom
    → IsBoxed d spans
    → IsBoxed d (include_row_spans count row columns spans)
unfolding include_row_spans
include_row_spans-IsBoxed zero row columns d spans l r t b h = h
include_row_spans-IsBoxed (suc count) row columns d spans l r t b h =
    include_row_spans-IsBoxed count (row + 1) columns d _ l r (omega arith) (omega arith)
      (include_span-IsBoxed d spans row 0 columns (λ p. omega arith) h)

rows_region-Holds :
    (d : DirtyRegion) (top bottom columns : ℕ) (s : DirtySpan)
    → Holds d s
    → Holds (rows_region d top bottom columns) s
unfolding rows_region
rows_region-Holds d top bottom columns s h = ground arith

rows_region_bounds :
    (d : DirtyRegion) (top bottom columns : ℕ)
    → let r = rows_region d top bottom columns in
      (r.left ≤ 0) × (columns ≤ r.right) × (r.top ≤ top) × (bottom ≤ r.bottom)
unfolding rows_region
rows_region_bounds d top bottom columns = ground arith

-- Including whole rows in the region and in the spans keeps every span inside the region.
pub include_rows-IsBoxed :
    (d : DirtyRegion) (spans : List DirtySpan) (top bottom columns rows : ℕ)
    → IsBoxed d spans
    → IsBoxed
        (include_rows d spans top bottom columns rows).0
        (include_rows d spans top bottom columns rows).1
unfolding include_rows
include_rows-IsBoxed d spans top0 bottom0 columns rows b =
    let top : ℕ = min top0 rows in
    let bottom : ℕ = min bottom0 rows in
    let bounds = rows_region_bounds d top bottom columns in
    elim (Bool-cases ((columns == 0) || leb bottom top)) [
      | inl e ↦ rw e b
      | inr e ↦ rw e (
          include_row_spans-IsBoxed (bottom - top) top columns (rows_region d top bottom columns)
            spans bounds.0 bounds.1 bounds.2 (ground arith)
            (All-map (rows_region-Holds d top bottom columns) spans b))
    ]
