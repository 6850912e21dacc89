-- ===== src/Dirty/Spans.antt =====
-- The dirty spans of src/terminal_core.cpp as a set of cells.
use sakura_wx_prototype.Prelude.{
  ℕ, zero, suc, ◌+◌, ◌≤◌, ◌<◌, ◌≡◌, refl, ◌⊎◌, ◌↔◌, inl, inr, List, [], ◌∷◌, arith, leb, Bool-cases,
  All,
}
use sakura_wx_prototype.Dirty.{DirtySpan, push_span, include_span, full_rows, include_full_spans}

-- The cell at column `x` and row `y` is in one of the spans.
abbrev pub InSpan : DirtySpan → ℕ → ℕ → Type 0
InSpan s x y = (s.row ≡ y) × (s.left ≤ x) × (x < s.right)

abbrev pub Covers : List DirtySpan → ℕ → ℕ → Type 0
Covers [] x y = ⊥
Covers (s ∷ spans) x y = InSpan s x y ⊎ Covers spans x y

-- A span that has a cell, in a grid of that size.
abbrev pub SpanFits : ℕ → ℕ → DirtySpan → Type 0
SpanFits columns rows s = (s.left < s.right) × (s.right ≤ columns) × (s.row < rows)

-- Neighbours that could be one span have been merged.
abbrev pub IsCoalesced : List DirtySpan → Type 0
IsCoalesced [] = Unit
IsCoalesced (s ∷ []) = Unit
IsCoalesced (s ∷ t ∷ spans) = (s.row ≡ t.row → s.right < t.left) × IsCoalesced (t ∷ spans)

-- What `spans.back()` lets a new span say: it does not begin left of the last one in its row.
abbrev pub Ascends : List DirtySpan → ℕ → ℕ → Type 0
Ascends [] row left = Unit
Ascends (s ∷ []) row left = s.row ≡ row → s.left ≤ left
Ascends (s ∷ t ∷ spans) row left = Ascends (t ∷ spans) row left

push_span-Covers_new :
    (spans : List DirtySpan) (row left right x : ℕ)
    → left ≤ x
    → x < right
    → Covers (push_span spans row left right) x row
unfolding push_span
push_span-Covers_new [] row left right x lo hi = inl (refl, lo, hi)
push_span-Covers_new (s ∷ []) row left right x lo hi = ground arith
push_span-Covers_new (s ∷ t ∷ spans) row left right x lo hi =
    inr (push_span-Covers_new (t ∷ spans) row left right x lo hi)

push_span-Covers_old :
    (spans : List DirtySpan) (row left right x y : ℕ)
    → Covers spans x y
    → Covers (push_span spans row left right) x y
unfolding push_span
push_span-Covers_old [] row left right x y c = elim c [ ]
push_span-Covers_old (s ∷ []) row left right x y c = ground arith
push_span-Covers_old (s ∷ t ∷ spans) row left right x y (inl c) = inl c
push_span-Covers_old (s ∷ t ∷ spans) row left right x y (inr c) =
    inr (push_span-Covers_old (t ∷ spans) row left right x y c)

push_span-Covers_only :
    (spans : List DirtySpan) (row left right x y : ℕ)
    → Ascends spans row left
    → Covers (push_span spans row left right) x y
    → Covers spans x y ⊎ ((row ≡ y) × (left ≤ x) × (x < right))
unfolding push_span
push_span-Covers_only [] row left right x y a c = ground arith
push_span-Covers_only (s ∷ []) row left right x y a c = ground arith
push_span-Covers_only (s ∷ t ∷ spans) row left right x y a (inl c) = inl (inl c)
push_span-Covers_only (s ∷ t ∷ spans) row left right x y a (inr c) =
    elim (push_span-Covers_only (t ∷ spans) row left right x y a c) [
      | inl old ↦ inl (inr old)
      | inr new ↦ inr new
    ]

push_span-Fits :
    (spans : List DirtySpan) (row left right columns rows : ℕ)
    → left < right
    → right ≤ columns
    → row < rows
    → All (SpanFits columns rows) spans
    → All (SpanFits columns rows) (push_span spans row left right)
unfolding push_span
push_span-Fits [] row left right columns rows a b c h = (((a, b, c)), tt)
push_span-Fits (s ∷ []) row left right columns rows a b c h = ground arith
push_span-Fits (s ∷ t ∷ spans) row left right columns rows a b c h =
    (h.0, push_span-Fits (t ∷ spans) row left right columns rows a b c h.1)

push_span-IsCoalesced :
    (spans : List DirtySpan) (row left right : ℕ)
    → Ascends spans row left
    → IsCoalesced spans
    → IsCoalesced (push_span spans row left right)
unfolding push_span
push_span-IsCoalesced [] row left right a h = tt
push_span-IsCoalesced (s ∷ []) row left right a h = ground arith
push_span-IsCoalesced (s ∷ t ∷ []) row left right a h = ground arith
push_span-IsCoalesced (s ∷ t ∷ u ∷ spans) row left right a h =
    (h.0, push_span-IsCoalesced (t ∷ u ∷ spans) row left right a h.1)

include_span-IsCoalesced :
    (spans : List DirtySpan) (row left right : ℕ)
    → Ascends spans row left
    → IsCoalesced spans
    → IsCoalesced (include_span spans row left right)
unfolding include_span
include_span-IsCoalesced spans row left right a h = elim (Bool-cases (leb right left)) [
  | inl e ↦ rw e h
  | inr e ↦ rw e (push_span-IsCoalesced spans row left right a h)
]

include_span-Covers :
    (spans : List DirtySpan) (row left right x y : ℕ)
    → Ascends spans row left
    → Covers (include_span spans row left right) x y
      ↔ (Covers spans x y ⊎ ((row ≡ y) × (left ≤ x) × (x < right)))
unfolding include_span
include_span-Covers spans row left right x y a = elim (Bool-cases (leb right left)) [
  | inl e ↦ rw e (λ c. inl c, λ c. ground arith)
  | inr e ↦ rw e (
    push_span-Covers_only spans row left right x y a,
    elim [
      | inl c ↦ push_span-Covers_old spans row left right x y c
      | inr (p, lo, hi) ↦ rw (← p) (push_span-Covers_new spans row left right x lo hi)
    ],
  )
]

-- When a span does not begin left of the last one in its row, as in a row-by-row scan, `IncludeSpan`
-- makes the spans cover exactly the cells that they covered before and those of the new span, and
-- merged spans stay merged: no neighbours in a row touch.
pub include_span_in_order :
    (spans : List DirtySpan) (row left right : ℕ)
    → Ascends spans row left
    → IsCoalesced spans
    → ((x y : ℕ)
        → Covers (include_span spans row left right) x y
          ↔ (Covers spans x y ⊎ ((row ≡ y) × (left ≤ x) × (x < right))))
      × IsCoalesced (include_span spans row left right)
include_span_in_order spans row left right a h = (
  λ x y. include_span-Covers spans row left right x y a,
  include_span-IsCoalesced spans row left right a h,
)

-- For a span in the grid, in whatever order spans arrive, `IncludeSpan` covers every cell of the former spans and of the new
-- one, and all its spans keep having a cell and lying in the grid.
pub include_span-keeps :
    (spans : List DirtySpan) (row left right columns rows : ℕ)
    → right ≤ columns
    → row < rows
    → All (SpanFits columns rows) spans
    → ((x y : ℕ) → Covers spans x y → Covers (include_span spans row left right) x y)
      × ((x : ℕ) → left ≤ x → x < right → Covers (include_span spans row left right) x row)
      × All (SpanFits columns rows) (include_span spans row left right)
unfolding include_span
include_span-keeps spans row left right columns rows b c f = elim (Bool-cases (leb right left)) [
  | inl e ↦ rw e (λ x y h. h, λ x lo hi. ground arith, f)
  | inr e ↦ rw e (
    λ x y h. push_span-Covers_old spans row left right x y h,
    λ x lo hi. push_span-Covers_new spans row left right x lo hi,
    push_span-Fits spans row left right columns rows (ground arith) b c f,
  )
]

full_rows-Covers :
    (count row columns x y : ℕ)
    → Covers (full_rows count row columns) x y ↔ ((x < columns) × (row ≤ y) × (y < row + count))
unfolding full_rows
full_rows-Covers zero row columns x y = (λ c. elim c [ ], λ h. absurd (omega arith))
full_rows-Covers (suc count) row columns x y =
    let ih = full_rows-Covers count (row + 1) columns x y in
    (elim [ inl c ↦ omega arith | inr c ↦ let h = ih.0 c in omega arith ], λ h. ground (arith, ih))

-- `IncludeFullSpans` forgets the former spans and covers exactly the cells of the grid.
pub include_full_spans-Covers :
    (spans : List DirtySpan) (columns rows x y : ℕ)
    → Covers (include_full_spans spans columns rows) x y ↔ ((x < columns) × (y < rows))
unfolding include_full_spans
include_full_spans-Covers spans columns rows x y =
    ground (arith, full_rows-Covers rows 0 columns x y)
