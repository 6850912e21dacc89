-- ===== src/Tests/Dirty.antt =====
-- The theorems on the dirty region and spans of src/terminal_core.cpp, in a grid of 80 by 24 cells.
use sakura_wx_prototype.Prelude.{ℕ, ◌≤◌, ◌<◌, ◌≡◌, ◌⊎◌, ◌↔◌, [], ◌∷◌, arith}
use sakura_wx_prototype.Dirty.{
  DirtyRegion, DirtySpan, include_dirty, include_span, include_cell_span,
}
use sakura_wx_prototype.Dirty.Region.{InRegion, IsMarked, Contains, include_dirty_least}
use sakura_wx_prototype.Dirty.Spans.{Covers, IsCoalesced, include_span_in_order}
use sakura_wx_prototype.Dirty.Cells.{IsBoxed, include_cell_both-IsBoxed}

abbrev some_region : DirtyRegion
some_region = record { left = 3; top = 2; right = 5; bottom = 4 }

abbrev some_span : DirtySpan
some_span = record { row = 2; left = 3; right = 5 }

-- The right half of a wide glyph in the last column.
include_dirty_least_example :
    ((x : ℕ) → IsMarked 79 0 x → x < 80 → InRegion (include_dirty some_region 79 7 0 80 24) x 7)
    × Contains (include_dirty some_region 79 7 0 80 24) some_region
    × ((big : DirtyRegion)
        → ((x : ℕ) → IsMarked 79 0 x → x < 80 → InRegion big x 7)
        → Contains big some_region
        → Contains big (include_dirty some_region 79 7 0 80 24))
include_dirty_least_example =
    include_dirty_least some_region 79 7 0 80 24 (omega arith) (omega arith) (omega arith)
      (omega arith) (omega arith)

-- A span that touches the last one.
include_span_in_order_example :
    ((x y : ℕ)
      → Covers (include_span (some_span ∷ []) 2 5 7) x y
        ↔ (Covers (some_span ∷ []) x y ⊎ ((2 ≡ y) × (5 ≤ x) × (x < 7))))
    × IsCoalesced (include_span (some_span ∷ []) 2 5 7)
include_span_in_order_example = include_span_in_order (some_span ∷ []) 2 5 7 (λ e. omega arith) tt

some_span-IsBoxed : IsBoxed some_region (some_span ∷ [])
some_span-IsBoxed = ((omega arith, omega arith, omega arith, omega arith, omega arith), tt)

include_cell_both-IsBoxed_example :
    IsBoxed
      (include_dirty some_region 10 2 2 80 24)
      (include_cell_span (some_span ∷ []) 10 2 2 80 24)
include_cell_both-IsBoxed_example =
    include_cell_both-IsBoxed some_region (some_span ∷ []) 10 2 2 80 24 (omega arith)
      some_span-IsBoxed
