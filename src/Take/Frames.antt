-- ===== src/Take/Frames.antt =====
-- What a frame of `TakePackedFrame` in src/terminal_core.cpp says of its changes.
use sakura_wx_prototype.Prelude.{
  ℕ, ◌+◌, ◌-◌, ◌*◌, ◌^◌, ◌≤◌, ◌<◌, ◌≡◌, refl, ◌⊎◌, ◌↔◌, inl, inr, Bool, true, false, ◌&&◌, List, [],
  ◌∷◌, arith, ◌==◌, length, Bool-cases,
}
use sakura_wx_prototype.Prelude.Word.{u64}
use sakura_wx_prototype.Dirty.{DirtyRegion, DirtySpan, dirty_empty, include_cell}
use sakura_wx_prototype.Dirty.Spans.{Covers, include_full_spans-Covers}
use sakura_wx_prototype.Dirty.Cells.{IsBoxed, include_cell_both-IsBoxed, include_rows-IsBoxed}
use sakura_wx_prototype.Style.{PackedStyle, max_styles}
use sakura_wx_prototype.Style.Intern.{IsDistinct}
use sakura_wx_prototype.Grid.{PackedGrid, ensure_styles, ensure_packed_grid, rotate_packed_rows}
use sakura_wx_prototype.Draw.Context.{IsRecorded, draw_cells-IsRecorded}
use sakura_wx_prototype.Take.{
  ScreenView, Renderer, PackedFrame, distance, is_positive, can_reuse, repaints, ready_grid,
  cursor_moved, draw_context, since, include_cursor, with_cursors, with_scroll, final_dirty,
  final_repaint, drawn_context, tracked, make_frame, take_packed_frame,
}

include_cursor-IsBoxed :
    (column row columns rows : ℕ) (both : DirtyRegion × List DirtySpan)
    → rows < 2 ^ 32
    → IsBoxed both.0 both.1
    → IsBoxed
        (include_cursor column row columns rows both).0
        (include_cursor column row columns rows both).1
unfolding include_cursor include_cell
include_cursor-IsBoxed column row columns rows both h b =
    include_cell_both-IsBoxed both.0 both.1 column row 1 columns rows h b

with_cursors-IsBoxed :
    (r : Renderer) (view : ScreenView) (both : DirtyRegion × List DirtySpan)
    → view.height < 2 ^ 32
    → IsBoxed both.0 both.1
    → IsBoxed (with_cursors r view both).0 (with_cursors r view both).1
unfolding with_cursors
with_cursors-IsBoxed r view both h b = elim (Bool-cases (cursor_moved r view)) [
  | inl e ↦
      rw (with_cursors, e)
        (include_cursor-IsBoxed view.cursor_x view.cursor_y view.width view.height _ h (
          include_cursor-IsBoxed r.packed_last_cursor_x r.packed_last_cursor_y view.width
            view.height both h b))
  | inr e ↦ rw (with_cursors, e) b
]

with_scroll-IsBoxed :
    (r : Renderer) (view : ScreenView) (both : DirtyRegion × List DirtySpan)
    → IsBoxed both.0 both.1
    → IsBoxed (with_scroll r view both).0 (with_scroll r view both).1
unfolding with_scroll
with_scroll-IsBoxed r view both b =
    let far : ℕ = distance r.pending_content_scroll_delta in
    elim (Bool-cases (can_reuse r view)) [
      | inl e ↦ elim (Bool-cases (is_positive r.pending_content_scroll_delta)) [
        | inl f ↦
            rw (with_scroll, e, f)
              (include_rows-IsBoxed both.0 both.1 (view.height - far) view.height view.width
                view.height b)
        | inr f ↦
            rw (with_scroll, e, f)
              (include_rows-IsBoxed both.0 both.1 0 far view.width view.height b)
      ]
      | inr e ↦ rw (with_scroll, e) b
    ]

-- A region without cells boxes no span.
boxed_nothing :
    (d : DirtyRegion) (spans : List DirtySpan) → dirty_empty d ≡ true → IsBoxed d spans → spans ≡ []
unfolding dirty_empty
boxed_nothing d [] e b = refl
boxed_nothing d (s ∷ spans) e b = absurd (ground (arith, b.0))

ensure_packed_grid-styles :
    (grid : PackedGrid) (columns rows : ℕ)
    → ((ensure_packed_grid grid columns rows).styles ≡ ensure_styles grid.styles)
      × ((ensure_packed_grid grid columns rows).rows ≡ rows)
unfolding ensure_packed_grid
ensure_packed_grid-styles grid columns rows =
    elim (Bool-cases
      ((grid.columns == columns) && (grid.rows == rows) && (length grid.row_data == rows))) [
        | inl e ↦ rw (ensure_packed_grid, e) (refl, ground arith)
        | inr e ↦ rw (ensure_packed_grid, e) (refl, refl)
      ]

ready_grid-styles :
    (r : Renderer) (view : ScreenView)
    → ((ready_grid r view).styles ≡ ensure_styles r.packed_grid_cache.styles)
      × ((ready_grid r view).rows ≡ view.height)
unfolding ready_grid rotate_packed_rows
ready_grid-styles r view =
    let grid : PackedGrid = ensure_packed_grid r.packed_grid_cache view.width view.height in
    let same = ensure_packed_grid-styles r.packed_grid_cache view.width view.height in
    elim (Bool-cases (can_reuse r view)) [
      | inl e ↦ rw (ready_grid, e) (ground (arith, same))
      | inr e ↦ rw (ready_grid, e) same
    ]

ensure_styles-IsDistinct :
    (styles : List PackedStyle)
    → IsDistinct styles
    → length styles ≤ max_styles
    → IsDistinct (ensure_styles styles)
      × (length (ensure_styles styles) ≤ max_styles)
      × (0 < length (ensure_styles styles))
unfolding ensure_styles
ensure_styles-IsDistinct [] h k = ((tt, tt), omega arith, omega arith)
ensure_styles-IsDistinct (s ∷ styles) h k = (h, k, omega arith)

drawn_context-IsBoxed :
    (encode : ℕ → List ℕ) (r : Renderer) (view : ScreenView)
    → view.height < 2 ^ 32
    → 128 * length (view.drawn (since r view)).0 < 2 ^ 32
    → IsDistinct r.packed_grid_cache.styles
    → length r.packed_grid_cache.styles ≤ max_styles
    → IsBoxed (drawn_context encode r view).dirty (drawn_context encode r view).dirty_spans
unfolding drawn_context draw_context
drawn_context-IsBoxed encode r view height room distinct bounded =
    let (styles, rows) = ready_grid-styles r view in
    let (new_distinct, new_bounded, new_styled) =
      ensure_styles-IsDistinct r.packed_grid_cache.styles distinct bounded in
    let start : IsRecorded (draw_context r view) = record {
      boxed = tt;
      distinct = rw styles new_distinct;
      bounded = rw styles new_bounded;
      styled = rw styles new_styled;
      placed = tt;
    } in
    let recorded =
      draw_cells-IsRecorded encode (draw_context r view) (view.drawn (since r view)).0
        (rw rows height) (omega (arith, room)) start in
    recorded.boxed

tracked-IsBoxed :
    (encode : ℕ → List ℕ) (r : Renderer) (view : ScreenView)
    → view.height < 2 ^ 32
    → 128 * length (view.drawn (since r view)).0 < 2 ^ 32
    → IsDistinct r.packed_grid_cache.styles
    → length r.packed_grid_cache.styles ≤ max_styles
    → IsBoxed (tracked encode r view).0 (tracked encode r view).1
unfolding tracked
tracked-IsBoxed encode r view height room distinct bounded = with_scroll-IsBoxed r view _ (
    with_cursors-IsBoxed r view _ height
      (drawn_context-IsBoxed encode r view height room distinct bounded))

-- What the frame says of the changes: either all of it is to be painted, and its spans cover exactly
-- the grid, or its spans lie inside its region; and either it is changed and has the next
-- generation, or it has no cell to paint, no spans and the generation of the frame before.
abbrev pub IsConsistent : Renderer → ScreenView → PackedFrame → Type 0
IsConsistent r view frame =
    (((frame.full_repaint ≡ true)
        × ((x y : ℕ) → Covers frame.dirty_spans x y ↔ ((x < view.width) × (y < view.height))))
      ⊎ ((frame.full_repaint ≡ false) × IsBoxed frame.dirty frame.dirty_spans))
    × (((frame.changed ≡ true) × (frame.generation ≡ u64 (r.packed_generation + 1)))
        ⊎ ((frame.changed ≡ false)
            × (frame.full_repaint ≡ false)
            × (dirty_empty frame.dirty ≡ true)
            × (frame.dirty_spans ≡ [])
            × (frame.generation ≡ r.packed_generation)))

make_frame-IsConsistent :
    (r : Renderer) (view : ScreenView) (repaint : Bool) (dirty : DirtyRegion)
    (spans : List DirtySpan) (grid : PackedGrid)
    → (repaint ≡ false → IsBoxed dirty spans)
    → IsConsistent r view (make_frame r view repaint dirty spans grid)
unfolding make_frame
make_frame-IsConsistent r view true dirty spans grid boxed = (
  inl (refl, λ x y. include_full_spans-Covers spans view.width view.height x y),
  inl (refl, refl),
)
make_frame-IsConsistent r view false dirty spans grid boxed = (
  inr (refl, boxed refl),
  elim (Bool-cases (dirty_empty dirty)) [
    | inl e ↦ rw e (inr (refl, refl, refl, boxed_nothing dirty spans e (boxed refl), refl))
    | inr e ↦ rw e (inl (refl, refl))
  ],
)

final_repaint-false :
    (repaint : Bool) (age : ℕ) (view : ScreenView) (d : DirtyRegion)
    → final_repaint repaint age view d ≡ false
    → final_dirty repaint age view d ≡ d
unfolding final_repaint final_dirty
final_repaint-false true age view d e = absurd (cc)
final_repaint-false false age view d e = elim (Bool-cases (age == 0)) [
  | inl f ↦ absurd (ground (arith, e, f))
  | inr f ↦ rw (final_dirty, f) refl
]

-- For a screen of fewer than 2 ^ 32 rows whose drawn cells' texts fit in 32 bits at 128 bytes each, and
-- a table of distinct styles within its limit, a frame of `TakePackedFrame` is consistent. Either it
-- is to be painted in full and its spans cover exactly the grid, or its spans lie inside its region;
-- and either it is changed and has the next generation, or it has no cell to paint, no spans and
-- the generation before it.
pub take_packed_frame-IsConsistent :
    (encode : ℕ → List ℕ) (latency : ℕ) (r : Renderer) (view : ScreenView)
    → view.height < 2 ^ 32
    → 128 * length (view.drawn (since r view)).0 < 2 ^ 32
    → IsDistinct r.packed_grid_cache.styles
    → length r.packed_grid_cache.styles ≤ max_styles
    → IsConsistent r view (take_packed_frame encode latency r view).0
unfolding take_packed_frame
take_packed_frame-IsConsistent encode latency r view height room distinct bounded =
    let age : ℕ = (view.drawn (since r view)).1 in
    let dirty : DirtyRegion = (tracked encode r view).0 in
    let boxed = tracked-IsBoxed encode r view height room distinct bounded in
    make_frame-IsConsistent r view (final_repaint (repaints r view) age view dirty)
      (final_dirty (repaints r view) age view dirty) (tracked encode r view).1
      (take_packed_frame encode latency r view).0.grid
      (λ e. rw (final_repaint-false (repaints r view) age view dirty e) boxed)
