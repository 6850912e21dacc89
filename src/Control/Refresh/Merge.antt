-- ===== src/Control/Refresh/Merge.antt =====
-- What a merged frame repaints in src/wx/terminal_ctrl.cpp.
use sakura_wx_prototype.Prelude.{
  ℕ, ◌+◌, ◌<◌, ◌≡◌, refl, ap, ◌∙◌, ◌⊎◌, inl, inr, true, false, Bool, ◌||◌, some, arith, Bool-cases,
}
use sakura_wx_prototype.Prelude.Int.{
  ℤ, pos_part, neg_part, magnitude, ◌+ℤ◌, magnitude_parts, sum_parts,
}
use mathlib.Core.Path.{subst}
use sakura_wx_prototype.Dirty.{DirtyRegion, dirty_empty}
use sakura_wx_prototype.Dirty.Region.{InRegion}
use sakura_wx_prototype.Take.{PackedFrame}
use sakura_wx_prototype.Frame.Info.{FrameInfo, info_of}
use sakura_wx_prototype.Paint.Surface.{Picture}
use sakura_wx_prototype.Paint.Surface.Shows.{IsBelow}
use sakura_wx_prototype.Control.Refresh.{
  PendingFrame, merge_dirty, own_dirty, merge_frame, refresh_with, request_frame_refresh,
}

-- The frame with this information is right for the picture `before`: each cell that it does not
-- mark for painting shows what `before` shows, `scroll_delta` rows below.
abbrev pub IsUpdate : {A : Type 0} → Picture A → Picture A → FrameInfo → DirtyRegion → Type 0
IsUpdate before drawn info dirty =
    (x y : ℕ)
    → x < info.columns
    → y < info.rows
    → ¬ InRegion dirty x y
    → (z : ℕ) × IsBelow info.scroll_delta y z × (z < info.rows) × (drawn x y ≡ before x z)

merge_dirty-inside :
    (pending : PendingFrame) (info : FrameInfo) (dirty : DirtyRegion) (x y : ℕ)
    → pending.full_repaint ≡ false
    → dirty_empty dirty ≡ false
    → InRegion dirty x y ⊎ InRegion pending.dirty x y
    → InRegion (merge_dirty pending info dirty) x y
unfolding merge_dirty dirty_empty
merge_dirty-inside pending info dirty x y full some_cells (inl h) = ground arith
merge_dirty-inside pending info dirty x y full some_cells (inr h) = ground arith

merge_dirty-outside :
    (pending : PendingFrame) (info : FrameInfo) (dirty : DirtyRegion) (x y : ℕ)
    → pending.full_repaint ≡ false
    → dirty_empty dirty ≡ false
    → ¬ InRegion (merge_dirty pending info dirty) x y
    → (¬ InRegion dirty x y) × (¬ InRegion pending.dirty x y)
merge_dirty-outside pending info dirty x y full some_cells outside = (
  λ h. outside (merge_dirty-inside pending info dirty x y full some_cells (inl h)),
  λ h. outside (merge_dirty-inside pending info dirty x y full some_cells (inr h)),
)

-- The frame is to be painted in full, or marks some cell.
abbrev pub MarksCell : PackedFrame → Type 0
MarksCell frame = (frame.full_repaint ≡ true) ⊎ ((x : ℕ) × (y : ℕ) × InRegion frame.dirty x y)

MarksCell-dirty :
    (frame : PackedFrame)
    → frame.full_repaint ≡ false
    → MarksCell frame
    → dirty_empty frame.dirty ≡ false
unfolding dirty_empty
MarksCell-dirty frame part (inl all) = absurd (ground arith)
MarksCell-dirty frame part (inr (x, y, inside)) = ground arith

either_full : (a b : Bool) → (a || b) ≡ true → (a ≡ true) ⊎ (b ≡ true)
either_full true b e = inl refl
either_full false b e = inr e

-- A movement by the first integer and then by the second is a movement by their sum.
moves_add :
    (a b : ℤ) (y u z : ℕ)
    → y + pos_part a ≡ u + neg_part a
    → u + pos_part b ≡ z + neg_part b
    → y + pos_part (a +ℤ b) ≡ z + neg_part (a +ℤ b)
moves_add a b y u z first second = let (p, n) = sum_parts a b in omega (arith, p, n)

module _ {A : Type 0} (shown waiting drawn : Picture A) (frame : PackedFrame)
    (pending : PendingFrame) (changed : frame.changed ≡ true) (some_cells : MarksCell frame)
    (still : magnitude frame.scroll_delta ≡ 0) (same_columns : pending.info.columns ≡ frame.columns)
    (same_rows : pending.info.rows ≡ frame.rows) where
  abbrev merged : PendingFrame
  unfolding merge_frame
  merged = merge_frame (some pending) frame (info_of frame)

  merged-IsUpdate :
      merged.full_repaint ≡ false
      → (pending.full_repaint ≡ true) ⊎ IsUpdate shown waiting pending.info pending.dirty
      → (frame.full_repaint ≡ true) ⊎ IsUpdate waiting drawn (info_of frame) frame.dirty
      → IsUpdate shown drawn merged.info merged.dirty
  unfolding merge_frame
  merged-IsUpdate part (inl all) second x y inside_x inside_y outside = absurd (ground arith)
  merged-IsUpdate part first (inl all) x y inside_x inside_y outside = absurd (ground arith)
  merged-IsUpdate part (inr first) (inr second) x y inside_x inside_y outside =
      let new_part : frame.full_repaint ≡ false = ground arith in
      let old_part : pending.full_repaint ≡ false = ground arith in
      let own : own_dirty (info_of frame) ≡ frame.dirty = rw new_part refl in
      let marks : dirty_empty (own_dirty (info_of frame)) ≡ false =
        ap dirty_empty own ∙ MarksCell-dirty frame new_part some_cells in
      let (new_out, old_out) =
        merge_dirty-outside pending (info_of frame) (own_dirty (info_of frame)) x y old_part marks
          outside in
      let (u, first_move, u_inside, shows) =
        second x y inside_x inside_y (subst (λ d. ¬ InRegion d x y) own new_out) in
      let size = magnitude_parts frame.scroll_delta in
      let same : u ≡ y = omega arith in
      let (z, second_move, z_inside, showed) = first x y (omega arith) (omega arith) old_out in
      (
        z,
        moves_add frame.scroll_delta pending.info.scroll_delta y u z first_move (omega arith),
        omega arith,
        shows ∙ ap (waiting x) same ∙ showed,
      )

-- When a frame waits to be painted and `RequestFrameRefresh` takes a changed frame of the same
-- size that marks some cell, or is to be painted in full, and does not scroll, the frame that then
-- waits is the new one, to be painted in full because one of the two is, or right for the picture
-- of before both: each cell that it does not mark shows in the new frame's picture what that older
-- picture shows, as many rows below as the merged frame scrolls. This holds if the waiting frame
-- is right for the older picture, or is to be painted in full, and the new frame is right for the
-- picture of the waiting one, or is to be painted in full.
pub request_frame_refresh-IsUpdate :
    {A : Type 0} (shown waiting drawn : Picture A) (frame : PackedFrame) (pending : PendingFrame)
    (cell_width cell_height : ℕ)
    → frame.changed ≡ true
    → MarksCell frame
    → magnitude frame.scroll_delta ≡ 0
    → pending.info.columns ≡ frame.columns
    → pending.info.rows ≡ frame.rows
    → (pending.full_repaint ≡ true) ⊎ IsUpdate shown waiting pending.info pending.dirty
    → (frame.full_repaint ≡ true) ⊎ IsUpdate waiting drawn (info_of frame) frame.dirty
    → (m : PendingFrame) × ((request_frame_refresh cell_width cell_height
          (some frame)
          (some pending)).0
        ≡ some m)
      × (m.frame ≡ frame)
      × (((m.full_repaint ≡ true) × ((frame.full_repaint ≡ true) ⊎ (pending.full_repaint ≡ true)))
          ⊎ IsUpdate shown drawn m.info m.dirty)
unfolding request_frame_refresh refresh_with merge_frame
request_frame_refresh-IsUpdate shown waiting drawn frame pending cell_width cell_height changed
      some_cells still same_columns same_rows first second =
    let m = merge_frame (some pending) frame (info_of frame) in
    (
      m,
      rw changed refl,
      refl,
      elim (Bool-cases m.full_repaint) [
        | inl all ↦ inl (all, either_full frame.full_repaint pending.full_repaint all)
        | inr part ↦ inr (
            merged-IsUpdate shown waiting drawn frame pending changed some_cells still same_columns
              same_rows part first second)
      ],
    )
