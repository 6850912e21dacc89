-- ===== src/Paint/Durations/Window.antt =====
-- The ring of the durations in src/wx/terminal_renderer.cpp.
use sakura_wx_prototype.Prelude.{
  ℕ, ◌+◌, ◌%◌, ◌≤◌, ◌<◌, min, ◌≡◌, ◌≢◌, sym, ap, ◌∙◌, inl, inr, List, [], ◌∷◌, ◌++◌, ◌==◌, arith,
  Bool-cases, length, get_elem?, set, length-append, length-set, get_elem?-set_self,
  get_elem?-set_ne, get_elem?-append_left, get_elem?-append_length,
}
use sakura_wx_prototype.Paint.Durations.{PaintTimes, record_paint_duration}

-- The ring after these durations, oldest first: the last 256 of them are where the cursor was
-- when they came.
pub record IsWindow (durations : List ℕ) (t : PaintTimes) : Type 0 where
  pub size : length t.samples ≡ 256
  pub cursor : t.sample_cursor ≡ length durations % 256
  pub filled : t.sample_count ≡ min (length durations) 256
  pub kept :
      (j : ℕ)
      → j < length durations
      → length durations ≤ j + 256
      → get_elem? t.samples (j % 256) ≡ get_elem? durations j

-- Recording a duration in a ring that has the last 256 durations gives the ring that has the last
-- 256 with the new one: the cursor is where the next goes, and the count is the durations' number
-- up to 256.
pub record_paint_duration-IsWindow :
    (durations : List ℕ) (t : PaintTimes) (elapsed : ℕ)
    → IsWindow durations t
    → IsWindow (durations ++ elapsed ∷ []) (record_paint_duration elapsed t)
unfolding record_paint_duration
record_paint_duration-IsWindow durations t elapsed h =
    let longer = length-append durations (elapsed ∷ []) in
    record {
      size = length-set t.samples t.sample_cursor elapsed ∙ h.size;
      cursor = omega (arith, longer, h.cursor);
      filled = omega (arith, longer, h.filled);
      kept = λ j inside recent. elim (Bool-cases (j == length durations)) [
        | inl e ↦
            let last : j ≡ length durations = ground arith in
            let here : t.sample_cursor ≡ j % 256 = omega (arith, h.cursor) in
            let room : t.sample_cursor < length t.samples = omega (arith, h.cursor, h.size) in
            ap (get_elem? (set t.samples t.sample_cursor elapsed)) (sym here)
            ∙ get_elem?-set_self t.samples t.sample_cursor elapsed room
            ∙ sym (get_elem?-append_length durations elapsed [])
            ∙ ap (get_elem? (durations ++ elapsed ∷ [])) (sym last)
        | inr e ↦
            let before : j < length durations = ground (arith, longer) in
            let apart : t.sample_cursor ≢ j % 256 = omega (arith, h.cursor, longer) in
            get_elem?-set_ne t.samples elapsed apart
            ∙ h.kept j before (omega (arith, longer))
            ∙ sym (get_elem?-append_left durations (elapsed ∷ []) j before)
      ];
    }
