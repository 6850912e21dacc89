-- ===== src/Backend/Viewport.antt =====
-- The pending movement of the viewport in src/terminal_core.cpp.
use sakura_wx_prototype.Prelude.{ℕ, ◌+◌, ◌≡◌, List, [], ◌∷◌, arith, ltb, ◌==◌, if_cases}
use sakura_wx_prototype.Prelude.Int.{
  ℤ, pos_part, neg_part, magnitude, sub_ℕ, sub_ℕ-parts, sum_parts,
}
use sakura_wx_prototype.Backend.{
  Libtsm, Backend, scroll_to, scroll_page_up, scroll_page_down, scroll_lines,
}

pub data ScrollOperation : Type 0 where
  page_up page_down : ℕ → ScrollOperation
  lines : ℤ → ScrollOperation

module _ {S : Type 0} (tsm : Libtsm S) where
  unfoldable pub scroll_all : List ScrollOperation → Backend S → Backend S
  unfolding scroll_page_up scroll_page_down scroll_lines
  scroll_all [] b = b
  scroll_all (page_up pages ∷ operations) b = scroll_all operations (scroll_page_up tsm pages b)
  scroll_all (page_down pages ∷ operations) b = scroll_all operations (scroll_page_down tsm pages b)
  scroll_all (lines n ∷ operations) b = scroll_all operations (scroll_lines tsm n b)

  -- The pending movement has changed by as much as the position of the viewport.
  abbrev pub Follows : Backend S → Backend S → Type 0
  Follows before after =
      pos_part after.pending_viewport_scroll_delta
        + neg_part before.pending_viewport_scroll_delta
        + (tsm.lines before.screen).line_pos
      ≡ neg_part after.pending_viewport_scroll_delta
        + pos_part before.pending_viewport_scroll_delta
        + (tsm.lines after.screen).line_pos

  scroll_to-Follows : (screen : S) (b : Backend S) → Follows b (scroll_to tsm screen b)
  unfolding scroll_to
  scroll_to-Follows screen b =
      let moved = sub_ℕ-parts (tsm.lines screen).line_pos (tsm.lines b.screen).line_pos in
      let total =
        sum_parts b.pending_viewport_scroll_delta
          (sub_ℕ (tsm.lines screen).line_pos (tsm.lines b.screen).line_pos) in
      omega (arith, moved.0, moved.1, total.0, total.1)

  scroll_lines-Follows : (n : ℤ) (b : Backend S) → Follows b (scroll_lines tsm n b)
  unfolding scroll_lines
  scroll_lines-Follows n b =
      if_cases (λ after. Follows b after) (magnitude n == 0) b _ (λ none. omega arith)
        (λ some.
          if_cases (λ after. Follows b after) (ltb 0 (pos_part n)) _ _
            (λ up. scroll_to-Follows (tsm.up (pos_part n) b.screen) b)
            (λ down. scroll_to-Follows (tsm.down (neg_part n) b.screen) b))

  -- Under any sequence of scrolls, by pages or lines, up or down, wherever libtsm stops them, the
  -- pending movement of the viewport grows by exactly the change of libtsm's line position: nothing is
  -- lost at either end of the history.
  pub scroll_all-Follows :
      (operations : List ScrollOperation) (b : Backend S) → Follows b (scroll_all operations b)
  unfolding scroll_all scroll_page_up scroll_page_down
  scroll_all-Follows [] b = omega arith
  scroll_all-Follows (page_up pages ∷ operations) b =
      let first = scroll_to-Follows (tsm.page_up pages b.screen) b in
      let rest = scroll_all-Follows operations (scroll_page_up tsm pages b) in
      omega (arith, first, rest)
  scroll_all-Follows (page_down pages ∷ operations) b =
      let first = scroll_to-Follows (tsm.page_down pages b.screen) b in
      let rest = scroll_all-Follows operations (scroll_page_down tsm pages b) in
      omega (arith, first, rest)
  scroll_all-Follows (lines n ∷ operations) b =
      let first = scroll_lines-Follows n b in
      let rest = scroll_all-Follows operations (scroll_lines tsm n b) in omega (arith, first, rest)
