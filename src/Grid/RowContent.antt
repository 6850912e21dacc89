-- ===== src/Grid/RowContent.antt =====
-- What a rebuilt row of src/terminal_core.cpp shows in each column: the change for that column,
-- or what the old row showed.
use mathlib.Core.List.{append-nil, append_assoc}
use sakura_wx_prototype.Prelude.{
  ℕ, zero, suc, ◌+◌, ◌*◌, ◌^◌, ◌≤◌, ◌<◌, ◌≡◌, refl, sym, ap, ◌∙◌, inl, inr, true, List, [], ◌∷◌,
  ◌++◌, Option, none, some, arith, ◌==◌, if◌then◌else◌, length, length-append, get_elem?, drop,
  slice, drop-append, take-append, Bool-cases, All, All-get, Option-cases, length-take,
}
use sakura_wx_prototype.Prelude.Word.{u32}
use sakura_wx_prototype.Grid.{PackedCell, PackedRow, text_valid}
use sakura_wx_prototype.Grid.Rebuild.{
  ChangedCell, Piece, old_piece, changed_piece, pick, rebuild_cells, rebuild_row,
}
use sakura_wx_prototype.Grid.Sort.{Rises, Rises-le, find_column, find_column-Rises}

-- What a reader of the grid sees of a cell.
pub record CellContent : Type 0 where
  pub codepoint : ℕ
  pub style_index : ℕ
  pub width : ℕ
  pub bytes : List ℕ

abbrev pub cell_content : PackedCell → List ℕ → CellContent
cell_content cell bytes = record {
  codepoint = cell.codepoint;
  style_index = cell.style_index;
  width = cell.width;
  bytes = bytes;
}

abbrev pub piece_content : Piece → CellContent
piece_content p = cell_content p.cell p.source

-- The content of a column, if the column exists and its text lies in the row's text.
abbrev pub read_cell : List ℕ → Option PackedCell → Option CellContent
read_cell text none = none
read_cell text (some cell) =
    if text_valid text cell.text_offset cell.text_length
    then some (cell_content cell (slice text cell.text_offset cell.text_length))
    else none

abbrev pub read_column : List PackedCell → List ℕ → ℕ → Option CellContent
read_column cells text column = read_cell text (get_elem? cells column)

abbrev pub row_content : PackedRow → ℕ → Option CellContent
row_content row column = read_column row.cells row.text column

slice-middle : (a b c : List ℕ) → slice ((a ++ b) ++ c) (length a) (length b) ≡ b
slice-middle a b c = rw (append_assoc a b c, drop-append a (b ++ c)) (take-append b c)

-- A piece that has been appended to the text is read back.
read_piece :
    (p : Piece) (text more final : List ℕ)
    → final ≡ (text ++ p.source) ++ more
    → length final < 2 ^ 32
    → read_cell final (
        some
          (record p.cell { text_offset = u32 (length text); text_length = u32 (length p.source) }))
      ≡ some (piece_content p)
read_piece p text more final e small =
    let total : length final ≡ length text + length p.source + length more =
      omega
        (arith, ap length e, length-append (text ++ p.source) more, length-append text p.source) in
    let offset : u32 (length text) ≡ length text = omega arith in
    let count : u32 (length p.source) ≡ length p.source = omega arith in
    let valid : text_valid final (length text) (length p.source) ≡ true = ground arith in
    let bytes : slice final (length text) (length p.source) ≡ p.source =
      rw e (slice-middle text p.source more) in
    rw (offset, count, valid, bytes)

length-slice-le : (xs : List ℕ) (offset count : ℕ) → length (slice xs offset count) ≤ count
length-slice-le xs offset count = omega (arith, length-take count (drop offset xs))

module _ (old : Option PackedRow) (changed_text : List ℕ) where
  -- What the column is to show.
  unfoldable pub expected : List ChangedCell → ℕ → Piece
  expected changes column = elim (find_column changes column) [
    | none ↦ old_piece old column
    | some c ↦ changed_piece changed_text c
  ]

  pick-expected :
      (changes : List ChangedCell) (column : ℕ)
      → Rises column changes
      → (pick old changed_text changes column).0 ≡ expected changes column
  unfolding pick expected find_column
  pick-expected [] column h = refl
  pick-expected (c ∷ changes) column h =
      ground (arith, find_column-Rises changes (suc c.column) column h.1)

  pick-Rises :
      (changes : List ChangedCell) (column : ℕ)
      → Rises column changes
      → Rises (column + 1) (pick old changed_text changes column).1
  unfolding pick
  pick-Rises [] column h = tt
  pick-Rises (c ∷ changes) column h = elim (Bool-cases (c.column == column)) [
    | inl e ↦ rw e (Rises-le changes (suc c.column) (column + 1) (ground arith) h.1)
    | inr e ↦ rw e (ground arith, h.1)
  ]

  pick-later :
      (changes : List ChangedCell) (column later : ℕ)
      → column < later
      → find_column (pick old changed_text changes column).1 later ≡ find_column changes later
  unfolding pick find_column
  pick-later [] column later h = refl
  pick-later (c ∷ changes) column later h = ground arith

  -- The text only grows.
  pub rebuild_cells-text :
      (count column : ℕ) (changes : List ChangedCell) (text : List ℕ)
      → (more : List ℕ) × ((rebuild_cells old changed_text count column changes text).1
          ≡ text ++ more)
  unfolding rebuild_cells
  rebuild_cells-text zero column changes text = ([], sym (append-nil text))
  rebuild_cells-text (suc count) column changes text =
      let (piece, rest) = pick old changed_text changes column in
      let (more, e) = rebuild_cells-text count (column + 1) rest (text ++ piece.source) in
      (piece.source ++ more, e ∙ append_assoc text piece.source more)

  expected-later :
      (changes : List ChangedCell) (column later : ℕ)
      → column < later
      → expected (pick old changed_text changes column).1 later ≡ expected changes later
  unfolding expected
  expected-later changes column later h = rw (pick-later changes column later h, expected)

  length-rebuild_cells :
      (count column : ℕ) (changes : List ChangedCell) (text : List ℕ)
      → length (rebuild_cells old changed_text count column changes text).0 ≡ count
  unfolding rebuild_cells
  length-rebuild_cells zero column changes text = refl
  length-rebuild_cells (suc count) column changes text =
      let (piece, rest) = pick old changed_text changes column in
      ap suc (length-rebuild_cells count (column + 1) rest (text ++ piece.source))

  rebuild_cells-content :
      (count column : ℕ) (changes : List ChangedCell) (text : List ℕ) (i : ℕ)
      → Rises column changes
      → i < count
      → length (rebuild_cells old changed_text count column changes text).1 < 2 ^ 32
      → read_column
          (rebuild_cells old changed_text count column changes text).0
          (rebuild_cells old changed_text count column changes text).1
          i
        ≡ some (piece_content (expected changes (column + i)))
  unfolding rebuild_cells
  rebuild_cells-content zero column changes text i h b small = absurd (omega arith)
  rebuild_cells-content (suc count) column changes text zero h b small =
      let (piece, rest) = pick old changed_text changes column in
      let (more, e) = rebuild_cells-text count (column + 1) rest (text ++ piece.source) in
      let here : column + zero ≡ column = omega arith in
      let shown : piece ≡ expected changes (column + zero) =
        pick-expected changes column h ∙ ap (expected changes) (sym here) in
      read_piece piece text more _ e small ∙ ap (λ p. some (piece_content p)) shown
  rebuild_cells-content (suc count) column changes text (suc i) h b small =
      let (piece, rest) = pick old changed_text changes column in
      let there : column + 1 + i ≡ column + suc i = omega arith in
      let shown : expected rest (column + 1 + i) ≡ expected changes (column + suc i) =
        expected-later changes column (column + 1 + i) (omega arith)
        ∙ ap (expected changes) there in
      rebuild_cells-content count (column + 1) rest (text ++ piece.source) i
        (pick-Rises changes column h) (omega arith) small
      ∙ ap (λ p. some (piece_content p)) shown

  -- No piece is longer than `size`.
  pick_bound :
      (size column : ℕ) (changes : List ChangedCell)
      → ((k : ℕ) → length (old_piece old k).source ≤ size)
      → All (λ c. c.text_length ≤ size) changes
      → (length (pick old changed_text changes column).0.source ≤ size)
        × All (λ c. c.text_length ≤ size) (pick old changed_text changes column).1
  unfolding pick changed_piece
  pick_bound size column [] ho hc = (ho column, tt)
  pick_bound size column (c ∷ changes) ho hc =
      let bytes = length-slice-le changed_text c.text_offset c.text_length in
      elim (Bool-cases (c.column == column)) [
        | inl e ↦ rw e (omega arith, hc.1)
        | inr e ↦ rw e (ho column, hc)
      ]

  rebuild_cells-text_le :
      (size count column : ℕ) (changes : List ChangedCell) (text : List ℕ)
      → ((k : ℕ) → length (old_piece old k).source ≤ size)
      → All (λ c. c.text_length ≤ size) changes
      → length (rebuild_cells old changed_text count column changes text).1
        ≤ length text + count * size
  unfolding rebuild_cells
  rebuild_cells-text_le size zero column changes text ho hc = omega arith
  rebuild_cells-text_le size (suc count) column changes text ho hc =
      let (piece, rest) = pick old changed_text changes column in
      let bound = pick_bound size column changes ho hc in
      omega (
        arith,
        bound.0,
        length-append text piece.source,
        rebuild_cells-text_le size count (column + 1) rest (text ++ piece.source) ho bound.1,
      )

-- No text of the row's cells is longer than `size`.
abbrev pub IsShort : ℕ → PackedRow → Type 0
IsShort size row = All (λ c. c.text_length ≤ size) row.cells

old_piece_bound :
    (size : ℕ) (row : PackedRow) (column : ℕ)
    → IsShort size row
    → length (old_piece (some row) column).source ≤ size
unfolding old_piece
old_piece_bound size row column h = elim (Option-cases (get_elem? row.cells column)) [
  | inl e ↦ ground arith
  | inr (cell, e) ↦
      let short : cell.text_length ≤ size =
        All-get (λ c. c.text_length ≤ size) row.cells column cell h e in
      let bytes = length-slice-le row.text cell.text_offset cell.text_length in ground arith
]

-- The text of a whole row.
pub rebuild_row-text_le :
    (row : PackedRow) (changed_text : List ℕ) (columns size : ℕ) (changes : List ChangedCell)
    → IsShort size row
    → All (λ c. c.text_length ≤ size) changes
    → length (rebuild_cells (some row) changed_text columns 0 changes []).1 ≤ columns * size
rebuild_row-text_le row changed_text columns size changes short shorts = omega (
  arith,
  rebuild_cells-text_le (some row) changed_text size columns 0 changes []
      (λ k. old_piece_bound size row k short) shorts,
)

-- Rebuilding a row with changes of rising columns gives a row in which every column shows its
-- change, if it has one, and otherwise what the old row showed, provided that the text of a whole
-- row stays below 2 ^ 32 bytes.
pub rebuild_row-content :
    (row : PackedRow) (changed_text : List ℕ) (columns size : ℕ) (changes : List ChangedCell)
    (column : ℕ)
    → IsShort size row
    → All (λ c. c.text_length ≤ size) changes
    → columns * size < 2 ^ 32
    → Rises 0 changes
    → column < columns
    → row_content (rebuild_row (some row) changed_text columns changes) column
      ≡ some (piece_content (expected (some row) changed_text changes column))
unfolding rebuild_row
rebuild_row-content row changed_text columns size changes column short shorts fits rises inside =
    let bound =
      rebuild_cells-text_le (some row) changed_text size columns 0 changes []
        (λ k. old_piece_bound size row k short) shorts in
    let start : 0 + column ≡ column = omega arith in
    rebuild_cells-content (some row) changed_text columns 0 changes [] column rises inside
      (omega arith)
    ∙ ap (λ k. some (piece_content (expected (some row) changed_text changes k))) start

-- A rebuilt row stays short.
module _ (old : Option PackedRow) (changed_text : List ℕ) where
  rebuild_cells-short :
      (size count column : ℕ) (changes : List ChangedCell) (text : List ℕ)
      → ((k : ℕ) → length (old_piece old k).source ≤ size)
      → All (λ c. c.text_length ≤ size) changes
      → All (λ c. c.text_length ≤ size) (rebuild_cells old changed_text count column changes text).0
  unfolding rebuild_cells
  rebuild_cells-short size zero column changes text ho hc = tt
  rebuild_cells-short size (suc count) column changes text ho hc =
      let (piece, rest) = pick old changed_text changes column in
      let bound = pick_bound old changed_text size column changes ho hc in
      (
        omega (arith, bound.0),
        rebuild_cells-short size count (column + 1) rest (text ++ piece.source) ho bound.1,
      )

pub rebuild_row-IsShort :
    (row : PackedRow) (changed_text : List ℕ) (columns size : ℕ) (changes : List ChangedCell)
    → IsShort size row
    → All (λ c. c.text_length ≤ size) changes
    → IsShort size (rebuild_row (some row) changed_text columns changes)
unfolding rebuild_row
rebuild_row-IsShort row changed_text columns size changes short shorts =
    rebuild_cells-short (some row) changed_text size columns 0 changes []
      (λ k. old_piece_bound size row k short) shorts
