-- ===== src/Frame/Layout.antt =====
-- How the texts of a row's cells lie in the row's text (`PackedRow` of src/terminal_core.cpp): one
-- behind the other, with nothing between.
use sakura_wx_prototype.Prelude.{
  ℕ, zero, suc, ◌+◌, ◌*◌, ◌^◌, ◌≤◌, ◌<◌, ◌≡◌, refl, ap, ◌∙◌, List, [], ◌∷◌, ◌++◌, Option, some,
  arith, length, length-append, length-replicate, get_elem?, All,
}
use sakura_wx_prototype.Prelude.Word.{u32}
use sakura_wx_prototype.Grid.{PackedCell, PackedRow, blank_cells, blank_row}
use sakura_wx_prototype.Grid.Rebuild.{ChangedCell, pick, rebuild_cells, rebuild_row}
use sakura_wx_prototype.Grid.RowContent.{IsShort, rebuild_cells-text, rebuild_row-text_le}

abbrev pub Packs : List PackedCell → ℕ → ℕ → Type 0
Packs [] offset end = offset ≡ end
Packs (cell ∷ cells) offset end =
    (cell.text_offset ≡ offset) × Packs cells (offset + cell.text_length) end

-- The cells' texts are the row's text, in order.
abbrev pub IsLaidOut : PackedRow → Type 0
IsLaidOut row = Packs row.cells 0 (length row.text)

-- Where the text of a column begins.
unfoldable pub offset_at : List PackedCell → ℕ → ℕ → ℕ
offset_at [] offset column = offset
offset_at (cell ∷ cells) offset zero = offset
offset_at (cell ∷ cells) offset (suc column) = offset_at cells (offset + cell.text_length) column

Packs-eq :
    (cells : List PackedCell) (offset offset' end end' : ℕ)
    → offset ≡ offset'
    → end ≡ end'
    → Packs cells offset end
    → Packs cells offset' end'
Packs-eq cells offset offset' end end' p q h = rw (← p, ← q) h

blank_cells-Packs : (count column : ℕ) → Packs (blank_cells count column) column (column + count)
unfolding blank_cells
blank_cells-Packs zero column = omega arith
blank_cells-Packs (suc count) column = (
  refl,
  Packs-eq (blank_cells count (suc column)) (suc column) (column + 1) (suc column + count)
      (column + suc count) (omega arith) (omega arith) (blank_cells-Packs count (suc column)),
)

rebuild_cells-Packs :
    (old : Option PackedRow) (changed_text : List ℕ) (count column : ℕ) (changes : List ChangedCell)
    (text : List ℕ)
    → length (rebuild_cells old changed_text count column changes text).1 < 2 ^ 32
    → Packs
        (rebuild_cells old changed_text count column changes text).0
        (length text)
        (length (rebuild_cells old changed_text count column changes text).1)
unfolding rebuild_cells
rebuild_cells-Packs old changed_text zero column changes text small = refl
rebuild_cells-Packs old changed_text (suc count) column changes text small =
    let (piece, rest) = pick old changed_text changes column in
    let (more, e) =
      rebuild_cells-text old changed_text count (column + 1) rest (text ++ piece.source) in
    let size = length-append text piece.source in
    let total = ap length e ∙ length-append (text ++ piece.source) more in
    let ih =
      rebuild_cells-Packs old changed_text count (column + 1) rest (text ++ piece.source) small in
    (omega arith, Packs-eq _ _ (length text + u32 (length piece.source)) _ _ (omega arith) refl ih)

pub blank_row-IsLaidOut : (columns : ℕ) → IsLaidOut (blank_row columns)
unfolding blank_row
blank_row-IsLaidOut columns =
    Packs-eq (blank_cells columns 0) 0 0 (0 + columns) _ refl
      (omega (arith, length-replicate {A = ℕ} columns b' ')) (blank_cells-Packs columns 0)

-- A row that `RebuildPackedRows` makes from texts of at most `size` bytes is laid out: its cells' texts
-- are the row's text, one behind the other, while a whole row stays below 2 ^ 32 bytes.
pub rebuild_row-IsLaidOut :
    (row : PackedRow) (changed_text : List ℕ) (columns size : ℕ) (changes : List ChangedCell)
    → columns * size < 2 ^ 32
    → IsShort size row
    → All (λ c. c.text_length ≤ size) changes
    → IsLaidOut (rebuild_row (some row) changed_text columns changes)
unfolding rebuild_row
rebuild_row-IsLaidOut row changed_text columns size changes fits short shorts =
    rebuild_cells-Packs (some row) changed_text columns 0 changes []
      (omega (arith, rebuild_row-text_le row changed_text columns size changes short shorts))

pub offset_at-cell :
    (cells : List PackedCell) (offset end column : ℕ) (cell : PackedCell)
    → Packs cells offset end
    → get_elem? cells column ≡ some cell
    → (cell.text_offset ≡ offset_at cells offset column)
      × (offset_at cells offset (suc column) ≡ cell.text_offset + cell.text_length)
unfolding offset_at
offset_at-cell [] offset end column cell h e = absurd (cc)
offset_at-cell (c ∷ []) offset end zero cell h e = ground arith
offset_at-cell (c ∷ d ∷ cells) offset end zero cell h e = ground arith
offset_at-cell (c ∷ cells) offset end (suc column) cell h e =
    offset_at-cell cells (offset + c.text_length) end column cell h.1 e

offset_at_ge :
    (cells : List PackedCell) (offset column : ℕ) → offset ≤ offset_at cells offset column
unfolding offset_at
offset_at_ge [] offset column = omega arith
offset_at_ge (c ∷ cells) offset zero = omega arith
offset_at_ge (c ∷ cells) offset (suc column) =
    omega (arith, offset_at_ge cells (offset + c.text_length) column)

pub offset_at_mono :
    (cells : List PackedCell) (offset column later : ℕ)
    → column ≤ later
    → offset_at cells offset column ≤ offset_at cells offset later
unfolding offset_at
offset_at_mono [] offset column later h = omega arith
offset_at_mono (c ∷ cells) offset zero later h = offset_at_ge (c ∷ cells) offset later
offset_at_mono (c ∷ cells) offset (suc column) zero h = absurd (omega arith)
offset_at_mono (c ∷ cells) offset (suc column) (suc later) h =
    offset_at_mono cells (offset + c.text_length) column later (omega arith)

pub offset_at-le :
    (cells : List PackedCell) (offset end column : ℕ)
    → Packs cells offset end
    → offset_at cells offset column ≤ end
unfolding offset_at
offset_at-le [] offset end column h = omega arith
offset_at-le (c ∷ cells) offset end zero h = omega (
  arith,
  offset_at-le cells (offset + c.text_length) end 0 h.1,
  offset_at_ge cells (offset + c.text_length) 0,
)
offset_at-le (c ∷ cells) offset end (suc column) h =
    offset_at-le cells (offset + c.text_length) end column h.1
