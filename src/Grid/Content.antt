-- ===== src/Grid/Content.antt =====
-- `RebuildPackedRows` of src/terminal_core.cpp, as what a reader of the grid sees.
use sakura_wx_prototype.Prelude.{
  ℕ, zero, suc, ◌*◌, ◌%◌, ◌^◌, slice, ◌≤◌, ◌<◌, ◌≡◌, refl, sym, ap, ◌≢◌, ◌∙◌, inl, inr, List, [],
  ◌∷◌, Option, none, some, arith, ◌==◌, length, length-set, get_elem?, set, get_elem?-set_self,
  get_elem?-set_ne, get_elem?-some_of_lt, Bool-cases, Option-cases, All, All-get, All-map,
}
use sakura_wx_prototype.Grid.{PackedRow, PackedGrid}
use sakura_wx_prototype.Grid.Rebuild.{
  ChangedCell, changed_piece, old_piece, sort_changes, split_row, rebuild_row, rebuild_rows,
  rebuild_packed_rows,
}
use sakura_wx_prototype.Grid.Sort.{
  find_change, find_column, IsDistinct, IsSorted, Rises, find_change-sort, sort-IsSorted,
  sort-keeps, length-sort,
}
use sakura_wx_prototype.Grid.Split.{
  Starts, split_row-other, split_row-same, split_row-keeps, split_row-IsSorted, length-split_row_lt,
}
use sakura_wx_prototype.Grid.RowContent.{
  CellContent, piece_content, row_content, expected, IsShort, rebuild_row-IsShort,
  rebuild_row-content,
}

-- What a reader sees at a row and a column.
abbrev pub grid_content : List PackedRow → ℕ → ℕ → Option CellContent
grid_content row_data r k = elim (get_elem? row_data r) [
  | none ↦ none
  | some row ↦ row_content row k
]

-- What a change is to show: its code point, its style, its width in 8 bits, and its part of the
-- text of the changes.
abbrev pub change_content : List ℕ → ChangedCell → CellContent
change_content changed_text c = record {
  codepoint = c.codepoint;
  style_index = c.style_index;
  width = c.width % 2 ^ 8;
  bytes = slice changed_text c.text_offset c.text_length;
}

-- What is to be seen there after some changes.
unfoldable pub updated : List ℕ → Option ChangedCell → Option CellContent → Option CellContent
updated changed_text none old = old
updated changed_text (some c) old = some (change_content changed_text c)

-- A row of the grid that can be read in every column.
abbrev pub IsReadable : ℕ → PackedRow → Type 0
IsReadable columns row = (k : ℕ) → k < columns → (v : CellContent) × (row_content row k ≡ some v)

readable_piece :
    (row : PackedRow) (k : ℕ) (v : CellContent)
    → row_content row k ≡ some v
    → row_content row k ≡ some (piece_content (old_piece (some row) k))
unfolding old_piece
readable_piece row k v e = elim (Option-cases (get_elem? row.cells k)) [
  | inl h ↦ ground arith
  | inr (cell, h) ↦ ground arith
]

All-set {ℓ κ} :
    {A : Type ℓ} (P : A → Type κ) (xs : List A) (i : ℕ) (v : A)
    → All P xs
    → P v
    → All P (set xs i v)
All-set P [] i v h p = tt
All-set P (x ∷ xs) zero v h p = (p, h.1)
All-set P (x ∷ xs) (suc i) v h p = (h.0, All-set P xs i v h.1 p)

-- A piece that the row's changes pick, against the whole list of changes.
expected-updated :
    (row : PackedRow) (changed_text : List ℕ) (same : List ChangedCell) (k : ℕ) (v : CellContent)
    → row_content row k ≡ some v
    → some (piece_content (expected (some row) changed_text same k))
      ≡ updated changed_text (find_column same k) (row_content row k)
unfolding expected updated changed_piece
expected-updated row changed_text same k v e = elim (Option-cases (find_column same k)) [
  | inl h ↦ rw (h, expected) (sym (readable_piece row k v e))
  | inr (c, h) ↦ rw (h, expected)
]

find_change-nil : (r k : ℕ) → find_change [] r k ≡ none
unfolding find_change
find_change-nil r k = refl

module _ (columns size : ℕ) (changed_text : List ℕ) (fits : columns * size < 2 ^ 32) where
  -- A row that the loop may rebuild or leave.
  abbrev pub IsSound : PackedRow → Type 0
  IsSound row = IsShort size row × IsReadable columns row

  rebuilt-content :
      (row : PackedRow) (same : List ChangedCell) (k : ℕ)
      → IsSound row
      → All (λ c. c.text_length ≤ size) same
      → Rises 0 same
      → k < columns
      → row_content (rebuild_row (some row) changed_text columns same) k
        ≡ updated changed_text (find_column same k) (row_content row k)
  rebuilt-content row same k sound short rises inside =
      let (v, e) = sound.1 k inside in
      rebuild_row-content row changed_text columns size same k sound.0 short fits rises inside
      ∙ expected-updated row changed_text same k v e

  rebuilt-IsSound :
      (row : PackedRow) (same : List ChangedCell)
      → IsSound row
      → All (λ c. c.text_length ≤ size) same
      → Rises 0 same
      → IsSound (rebuild_row (some row) changed_text columns same)
  rebuilt-IsSound row same sound short rises = (
    rebuild_row-IsShort row changed_text columns size same sound.0 short,
    λ k inside. (
      piece_content (expected (some row) changed_text same k),
      rebuild_row-content row changed_text columns size same k sound.0 short fits rises inside,
    ),
  )

  -- A round for another row, and the round for the row itself.
  set-content_other :
      (row_data : List PackedRow) (row r k : ℕ) (new : PackedRow)
      → r ≢ row
      → grid_content (set row_data row new) r k ≡ grid_content row_data r k
  set-content_other row_data row r k new ne =
      ap (λ (o : Option PackedRow). elim o [ none ↦ none | some row ↦ row_content row k ])
        (get_elem?-set_ne row_data new (λ e. ne (sym e)))

  set-content_self :
      (row_data : List PackedRow) (row k : ℕ) (new : PackedRow)
      → row < length row_data
      → grid_content (set row_data row new) row k ≡ row_content new k
  set-content_self row_data row k new inside =
      ap (λ (o : Option PackedRow). elim o [ none ↦ none | some row ↦ row_content row k ])
        (get_elem?-set_self row_data row new inside)

  -- The loop over the rows, with fuel for its changes.
  rebuild_rows-content :
      (fuel : ℕ) (row_data : List PackedRow) (changes : List ChangedCell) (r k : ℕ)
      → length changes ≤ fuel
      → IsSorted changes
      → All (λ c. c.text_length ≤ size) changes
      → All (λ c. c.row < length row_data) changes
      → All IsSound row_data
      → k < columns
      → grid_content (rebuild_rows fuel columns changed_text row_data changes) r k
        ≡ updated changed_text (find_change changes r k) (grid_content row_data r k)
  unfolding rebuild_rows updated
  rebuild_rows-content zero row_data [] r k f s short rows sound inside =
      ap (λ o. updated changed_text o (grid_content row_data r k)) (sym (find_change-nil r k))
  rebuild_rows-content zero row_data (c ∷ changes) r k f s short rows sound inside =
      absurd (omega arith)
  rebuild_rows-content (suc fuel) row_data [] r k f s short rows sound inside =
      ap (λ o. updated changed_text o (grid_content row_data r k)) (sym (find_change-nil r k))
  rebuild_rows-content (suc fuel) row_data (c ∷ changes) r k f s short rows sound inside =
      let (row, at) = get_elem?-some_of_lt row_data c.row rows.0 in
      let (same, rest) = split_row c.row (c ∷ changes) in
      let new = rebuild_row (some row) changed_text columns same in
      let start : Starts c.row 0 (c ∷ changes) = inr (refl, omega arith) in
      let own = split_row-same c.row 0 k (c ∷ changes) s start in
      let shorts = split_row-keeps (λ c. c.text_length ≤ size) c.row (c ∷ changes) short in
      let places = split_row-keeps (λ c. c.row < length row_data) c.row (c ∷ changes) rows in
      let was = All-get IsSound row_data c.row row sound at in
      let now = rebuilt-IsSound row same was shorts.0 own.2 in
      let later =
        rebuild_rows-content fuel (set row_data c.row new) rest r k
          (omega (arith, length-split_row_lt c changes)) (split_row-IsSorted c.row (c ∷ changes) s)
          shorts.1 (All-map (λ d h. rw (length-set row_data c.row new) h) rest places.1)
          (All-set IsSound row_data c.row new sound now) inside in
      let here : grid_content row_data c.row k ≡ row_content row k =
        ap (λ (o : Option PackedRow). elim o [ none ↦ none | some row ↦ row_content row k ]) at in
      rw at (
        later ∙ elim (Bool-cases (r == c.row)) [
          | inl e ↦
              let q : r ≡ c.row = ground arith in
              rw q (
                ap (λ o. updated changed_text o (grid_content (set row_data c.row new) c.row k))
                  own.1
                ∙ set-content_self row_data c.row k new rows.0
                ∙ rebuilt-content row same k was shorts.0 own.2 inside
                ∙ λ i. updated changed_text (own.0 i) (sym here i))
          | inr e ↦
              let ne : r ≢ c.row = λ q. ground arith in
              λ i.
                updated changed_text (split_row-other c.row r k (c ∷ changes) ne i)
                  (set-content_other row_data c.row r k new ne i)
        ])

module _ (columns size : ℕ) (changed_text : List ℕ) (fits : columns * size < 2 ^ 32) where
  -- The loop keeps every row sound, and their number.
  pub rebuild_rows-IsSound :
      (fuel : ℕ) (row_data : List PackedRow) (changes : List ChangedCell)
      → IsSorted changes
      → All (λ c. c.text_length ≤ size) changes
      → All (λ c. c.row < length row_data) changes
      → All (IsSound columns size changed_text fits) row_data
      → All
          (IsSound columns size changed_text fits)
          (rebuild_rows fuel columns changed_text row_data changes)
        × (length (rebuild_rows fuel columns changed_text row_data changes) ≡ length row_data)
  unfolding rebuild_rows
  rebuild_rows-IsSound zero row_data changes s short rows sound = (sound, refl)
  rebuild_rows-IsSound (suc fuel) row_data [] s short rows sound = (sound, refl)
  rebuild_rows-IsSound (suc fuel) row_data (c ∷ changes) s short rows sound =
      let (row, at) = get_elem?-some_of_lt row_data c.row rows.0 in
      let (same, rest) = split_row c.row (c ∷ changes) in
      let new = rebuild_row (some row) changed_text columns same in
      let own = split_row-same c.row 0 0 (c ∷ changes) s (inr (refl, omega arith)) in
      let shorts = split_row-keeps (λ c. c.text_length ≤ size) c.row (c ∷ changes) short in
      let places = split_row-keeps (λ c. c.row < length row_data) c.row (c ∷ changes) rows in
      let was = All-get (IsSound columns size changed_text fits) row_data c.row row sound at in
      let now = rebuilt-IsSound columns size changed_text fits row same was shorts.0 own.2 in
      let later =
        rebuild_rows-IsSound fuel (set row_data c.row new) rest
          (split_row-IsSorted c.row (c ∷ changes) s) shorts.1
          (All-map (λ d h. rw (length-set row_data c.row new) h) rest places.1)
          (All-set (IsSound columns size changed_text fits) row_data c.row new sound now) in
      rw at (later.0, later.1 ∙ length-set row_data c.row new)

-- After `RebuildPackedRows` a reader sees, at every row and column, the code point, the style, the width
-- (modulo 2 ^ 8) and the bytes of text of the change for that cell if there is one, and otherwise what the grid showed before. The changes are for different cells, in any
-- order, and for rows that the grid has; no text is longer than `size`, every cell of the grid can be
-- read, and the text of a whole row stays below 2 ^ 32 bytes.
pub rebuild_packed_rows-content :
    (grid : PackedGrid) (changes : List ChangedCell) (changed_text : List ℕ) (size r k : ℕ)
    → grid.columns * size < 2 ^ 32
    → IsDistinct changes
    → All (λ c. c.text_length ≤ size) changes
    → All (λ c. c.row < length grid.row_data) changes
    → All (λ row. IsShort size row × IsReadable grid.columns row) grid.row_data
    → k < grid.columns
    → grid_content (rebuild_packed_rows grid changes changed_text).row_data r k
      ≡ updated changed_text (find_change changes r k) (grid_content grid.row_data r k)
unfolding rebuild_packed_rows
rebuild_packed_rows-content grid changes changed_text size r k fits distinct short rows sound
      inside =
    rebuild_rows-content grid.columns size changed_text fits (length changes) grid.row_data
      (sort_changes changes) r k (omega (arith, length-sort changes))
      (sort-IsSorted changes distinct) (sort-keeps (λ c. c.text_length ≤ size) changes short)
      (sort-keeps (λ c. c.row < length grid.row_data) changes rows) sound inside
    ∙ ap (λ o. updated changed_text o (grid_content grid.row_data r k))
        (find_change-sort changes r k)
