-- ===== src/Grid/Split.antt =====
-- One round of the loop of `RebuildPackedRows` in src/terminal_core.cpp takes the changes of a row
-- off the front of the sorted changes.
use sakura_wx_prototype.Prelude.{
  ℕ, suc, ◌≤◌, ◌<◌, ◌≡◌, refl, sym, ◌≢◌, ◌⊎◌, inl, inr, true, List, [], ◌∷◌, none, arith, ◌==◌,
  length, Bool-cases, All,
}
use sakura_wx_prototype.Grid.Rebuild.{ChangedCell, split_row}
use sakura_wx_prototype.Grid.Sort.{
  find_change, find_column, Follows, IsSorted, Rises, find_change-Follows,
}

-- Whether the first change is for no row above `row`, and in `row` for no column below `low`.
abbrev pub AtLeast : ℕ → List ChangedCell → Type 0
AtLeast row [] = Unit
AtLeast row (c ∷ changes) = row ≤ c.row

abbrev pub Starts : ℕ → ℕ → List ChangedCell → Type 0
Starts row low [] = Unit
Starts row low (c ∷ changes) = (row < c.row) ⊎ ((row ≡ c.row) × (low ≤ c.column))

Starts-next :
    (c : ChangedCell) (changes : List ChangedCell)
    → Follows c.row c.column changes
    → Starts c.row (suc c.column) changes
Starts-next c [] f = tt
Starts-next c (d ∷ changes) f = ground arith

Starts-eq :
    (row row' low : ℕ) (changes : List ChangedCell)
    → row ≡ row'
    → Starts row low changes
    → Starts row' low changes
Starts-eq row row' low [] e s = tt
Starts-eq row row' low (d ∷ changes) e s = ground arith

-- The changes of other rows stay.
pub split_row-other :
    (row r k : ℕ) (changes : List ChangedCell)
    → r ≢ row
    → find_change (split_row row changes).1 r k ≡ find_change changes r k
unfolding split_row find_change
split_row-other row r k [] ne = refl
split_row-other row r k (c ∷ changes) ne = ground (arith, split_row-other row r k changes ne)

-- Those of the row are all taken, in rising columns.
pub split_row-same :
    (row low k : ℕ) (changes : List ChangedCell)
    → IsSorted changes
    → Starts row low changes
    → (find_column (split_row row changes).0 k ≡ find_change changes row k)
      × (find_change (split_row row changes).1 row k ≡ none)
      × Rises low (split_row row changes).0
unfolding split_row find_change find_column
split_row-same row low k [] s h = (refl, refl, tt)
split_row-same row low k (c ∷ changes) s h = elim (Bool-cases (c.row == row)) [
  | inl e ↦
      let same : c.row ≡ row = ground arith in
      let ih =
        split_row-same row (suc c.column) k changes s.1
          (Starts-eq c.row row (suc c.column) changes same (Starts-next c changes s.0)) in
      rw e (ground (arith, ih.0), ih.1, (ground arith, ih.2))
  | inr e ↦
      let later : find_change changes row k ≡ none =
        find_change-Follows changes c.row c.column row k s.0 s.1 (ground arith) in
      rw e (sym later, ground (arith, later, e), tt)
]

pub split_row-keeps {ℓ} :
    (P : ChangedCell → Type ℓ) (row : ℕ) (changes : List ChangedCell)
    → All P changes
    → All P (split_row row changes).0 × All P (split_row row changes).1
unfolding split_row
split_row-keeps P row [] h = (tt, tt)
split_row-keeps P row (c ∷ changes) h =
    let ih = split_row-keeps P row changes h.1 in
    elim (Bool-cases (c.row == row)) [ inl e ↦ rw e ((h.0, ih.0), ih.1) | inr e ↦ rw e (tt, h) ]

pub split_row-IsSorted :
    (row : ℕ) (changes : List ChangedCell) → IsSorted changes → IsSorted (split_row row changes).1
unfolding split_row
split_row-IsSorted row [] s = tt
split_row-IsSorted row (c ∷ changes) s = elim (Bool-cases (c.row == row)) [
  | inl e ↦ rw e (split_row-IsSorted row changes s.1)
  | inr e ↦ rw e s
]

length-split_row :
    (row : ℕ) (changes : List ChangedCell) → length (split_row row changes).1 ≤ length changes
unfolding split_row
length-split_row row [] = omega arith
length-split_row row (c ∷ changes) = elim (Bool-cases (c.row == row)) [
  | inl e ↦ rw e (omega (arith, length-split_row row changes))
  | inr e ↦ rw e (omega arith)
]

-- A row that the first change is for has one change less in the rest.
pub length-split_row_lt :
    (c : ChangedCell) (changes : List ChangedCell)
    → length (split_row c.row (c ∷ changes)).1 ≤ length changes
unfolding split_row
length-split_row_lt c changes =
    let same : (c.row == c.row) ≡ true = ground arith in rw same (length-split_row c.row changes)
