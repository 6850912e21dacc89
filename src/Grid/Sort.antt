-- ===== src/Grid/Sort.antt =====
-- The order of the changes in `RebuildPackedRows` of src/terminal_core.cpp.
use sakura_wx_prototype.Prelude.{
  ℕ, suc, ◌≤◌, ◌<◌, ◌≡◌, refl, ◌∙◌, ◌⊎◌, inl, inr, ◌&&◌, List, [], ◌∷◌, Option, none, some, arith,
  ◌==◌, if◌then◌else◌, length, Bool-cases, All,
}
use sakura_wx_prototype.Grid.Rebuild.{ChangedCell, comes_before, insert_change, sort_changes}

-- The first change for a cell.
unfoldable pub find_change : List ChangedCell → ℕ → ℕ → Option ChangedCell
find_change [] row column = none
find_change (c ∷ changes) row column =
    if (c.row == row) && (c.column == column) then some c else find_change changes row column

-- No two changes are for one cell.
abbrev pub IsDistinct : List ChangedCell → Type 0
IsDistinct [] = Unit
IsDistinct (c ∷ changes) = (find_change changes c.row c.column ≡ none) × IsDistinct changes

-- A change for row `r` and column `k` may stand in front.
abbrev pub Follows : ℕ → ℕ → List ChangedCell → Type 0
Follows r k [] = Unit
Follows r k (c ∷ changes) = ((r < c.row) ⊎ ((r ≡ c.row) × (k < c.column)))

abbrev pub IsSorted : List ChangedCell → Type 0
IsSorted [] = Unit
IsSorted (c ∷ changes) = Follows c.row c.column changes × IsSorted changes

find_change-insert :
    (c : ChangedCell) (changes : List ChangedCell) (row column : ℕ)
    → find_change (insert_change c changes) row column ≡ find_change (c ∷ changes) row column
unfolding find_change insert_change
find_change-insert c [] row column = refl
find_change-insert c (d ∷ changes) row column =
    ground (arith, find_change-insert c changes row column)

-- Sorting keeps the change for each cell.
pub find_change-sort :
    (changes : List ChangedCell) (row column : ℕ)
    → find_change (sort_changes changes) row column ≡ find_change changes row column
unfolding sort_changes find_change
find_change-sort [] row column = refl
find_change-sort (c ∷ changes) row column =
    find_change-insert c (sort_changes changes) row column
    ∙ ground (arith, find_change-sort changes row column)

Follows-insert :
    (c : ChangedCell) (changes : List ChangedCell) (r k : ℕ)
    → ((r < c.row) ⊎ ((r ≡ c.row) × (k < c.column)))
    → Follows r k changes
    → Follows r k (insert_change c changes)
unfolding insert_change
Follows-insert c [] r k h f = h
Follows-insert c (d ∷ changes) r k h f = ground arith

insert-IsSorted :
    (c : ChangedCell) (changes : List ChangedCell)
    → find_change changes c.row c.column ≡ none
    → IsSorted changes
    → IsSorted (insert_change c changes)
unfolding insert_change find_change
insert-IsSorted c [] absent s = (tt, tt)
insert-IsSorted c (d ∷ changes) absent s = elim (Bool-cases (comes_before d c)) [
  | inl e ↦ rw e (
    Follows-insert c changes d.row d.column (ground arith) s.0,
    insert-IsSorted c changes (ground arith) s.1,
  )
  | inr e ↦ rw e (ground arith, s)
]

pub sort-IsSorted :
    (changes : List ChangedCell) → IsDistinct changes → IsSorted (sort_changes changes)
unfolding sort_changes
sort-IsSorted [] d = tt
sort-IsSorted (c ∷ changes) d =
    insert-IsSorted c (sort_changes changes) (find_change-sort changes c.row c.column ∙ d.0)
      (sort-IsSorted changes d.1)

insert-keeps {ℓ} :
    (P : ChangedCell → Type ℓ) (c : ChangedCell) (changes : List ChangedCell)
    → P c
    → All P changes
    → All P (insert_change c changes)
unfolding insert_change
insert-keeps P c [] p h = (p, tt)
insert-keeps P c (d ∷ changes) p h = elim (Bool-cases (comes_before d c)) [
  | inl e ↦ rw e (h.0, insert-keeps P c changes p h.1)
  | inr e ↦ rw e (p, h)
]

pub sort-keeps {ℓ} :
    (P : ChangedCell → Type ℓ) (changes : List ChangedCell)
    → All P changes
    → All P (sort_changes changes)
unfolding sort_changes
sort-keeps P [] h = tt
sort-keeps P (c ∷ changes) h =
    insert-keeps P c (sort_changes changes) h.0 (sort-keeps P changes h.1)

length-insert :
    (c : ChangedCell) (changes : List ChangedCell)
    → length (insert_change c changes) ≡ suc (length changes)
unfolding insert_change
length-insert c [] = refl
length-insert c (d ∷ changes) = ground (arith, length-insert c changes)

pub length-sort : (changes : List ChangedCell) → length (sort_changes changes) ≡ length changes
unfolding sort_changes
length-sort [] = refl
length-sort (c ∷ changes) =
    omega (arith, length-insert c (sort_changes changes), length-sort changes)

-- Below the front of a sorted list nothing is found.
pub find_change-Follows :
    (changes : List ChangedCell) (r k row column : ℕ)
    → Follows r k changes
    → IsSorted changes
    → ((row < r) ⊎ ((row ≡ r) × (column ≤ k)))
    → find_change changes row column ≡ none
unfolding find_change
find_change-Follows [] r k row column f s h = refl
find_change-Follows (c ∷ changes) r k row column f s h =
    let later = find_change-Follows changes c.row c.column row column s.0 s.1 in
    ground (arith, later)

-- The columns of a row's changes rise, from `low` on.
abbrev pub Rises : ℕ → List ChangedCell → Type 0
Rises low [] = Unit
Rises low (c ∷ changes) = (low ≤ c.column) × Rises (suc c.column) changes

pub Rises-le :
    (changes : List ChangedCell) (low lower : ℕ)
    → lower ≤ low
    → Rises low changes
    → Rises lower changes
Rises-le [] low lower le h = tt
Rises-le (c ∷ changes) low lower le h = (omega arith, h.1)

-- The first change for a column, among those of one row.
unfoldable pub find_column : List ChangedCell → ℕ → Option ChangedCell
find_column [] column = none
find_column (c ∷ changes) column = if c.column == column then some c else find_column changes column

pub find_column-Rises :
    (changes : List ChangedCell) (low column : ℕ)
    → Rises low changes
    → column < low
    → find_column changes column ≡ none
unfolding find_column
find_column-Rises [] low column h b = refl
find_column-Rises (c ∷ changes) low column h b =
    ground (arith, find_column-Rises changes (suc c.column) column h.1)
