-- ===== src/Paint/Durations/Ranks.antt =====
-- The percentiles of src/wx/terminal_renderer.cpp by the nearest rank.
use sakura_wx_prototype.Prelude.{
  ℕ, zero, suc, ◌+◌, ◌-◌, ◌*◌, ◌≤◌, ◌<◌, min, ◌≡◌, refl, ap, ◌∙◌, ◌⊎◌, inl, inr, Bool, true, false,
  List, [], ◌∷◌, ◌++◌, leb, arith, Bool-cases, length, set, get_or, take, drop, All, All-map,
  length-take, length-set,
}
use sakura_wx_prototype.Paint.Durations.{
  PaintTimes, insert_sorted, sort, rank, paint_percentile, sorted_samples, record_paint_duration,
}

abbrev tally : Bool → ℕ
tally true = 1
tally false = 0

-- How many entries are at most `v`, and how many are at least `v`.
abbrev pub at_most : ℕ → List ℕ → ℕ
at_most v [] = 0
at_most v (x ∷ xs) = tally (leb x v) + at_most v xs

abbrev pub at_least : ℕ → List ℕ → ℕ
at_least v [] = 0
at_least v (x ∷ xs) = tally (leb v x) + at_least v xs

abbrev IsSorted : List ℕ → Type 0
IsSorted [] = Unit
IsSorted (x ∷ xs) = All (λ y. x ≤ y) xs × IsSorted xs

module _ (v x : ℕ) where
  at_most-insert_sorted :
      (xs : List ℕ) → at_most v (insert_sorted x xs) ≡ tally (leb x v) + at_most v xs
  unfolding insert_sorted
  at_most-insert_sorted [] = refl
  at_most-insert_sorted (y ∷ ys) = elim (Bool-cases (leb x y)) [
    | inl e ↦ rw e refl
    | inr e ↦ rw e (omega (arith, at_most-insert_sorted ys))
  ]

  at_least-insert_sorted :
      (xs : List ℕ) → at_least v (insert_sorted x xs) ≡ tally (leb v x) + at_least v xs
  unfolding insert_sorted
  at_least-insert_sorted [] = refl
  at_least-insert_sorted (y ∷ ys) = elim (Bool-cases (leb x y)) [
    | inl e ↦ rw e refl
    | inr e ↦ rw e (omega (arith, at_least-insert_sorted ys))
  ]

at_most-sort : (v : ℕ) (xs : List ℕ) → at_most v (sort xs) ≡ at_most v xs
unfolding sort
at_most-sort v [] = refl
at_most-sort v (x ∷ xs) = omega (arith, at_most-insert_sorted v x (sort xs), at_most-sort v xs)

at_least-sort : (v : ℕ) (xs : List ℕ) → at_least v (sort xs) ≡ at_least v xs
unfolding sort
at_least-sort v [] = refl
at_least-sort v (x ∷ xs) = omega (arith, at_least-insert_sorted v x (sort xs), at_least-sort v xs)

All-insert_sorted :
    (P : ℕ → Type 0) (x : ℕ) (xs : List ℕ) → P x → All P xs → All P (insert_sorted x xs)
unfolding insert_sorted
All-insert_sorted P x [] hx h = (hx, tt)
All-insert_sorted P x (y ∷ ys) hx h = elim (Bool-cases (leb x y)) [
  | inl e ↦ rw e (hx, h)
  | inr e ↦ rw e (h.0, All-insert_sorted P x ys hx h.1)
]

insert_sorted-IsSorted : (x : ℕ) (xs : List ℕ) → IsSorted xs → IsSorted (insert_sorted x xs)
unfolding insert_sorted
insert_sorted-IsSorted x [] h = (tt, tt)
insert_sorted-IsSorted x (y ∷ ys) h = elim (Bool-cases (leb x y)) [
  | inl e ↦
      let le : x ≤ y = ground arith in rw e ((le, All-map (λ z (g : y ≤ z). omega arith) ys h.0), h)
  | inr e ↦
      let le : y ≤ x = ground arith in
      rw e (All-insert_sorted (λ z. y ≤ z) x ys le h.0, insert_sorted-IsSorted x ys h.1)
]

sort-IsSorted : (xs : List ℕ) → IsSorted (sort xs)
unfolding sort
sort-IsSorted [] = tt
sort-IsSorted (x ∷ xs) = insert_sorted-IsSorted x (sort xs) (sort-IsSorted xs)

length-insert_sorted : (x : ℕ) (xs : List ℕ) → length (insert_sorted x xs) ≡ suc (length xs)
unfolding insert_sorted
length-insert_sorted x [] = refl
length-insert_sorted x (y ∷ ys) = elim (Bool-cases (leb x y)) [
  | inl e ↦ rw e refl
  | inr e ↦ rw e (ap suc (length-insert_sorted x ys))
]

length-sort : (xs : List ℕ) → length (sort xs) ≡ length xs
unfolding sort
length-sort [] = refl
length-sort (x ∷ xs) = length-insert_sorted x (sort xs) ∙ ap suc (length-sort xs)

at_least-All : (v : ℕ) (xs : List ℕ) → All (λ y. v ≤ y) xs → at_least v xs ≡ length xs
at_least-All v [] h = refl
at_least-All v (x ∷ xs) h = ground (arith, at_least-All v xs h.1)

get_or-All : (v : ℕ) (xs : List ℕ) (i : ℕ) → All (λ y. v ≤ y) xs → i < length xs → v ≤ get_or xs i 0
get_or-All v [] i h inside = absurd (omega arith)
get_or-All v (x ∷ xs) zero h inside = h.0
get_or-All v (x ∷ xs) (suc i) h inside = get_or-All v xs i h.1 (omega arith)

-- Around the place `i` of a sorted list, `i + 1` entries are at most its entry and the rest, with it,
-- at least.
IsSorted-get_or :
    (xs : List ℕ) (i : ℕ)
    → IsSorted xs
    → i < length xs
    → (i + 1 ≤ at_most (get_or xs i 0) xs) × (length xs ≤ i + at_least (get_or xs i 0) xs)
IsSorted-get_or [] i h inside = absurd (omega arith)
IsSorted-get_or (x ∷ xs) zero h inside = let all = at_least-All x xs h.0 in ground arith
IsSorted-get_or (x ∷ xs) (suc i) h inside =
    let (low, high) = IsSorted-get_or xs i h.1 (omega arith) in
    let le : x ≤ get_or xs i 0 = get_or-All x xs i h.0 (omega arith) in ground arith

get_or-append_left :
    (xs ys : List ℕ) (i : ℕ) → i < length xs → get_or (xs ++ ys) i 0 ≡ get_or xs i 0
get_or-append_left [] ys i h = absurd (omega arith)
get_or-append_left (x ∷ xs) ys zero h = refl
get_or-append_left (x ∷ xs) ys (suc i) h = get_or-append_left xs ys i (omega arith)

-- `p` is a nearest-rank percentile of the samples: `numerator` parts in `denominator` of them, and
-- one at least, are at most `p`, and less than `numerator` parts in `denominator` of them, or none
-- at all, are less than `p`.
abbrev pub IsPercentile : ℕ → ℕ → List ℕ → ℕ → Type 0
IsPercentile numerator denominator samples p =
    (length samples * numerator ≤ at_most p samples * denominator)
    × (1 ≤ at_most p samples)
    × ((length samples ≤ at_least p samples)
        ⊎ (length samples * denominator
            < at_least p samples * denominator + length samples * numerator))

times_mono : (a b c : ℕ) → a ≤ b → c * a ≤ c * b
times_mono a b c h = grind arith

rank_bounds :
    (count numerator : ℕ)
    → numerator ≤ 100
    → 0 < count
    → (1 ≤ rank count numerator 100)
      × (rank count numerator 100 ≤ count)
      × (count * numerator ≤ rank count numerator 100 * 100)
      × ((rank count numerator 100 ≡ 1)
          ⊎ (rank count numerator 100 * 100 < count * numerator + 100))
rank_bounds count numerator small some_samples =
    let product = times_mono numerator 100 count small in
    (omega arith, omega arith, omega arith, ground arith)

paint_percentile-IsPercentile :
    (numerator : ℕ) (samples : List ℕ) (count : ℕ)
    → numerator ≤ 100
    → 0 < count
    → count ≤ length samples
    → IsPercentile numerator 100
        (take count samples)
        (paint_percentile (sorted_samples samples count) count numerator 100)
unfolding sorted_samples
paint_percentile-IsPercentile numerator samples count small some_samples enough =
    let first = take count samples in
    let sorted = sort first in
    let size : length first ≡ count = omega (arith, length-take count samples) in
    let (one, inside, parts, tight) = rank_bounds count numerator small some_samples in
    let place : rank count numerator 100 - 1 < length sorted = omega (arith, length-sort first) in
    let (low, high) =
      IsSorted-get_or sorted (rank count numerator 100 - 1) (sort-IsSorted first) place in
    let value =
      get_or-append_left sorted (drop count samples) (rank count numerator 100 - 1) place in
    let p = get_or sorted (rank count numerator 100 - 1) 0 in
    rw (size, value)
      (
        omega (arith, at_most-sort p first),
        omega (arith, at_most-sort p first),
        elim tight [
          | inl e ↦ inl (omega (arith, at_least-sort p first, length-sort first))
          | inr e ↦ inr (omega (arith, at_least-sort p first, length-sort first))
        ],
      )

-- Recording a duration, in a ring with room for it, makes the three percentiles the nearest-rank
-- percentiles of the durations that the ring then has: 50, 95 and 99 parts in 100 of them, and
-- one at least, are at most the percentile, and less than as many parts in 100, or none at all, are
-- less than it.
pub record_paint_duration-IsPercentile :
    (elapsed : ℕ) (t : PaintTimes)
    → length t.samples ≡ 256
    → let after = record_paint_duration elapsed t in
      let held = take after.sample_count after.samples in
      IsPercentile 50 100 held after.p50
      × IsPercentile 95 100 held after.p95
      × IsPercentile 99 100 held after.p99
unfolding record_paint_duration
record_paint_duration-IsPercentile elapsed t size =
    let samples = set t.samples t.sample_cursor elapsed in
    let count = min (t.sample_count + 1) 256 in
    let some_samples : 0 < count = omega arith in
    let enough : count ≤ length samples =
      omega (arith, length-set t.samples t.sample_cursor elapsed) in
    (
      paint_percentile-IsPercentile 50 samples count (omega arith) some_samples enough,
      paint_percentile-IsPercentile 95 samples count (omega arith) some_samples enough,
      paint_percentile-IsPercentile 99 samples count (omega arith) some_samples enough,
    )
