-- ===== src/Paint/Durations.antt =====
-- `RecordPaintDuration` and `PaintPercentile` of src/wx/terminal_renderer.cpp: the durations of the
-- last 256 paints in a ring, and the percentiles that are shown.
pub mod Ranks
pub mod Window
use sakura_wx_prototype.Prelude.{
  ℕ, ◌+◌, ◌-◌, ◌*◌, ◌/◌, ◌%◌, ◌^◌, min, max, List, [], ◌∷◌, ◌++◌, leb, if◌then◌else◌, set, get_or,
  take, drop,
}
use sakura_wx_prototype.Prelude.Word.{u64}

abbrev pub paint_sample_window : ℕ
paint_sample_window = 256

-- The members that the function uses.
pub record PaintTimes : Type 0 where
  pub paint_time_us : ℕ
  pub max_paint_time_us : ℕ
  pub samples : List ℕ
  pub sample_cursor : ℕ
  pub sample_count : ℕ
  pub p50 : ℕ
  pub p95 : ℕ
  pub p99 : ℕ

-- `std::sort` on numbers.
unfoldable pub insert_sorted : ℕ → List ℕ → List ℕ
insert_sorted x [] = x ∷ []
insert_sorted x (y ∷ ys) = let rest = insert_sorted x ys in if leb x y then x ∷ y ∷ ys else y ∷ rest

unfoldable pub sort : List ℕ → List ℕ
unfolding insert_sorted
sort [] = []
sort (x ∷ xs) = insert_sorted x (sort xs)

abbrev pub rank : ℕ → ℕ → ℕ → ℕ
rank count numerator denominator = max 1 ((count * numerator + denominator - 1) / denominator)

abbrev pub paint_percentile : List ℕ → ℕ → ℕ → ℕ → ℕ
paint_percentile sorted count numerator denominator =
    get_or sorted (rank count numerator denominator - 1) 0

-- The copy of the samples, the first `count` of them sorted.
abbrev pub sorted_samples : List ℕ → ℕ → List ℕ
unfolding sort
sorted_samples samples count = sort (take count samples) ++ drop count samples

unfoldable pub record_paint_duration : ℕ → PaintTimes → PaintTimes
unfolding sorted_samples
record_paint_duration elapsed t =
    let samples = set t.samples t.sample_cursor elapsed in
    let count = min (t.sample_count + 1) paint_sample_window in
    let sorted = sorted_samples samples count in
    record {
      paint_time_us = u64 (t.paint_time_us + elapsed);
      max_paint_time_us = max t.max_paint_time_us elapsed;
      samples = samples;
      sample_cursor = (t.sample_cursor + 1) % paint_sample_window;
      sample_count = count;
      p50 = paint_percentile sorted count 50 100;
      p95 = paint_percentile sorted count 95 100;
      p99 = paint_percentile sorted count 99 100;
    }
