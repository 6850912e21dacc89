-- ===== src/Paint/Glyphs/Evict.antt =====
-- One eviction from the glyph-run cache of src/wx/terminal_renderer.cpp.
use mathlib.Core.List.{append-nil, append_assoc}
use sakura_wx_prototype.Prelude.{
  suc, ◌^◌, ◌≤◌, ◌<◌, ◌≡◌, refl, sym, ap, ◌∙◌, inl, inr, some, List, [], ◌∷◌, ◌++◌, All, arith,
  Bool-cases, length,
}
use sakura_wx_prototype.Prelude.Word.{sub64}
use sakura_wx_prototype.Paint.Glyphs.Keys.{GlyphRunKey, same_key, same_key_self}
use sakura_wx_prototype.Paint.Glyphs.{
  CacheEntry, Canvas, drawn_bitmap, GlyphCache, find_run, erase_run, last_key, but_last,
  update_metrics, count_eviction, evict_from, evict,
}
use sakura_wx_prototype.Paint.Glyphs.Counts.{
  tally, count, keys, total_bytes, count-but_last, find_run-count, erase_run-count,
}

-- The list of recent use has the keys of the map, each once, and the byte counter is the entries'
-- sum.
pub record IsCounted (c : GlyphCache) : Type 0 where
  pub matched : (k : GlyphRunKey) → count k c.glyph_run_lru ≡ count k (keys c.glyph_runs)
  pub once : (k : GlyphRunKey) → count k c.glyph_run_lru ≤ 1
  pub counted : c.glyph_run_cache_bytes ≡ total_bytes c.glyph_runs
  pub fits : c.glyph_run_cache_bytes < 2 ^ 64
  pub reported : c.metrics.entries ≡ length c.glyph_runs
  pub reported_bytes : c.metrics.bytes ≡ c.glyph_run_cache_bytes

-- Every entry has the bitmap that is drawn for its key.
abbrev pub IsDrawn : Canvas → List (GlyphRunKey × CacheEntry) → Type 0
IsDrawn canvas = All (λ run. run.1.bitmap ≡ drawn_bitmap canvas run.0)

-- What the evictions leave: the keys that were used last.
pub record IsShrunk (c d : GlyphCache) : Type 0 where
  pub sound : IsCounted d
  pub fewer : length d.glyph_runs ≤ length c.glyph_runs
  pub smaller : d.glyph_run_cache_bytes ≤ c.glyph_run_cache_bytes
  pub peak_kept : d.metrics.peak_bytes ≡ c.metrics.peak_bytes
  pub recent : (gone : List GlyphRunKey) × (c.glyph_run_lru ≡ d.glyph_run_lru ++ gone)
  pub drawn : (canvas : Canvas) → IsDrawn canvas c.glyph_runs → IsDrawn canvas d.glyph_runs

abbrev evicted : GlyphCache → GlyphRunKey → List GlyphRunKey → CacheEntry → GlyphCache
evicted c x xs entry = update_metrics (
    count_eviction record {
      glyph_runs = erase_run c.glyph_runs (last_key x xs);
      glyph_run_lru = but_last x xs;
      glyph_run_cache_bytes = sub64 c.glyph_run_cache_bytes entry.bytes;
      metrics = c.metrics;
    })

but_last-append :
    (x : GlyphRunKey) (xs : List GlyphRunKey) → x ∷ xs ≡ but_last x xs ++ last_key x xs ∷ []
unfolding but_last last_key
but_last-append x [] = refl
but_last-append x (y ∷ ys) = ap (λ l. x ∷ l) (but_last-append y ys)

erase_run-IsDrawn :
    (canvas : Canvas) (runs : List (GlyphRunKey × CacheEntry)) (key : GlyphRunKey)
    → IsDrawn canvas runs
    → IsDrawn canvas (erase_run runs key)
unfolding erase_run
erase_run-IsDrawn canvas [] key h = tt
erase_run-IsDrawn canvas (run ∷ runs) key h = elim (Bool-cases (same_key run.0 key)) [
  | inl e ↦ rw e (h.1)
  | inr e ↦ rw e (h.0, erase_run-IsDrawn canvas runs key h.1)
]

evicted-IsShrunk :
    (c : GlyphCache) (x : GlyphRunKey) (xs : List GlyphRunKey) (entry : CacheEntry)
    → IsCounted c
    → c.glyph_run_lru ≡ x ∷ xs
    → find_run c.glyph_runs (last_key x xs) ≡ some entry
    → IsShrunk c (evicted c x xs entry)
evicted-IsShrunk c x xs entry h e found =
    let erased = erase_run-count c.glyph_runs (last_key x xs) entry found in
    let bytes : sub64 c.glyph_run_cache_bytes entry.bytes
        ≡ total_bytes (erase_run c.glyph_runs (last_key x xs)) =
      omega (arith, erased.0, h.counted, h.fits) in
    record {
      sound = record {
        matched =
            λ k. omega (arith, h.matched k, erased.2 k, count-but_last k x xs, ap (count k) e);
        once = λ k. omega (arith, h.once k, count-but_last k x xs, ap (count k) e);
        counted = bytes;
        fits = omega (arith, erased.0, h.counted, h.fits);
        reported = refl;
        reported_bytes = refl;
      };
      fewer = omega (arith, erased.1);
      smaller = omega (arith, bytes, erased.0, h.counted);
      peak_kept = refl;
      recent = (last_key x xs ∷ [], e ∙ but_last-append x xs);
      drawn = λ canvas d. erase_run-IsDrawn canvas c.glyph_runs (last_key x xs) d;
    }

evict_from-eq :
    (c : GlyphCache) (x : GlyphRunKey) (xs : List GlyphRunKey) (entry : CacheEntry)
    → find_run c.glyph_runs (last_key x xs) ≡ some entry
    → evict_from (x ∷ xs) c ≡ evicted c x xs entry
unfolding evict_from
evict_from-eq c x xs entry found = rw found refl

-- The last key of the list of recent use has an entry.
pub last_key-found :
    (c : GlyphCache) (x : GlyphRunKey) (xs : List GlyphRunKey)
    → IsCounted c
    → c.glyph_run_lru ≡ x ∷ xs
    → (entry : CacheEntry) × (find_run c.glyph_runs (last_key x xs) ≡ some entry)
last_key-found c x xs h e =
    let last = last_key x xs in
    let once : tally (same_key last last) ≡ 1 = ap tally (same_key_self last) in
    find_run-count c.glyph_runs last
      (omega (arith, h.matched last, count-but_last last x xs, ap (count last) e))

pub evict-IsShrunk :
    (c : GlyphCache) (x : GlyphRunKey) (xs : List GlyphRunKey)
    → IsCounted c
    → c.glyph_run_lru ≡ x ∷ xs
    → (IsShrunk c (evict c)) × ((evict c).glyph_run_lru ≡ but_last x xs)
unfolding evict
evict-IsShrunk c x xs h e =
    let (entry, found) = last_key-found c x xs h e in
    let step : evict c ≡ evicted c x xs entry =
      ap (λ l. evict_from l c) e ∙ evict_from-eq c x xs entry found in
    rw step (evicted-IsShrunk c x xs entry h e found, refl)

pub IsShrunk-trans : (a b c : GlyphCache) → IsShrunk a b → IsShrunk b c → IsShrunk a c
IsShrunk-trans a b c h g = record {
  sound = g.sound;
  fewer = omega (arith, h.fewer, g.fewer);
  smaller = omega (arith, h.smaller, g.smaller);
  peak_kept = g.peak_kept ∙ h.peak_kept;
  recent = (
    g.recent.0 ++ h.recent.0,
    h.recent.1
        ∙ ap (λ l. l ++ h.recent.0) g.recent.1
        ∙ append_assoc c.glyph_run_lru g.recent.0 h.recent.0,
  );
  drawn = λ canvas d. g.drawn canvas (h.drawn canvas d);
}

pub IsShrunk-self : (c : GlyphCache) → IsCounted c → IsShrunk c c
IsShrunk-self c h = record {
  sound = h;
  fewer = omega arith;
  smaller = omega arith;
  peak_kept = refl;
  recent = ([], sym (append-nil c.glyph_run_lru));
  drawn = λ canvas d. d;
}

pub length-but_last : (x : GlyphRunKey) (xs : List GlyphRunKey) → length (but_last x xs) ≡ length xs
unfolding but_last
length-but_last x [] = refl
length-but_last x (y ∷ ys) = ap suc (length-but_last y ys)
