-- ===== src/Paint/Glyphs/Answered.antt =====
-- What it is for a request to the glyph-run cache of src/wx/terminal_renderer.cpp to be answered.
use sakura_wx_prototype.Prelude.{
  ◌≤◌, ◌<◌, ◌≡◌, sym, ap, ◌∙◌, ◌⊎◌, inl, inr, true, false, Option, some, List, [], ◌∷◌, ◌++◌, arith,
  Bool-cases, length,
}
use sakura_wx_prototype.Paint.Glyphs.Keys.{GlyphRunKey, same_key, same_key_eq}
use sakura_wx_prototype.Paint.Glyphs.{
  Bitmap, CacheEntry, Canvas, CacheConfig, GlyphCache, bitmap_bytes, find_run, drawn_bitmap,
  is_cacheable,
}
use sakura_wx_prototype.Paint.Glyphs.Counts.{count, count-append}
use sakura_wx_prototype.Paint.Glyphs.Evict.{IsCounted, IsDrawn}
use sakura_wx_prototype.Paint.Glyphs.Room.{HasRoom}

-- The cache is within its limits, and counts what it has.
pub record IsSound (config : CacheConfig) (c : GlyphCache) : Type 0 where
  pub inside : IsCounted c
  pub few : length c.glyph_runs ≤ config.glyph_cache_max_entries
  pub small : c.glyph_run_cache_bytes ≤ config.glyph_cache_max_bytes
  pub peak : c.glyph_run_cache_bytes ≤ c.metrics.peak_bytes
  pub peak_small : c.metrics.peak_bytes ≤ config.glyph_cache_max_bytes

-- A bitmap that the cache has room for when it is empty.
abbrev pub IsStorable : CacheConfig → Bitmap → Type 0
IsStorable config b =
    (b.is_ok ≡ true)
    × (0 < config.glyph_cache_max_entries)
    × (bitmap_bytes b ≤ config.glyph_cache_max_bytes)

-- The keys that a request leaves in the list of recent use. If the key is in the list, it moves to
-- the front, and the others keep their order. If it is not and its bitmap can be stored, it stands
-- in front of the keys before it, in their order, with some of the oldest gone only if there is no
-- room for one more entry. If it is not and its bitmap cannot be stored, the list stays.
abbrev pub IsRecent : CacheConfig → GlyphRunKey → Bitmap → GlyphCache → List GlyphRunKey → Type 0
IsRecent config key b c after =
    ((front : List GlyphRunKey) × (back : List GlyphRunKey) × (c.glyph_run_lru
        ≡ front ++ key ∷ back)
      × (after ≡ key ∷ (front ++ back)))
    ⊎ ((count key c.glyph_run_lru ≡ 0)
        × IsStorable config b
        × ((left : List GlyphRunKey) × (gone : List GlyphRunKey) × (c.glyph_run_lru ≡ left ++ gone)
            × (after ≡ key ∷ left)
            × ((gone ≡ []) ⊎ (¬ HasRoom config b c))))
    ⊎ ((count key c.glyph_run_lru ≡ 0) × (¬ IsStorable config b) × (after ≡ c.glyph_run_lru))

-- An answer: a bitmap as drawn, a sound cache of entries as drawn, and the order of recent use.
pub record IsAnswered (canvas : Canvas) (config : CacheConfig) (key : GlyphRunKey)
    (c d : GlyphCache) (b : Bitmap) : Type 0 where
  pub sound : IsSound config d
  pub bitmap : b ≡ drawn_bitmap canvas key
  pub entries : IsDrawn canvas d.glyph_runs
  pub recent : IsRecent config key b c d.glyph_run_lru

abbrev pub Answers :
    Canvas → CacheConfig → GlyphRunKey → GlyphCache → Option (Bitmap × GlyphCache) → Type 0
Answers canvas config key c result =
    (b : Bitmap) × (d : GlyphCache) × (result ≡ some (b, d)) × IsAnswered canvas config key c d b

pub find_run-IsDrawn :
    (canvas : Canvas) (runs : List (GlyphRunKey × CacheEntry)) (key : GlyphRunKey)
    (entry : CacheEntry)
    → IsDrawn canvas runs
    → find_run runs key ≡ some entry
    → entry.bitmap ≡ drawn_bitmap canvas key
unfolding find_run
find_run-IsDrawn canvas [] key entry h e = absurd (cc)
find_run-IsDrawn canvas (run ∷ runs) key entry h e = elim (Bool-cases (same_key run.0 key)) [
  | inl same ↦
      let found : run.1 ≡ entry = ground (arith, same) in
      ap (λ x. x.bitmap) (sym found) ∙ h.0 ∙ ap (drawn_bitmap canvas) (same_key_eq run.0 key same)
  | inr same ↦ find_run-IsDrawn canvas runs key entry h.1 (ground arith)
]

pub count_append_le :
    (k : GlyphRunKey) (xs ys zs : List GlyphRunKey) → zs ≡ xs ++ ys → count k xs ≤ count k zs
count_append_le k xs ys zs e = omega (arith, count-append k xs ys, ap (count k) e)

pub cacheable-room :
    (config : CacheConfig) (b : Bitmap)
    → is_cacheable config b ≡ true
    → (0 < config.glyph_cache_max_entries) × (bitmap_bytes b ≤ config.glyph_cache_max_bytes)
cacheable-room config b e = ground arith

pub cacheable-ok :
    (config : CacheConfig) (b : Bitmap) → is_cacheable config b ≡ true → b.is_ok ≡ true
cacheable-ok config b e = ground arith

pub not_cacheable :
    (config : CacheConfig) (b : Bitmap) → is_cacheable config b ≡ false → ¬ IsStorable config b
not_cacheable config b e h = ground (arith, h.0)
