-- ===== src/Paint/Glyphs.antt =====
-- The glyph-run cache of src/wx/terminal_renderer.cpp: `GlyphRunKey`, `BitmapBytes`,
-- `ClearGlyphRunCache`, `EvictLeastRecentlyUsedGlyphRun` and `GlyphRunBitmap`. A hash map is an
-- association list, the list of recent use is a list of keys with the latest first. Measuring and
-- drawing are wxWidgets': `Canvas` has what they answer.
pub mod Keys
pub mod Counts
pub mod Evict
pub mod Room
pub mod Answered
pub mod Requests
use mathlib.Core.Option.{bind}
use sakura_wx_prototype.Prelude.{
  ℕ, zero, suc, ◌+◌, ◌*◌, ◌-◌, ◌/◌, ◌^◌, max, Bool, true, false, ◌&&◌, ◌||◌, not, Option, none,
  some, List, [], ◌∷◌, leb, ltb, ◌==◌, if◌then◌else◌, length,
}
use sakura_wx_prototype.Prelude.Int.{ℤ, pos_part}
use sakura_wx_prototype.Prelude.Word.{u32, u64, sub64}
use sakura_wx_prototype.Paint.Glyphs.Keys.{GlyphRunKey, same_key}

-- What the code asks a `wxBitmap`; `content` is what was drawn.
pub record Bitmap : Type 0 where
  pub is_ok : Bool
  pub width : ℤ
  pub height : ℤ
  pub depth : ℤ
  pub content : List ℕ

-- `GlyphRunCacheEntry`; its iterator into the list of recent use stands for the key's node.
pub record CacheEntry : Type 0 where
  pub bitmap : Bitmap
  pub measured_width : ℕ
  pub bytes : ℕ

pub record CacheConfig : Type 0 where
  pub glyph_cache_max_entries : ℕ
  pub glyph_cache_max_bytes : ℕ

pub record CacheMetrics : Type 0 where
  pub entries : ℕ
  pub bytes : ℕ
  pub peak_bytes : ℕ
  pub hits : ℕ
  pub misses : ℕ
  pub evictions : ℕ

pub record GlyphCache : Type 0 where
  pub glyph_runs : List (GlyphRunKey × CacheEntry)
  pub glyph_run_lru : List GlyphRunKey
  pub glyph_run_cache_bytes : ℕ
  pub metrics : CacheMetrics

-- The width of a run's text, and the bitmap of a width and height with that run drawn.
pub record Canvas : Type 0 where
  pub measure : GlyphRunKey → ℕ
  pub paint : ℕ → ℕ → GlyphRunKey → Bitmap

abbrev pub bitmap_bytes : Bitmap → ℕ
bitmap_bytes b =
    if b.is_ok
    then u64 (pos_part b.width * pos_part b.height * ((max 1 (pos_part b.depth) + 7) / 8))
    else 0

unfoldable pub find_run : List (GlyphRunKey × CacheEntry) → GlyphRunKey → Option CacheEntry
find_run [] key = none
find_run (run ∷ runs) key = if same_key run.0 key then some run.1 else find_run runs key

unfoldable pub erase_run :
    List (GlyphRunKey × CacheEntry) → GlyphRunKey → List (GlyphRunKey × CacheEntry)
erase_run [] key = []
erase_run (run ∷ runs) key = if same_key run.0 key then runs else run ∷ erase_run runs key

-- The node of a key leaves the list.
unfoldable pub unlink : List GlyphRunKey → GlyphRunKey → List GlyphRunKey
unlink [] key = []
unlink (k ∷ keys) key = if same_key k key then keys else k ∷ unlink keys key

-- The last entry of a list that has one, and the entries before it.
unfoldable pub last_key : GlyphRunKey → List GlyphRunKey → GlyphRunKey
last_key key [] = key
last_key key (k ∷ keys) = last_key k keys

unfoldable pub but_last : GlyphRunKey → List GlyphRunKey → List GlyphRunKey
but_last key [] = []
but_last key (k ∷ keys) = key ∷ but_last k keys

abbrev pub update_metrics : GlyphCache → GlyphCache
update_metrics c = record c {
  metrics = record c.metrics { entries = length c.glyph_runs; bytes = c.glyph_run_cache_bytes };
}

abbrev pub clear_glyph_run_cache : GlyphCache → GlyphCache
clear_glyph_run_cache c =
    update_metrics
      record { glyph_runs = []; glyph_run_lru = []; glyph_run_cache_bytes = 0; metrics = c.metrics }

abbrev pub erase_cached : Option CacheEntry → GlyphRunKey → GlyphCache → GlyphCache
erase_cached none key c = c
erase_cached (some entry) key c = record c {
  glyph_runs = erase_run c.glyph_runs key;
  glyph_run_cache_bytes = sub64 c.glyph_run_cache_bytes entry.bytes;
}

abbrev pub count_eviction : GlyphCache → GlyphCache
count_eviction c = record c {
  metrics = record c.metrics { evictions = u64 (c.metrics.evictions + 1) };
}

-- `EvictLeastRecentlyUsedGlyphRun` on a cache whose list of recent use is the one given.
unfoldable pub evict_from : List GlyphRunKey → GlyphCache → GlyphCache
evict_from [] c = c
evict_from (k ∷ keys) c =
    let lru = last_key k keys in
    let erased = erase_cached (find_run c.glyph_runs lru) lru c in
    update_metrics (count_eviction (record erased { glyph_run_lru = but_last k keys }))

unfoldable pub evict : GlyphCache → GlyphCache
unfolding evict_from
evict c = evict_from c.glyph_run_lru c

abbrev pub is_empty : List GlyphRunKey → Bool
is_empty [] = true
is_empty (k ∷ keys) = false

-- The condition of the loop that makes room for a bitmap of `size` bytes. The bitmap is not larger
-- than the limit, so the difference does not wrap.
unfoldable pub lacks_room : CacheConfig → ℕ → GlyphCache → Bool
lacks_room config size c =
    not (is_empty c.glyph_run_lru)
    && (leb config.glyph_cache_max_entries (length c.glyph_runs)
        || ltb (config.glyph_cache_max_bytes - size) c.glyph_run_cache_bytes)

-- The loop, with fuel; `none` is out of fuel.
unfoldable pub make_room : ℕ → CacheConfig → ℕ → GlyphCache → Option GlyphCache
unfolding lacks_room evict
make_room zero config size c = if lacks_room config size c then none else some c
make_room (suc fuel) config size c =
    let rest = make_room fuel config size (evict c) in
    if lacks_room config size c then rest else some c

abbrev pub bitmap_width : GlyphRunKey → ℕ → ℕ
bitmap_width key measured = max 1 (max (key.cell_count * key.cell_width) measured)

-- The bitmap that the code draws for a key that is not in the cache.
unfoldable pub drawn_bitmap : Canvas → GlyphRunKey → Bitmap
drawn_bitmap canvas key =
    canvas.paint (bitmap_width key (canvas.measure key)) (max 1 key.cell_height) key

unfoldable pub insert_run : CacheConfig → GlyphRunKey → CacheEntry → GlyphCache → GlyphCache
insert_run config key entry c =
    let total = u64 (c.glyph_run_cache_bytes + entry.bytes) in
    update_metrics record {
      glyph_runs = (key, entry) ∷ c.glyph_runs;
      glyph_run_lru = key ∷ c.glyph_run_lru;
      glyph_run_cache_bytes = total;
      metrics = record c.metrics { peak_bytes = max c.metrics.peak_bytes total };
    }

abbrev pub count_hit : GlyphCache → GlyphCache
count_hit c = record c { metrics = record c.metrics { hits = u64 (c.metrics.hits + 1) } }

abbrev pub count_miss : GlyphCache → GlyphCache
count_miss c = record c { metrics = record c.metrics { misses = u64 (c.metrics.misses + 1) } }

abbrev pub is_cacheable : CacheConfig → Bitmap → Bool
is_cacheable config b =
    b.is_ok
    && ltb 0 config.glyph_cache_max_entries
    && leb (bitmap_bytes b) config.glyph_cache_max_bytes

abbrev pub entry_for : Bitmap → ℕ → CacheEntry
entry_for b measured = record { bitmap = b; measured_width = measured; bytes = bitmap_bytes b }

unfoldable pub store_bitmap :
    ℕ → CacheConfig → GlyphRunKey → Bitmap → ℕ → GlyphCache → Option (Bitmap × GlyphCache)
unfolding make_room insert_run
store_bitmap fuel config key b measured c =
    if is_cacheable config b
    then bind (make_room fuel config (bitmap_bytes b) c)
        (λ room. some (b, insert_run config key (entry_for b measured) room))
    else some (b, c)

unfoldable pub answer :
    Option CacheEntry
    → Canvas
    → CacheConfig
    → GlyphRunKey
    → GlyphCache
    → Option (Bitmap × GlyphCache)
unfolding unlink drawn_bitmap store_bitmap
answer (some entry) canvas config key c =
    some (entry.bitmap, count_hit (record c { glyph_run_lru = key ∷ unlink c.glyph_run_lru key }))
answer none canvas config key c =
    store_bitmap (length c.glyph_run_lru) config key (drawn_bitmap canvas key) (canvas.measure key)
      (count_miss c)

-- `GlyphRunBitmap`: the bitmap for a run, and the cache after it. One eviction for each key in the
-- list of recent use is fuel enough.
unfoldable pub glyph_run_bitmap :
    Canvas → CacheConfig → GlyphRunKey → GlyphCache → Option (Bitmap × GlyphCache)
unfolding find_run answer
glyph_run_bitmap canvas config key c = answer (find_run c.glyph_runs key) canvas config key c
