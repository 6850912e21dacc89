-- ===== src/Tests/Paint.antt =====
-- The theorems on src/wx/terminal_renderer.cpp at concrete inputs, and runs of the models.
use mathlib.Core.Option.{bind}
use sakura_wx_prototype.Prelude.{
  ℕ, ◌+◌, ◌*◌, ◌≤◌, ◌<◌, ◌≡◌, refl, true, Option, none, some, List, [], ◌∷◌, arith, length,
}
use sakura_wx_prototype.Prelude.Int.{pos}
use sakura_wx_prototype.Paint.Glyphs.Keys.{GlyphRunKey, same_key}
use sakura_wx_prototype.Paint.Glyphs.{
  Bitmap, Canvas, CacheConfig, GlyphCache, drawn_bitmap, make_room, glyph_run_bitmap, evict,
  but_last,
}
use sakura_wx_prototype.Paint.Glyphs.Counts.{tally}
use sakura_wx_prototype.Paint.Glyphs.Evict.{IsCounted, IsDrawn, IsShrunk}
use sakura_wx_prototype.Paint.Glyphs.Room.{make_room-total}
use sakura_wx_prototype.Paint.Glyphs.Requests.{glyph_run_bitmap-Answers}
use sakura_wx_prototype.Paint.Glyphs.Answered.{IsSound, Answers}

abbrev run_of : List ℕ → GlyphRunKey
run_of text = record {
  text = text;
  foreground = 0xffffff;
  background = 0;
  font_identity = 7;
  cell_count = length text;
  attributes = 1;
  cell_width = 8;
  cell_height = 16;
  dpi_x = 96;
  dpi_y = 96;
}

abbrev plain_canvas : Canvas
plain_canvas = record {
  measure = λ key. length key.text * 9;
  paint = λ width height key. record {
    is_ok = true;
    width = pos width;
    height = pos height;
    depth = pos 24;
    content = key.text;
  };
}

abbrev one_entry : CacheConfig
one_entry = record { glyph_cache_max_entries = 1; glyph_cache_max_bytes = 1000 }

abbrev ls_bitmap : Bitmap
ls_bitmap = record {
  is_ok = true;
  width = pos 18;
  height = pos 16;
  depth = pos 24;
  content = b'l' ∷ b's' ∷ [];
}

-- A full cache, with the run `ls`.
abbrev ls_cached : GlyphCache
ls_cached = record {
  glyph_runs =
      (run_of (b'l' ∷ b's' ∷ []), record { bitmap = ls_bitmap; measured_width = 18; bytes = 864 })
      ∷ [];
  glyph_run_lru = run_of (b'l' ∷ b's' ∷ []) ∷ [];
  glyph_run_cache_bytes = 864;
  metrics = record {
    entries = 1;
    bytes = 864;
    peak_bytes = 900;
    hits = 3;
    misses = 2;
    evictions = 1;
  };
}

tally_le : (key k : GlyphRunKey) → tally (same_key key k) + 0 ≤ 1
tally_le key k = ground arith

ls_cached-IsCounted : IsCounted ls_cached
ls_cached-IsCounted = record {
  matched = λ k. refl;
  once = λ k. tally_le (run_of (b'l' ∷ b's' ∷ [])) k;
  counted = refl;
  fits = omega arith;
  reported = refl;
  reported_bytes = refl;
}

ls_cached-IsSound : IsSound one_entry ls_cached
ls_cached-IsSound = record {
  inside = ls_cached-IsCounted;
  few = omega arith;
  small = omega arith;
  peak = omega arith;
  peak_small = omega arith;
}

ls_cached-IsDrawn : IsDrawn plain_canvas ls_cached.glyph_runs
unfolding drawn_bitmap
ls_cached-IsDrawn = (refl, tt)

-- Another run takes the place of the one in the cache.
glyph_run_bitmap-Answers_example :
    Answers plain_canvas one_entry
      (run_of (b'c' ∷ b'd' ∷ []))
      ls_cached
      (glyph_run_bitmap plain_canvas one_entry (run_of (b'c' ∷ b'd' ∷ [])) ls_cached)
glyph_run_bitmap-Answers_example =
    glyph_run_bitmap-Answers plain_canvas one_entry (run_of (b'c' ∷ b'd' ∷ [])) ls_cached
      ls_cached-IsSound ls_cached-IsDrawn (omega arith)

make_room-total_example :
    (d : GlyphCache) × (make_room 1 one_entry 500 ls_cached ≡ some d)
    × IsShrunk ls_cached d
    × (length d.glyph_runs < 1)
    × (d.glyph_run_cache_bytes + 500 ≤ 1000)
make_room-total_example =
    make_room-total one_entry 500 ls_cached ls_cached-IsCounted (omega arith) (omega arith)

abbrev keys_after : Option (Bitmap × GlyphCache) → List GlyphRunKey
keys_after none = []
keys_after (some (b, c)) = c.glyph_run_lru

cd_cached :
    keys_after (glyph_run_bitmap plain_canvas one_entry (run_of (b'c' ∷ b'd' ∷ [])) ls_cached)
    ≡ run_of (b'c' ∷ b'd' ∷ []) ∷ []
unfolding glyph_run_bitmap evict same_key bind but_last
cd_cached = refl
