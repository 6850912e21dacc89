-- ===== src/Paint/Glyphs/Requests.antt =====
-- What `GlyphRunBitmap` of src/wx/terminal_renderer.cpp answers, and the cache it leaves.
use mathlib.Core.List.{append-nil}
use mathlib.Core.Option.{bind, some-injective}
use mathlib.Core.Path.{subst}
use sakura_wx_prototype.Prelude.{
  ℕ, ◌+◌, ◌^◌, ◌≤◌, ◌<◌, ◌≡◌, refl, sym, ap, ◌∙◌, ◌⊎◌, inl, inr, none, some, List, [], ◌∷◌, ◌++◌,
  arith, Bool-cases, Option-cases, length,
}
use sakura_wx_prototype.Paint.Glyphs.Keys.{GlyphRunKey, same_key, same_key_eq}
use sakura_wx_prototype.Paint.Glyphs.{
  Bitmap, CacheEntry, Canvas, CacheConfig, GlyphCache, bitmap_bytes, find_run, unlink, drawn_bitmap,
  insert_run, lacks_room, make_room, count_hit, count_miss, is_cacheable, entry_for, store_bitmap,
  answer, glyph_run_bitmap,
}
use sakura_wx_prototype.Paint.Glyphs.Counts.{
  tally, count, keys, count-unlink, unlink-splits, find_run-none, find_run-some,
}
use sakura_wx_prototype.Paint.Glyphs.Evict.{IsCounted, IsDrawn, IsShrunk}
use sakura_wx_prototype.Paint.Glyphs.Room.{
  HasRoom, make_room-total, lacks_room-full, make_room-idle,
}
use sakura_wx_prototype.Paint.Glyphs.Answered.{
  Answers, IsSound, cacheable-ok, cacheable-room, count_append_le, find_run-IsDrawn, not_cacheable,
}

module _ (canvas : Canvas) (config : CacheConfig) (key : GlyphRunKey) (c : GlyphCache)
    (sound : IsSound config c) (drawn : IsDrawn canvas c.glyph_runs) where
  abbrev hit : GlyphCache
  hit = count_hit (record c { glyph_run_lru = key ∷ unlink c.glyph_run_lru key })

  hit-IsSound : 0 < count key c.glyph_run_lru → IsSound config hit
  hit-IsSound present = record {
    inside = record {
      matched =
          λ k. omega (arith, count-unlink k key c.glyph_run_lru present, sound.inside.matched k);
      once = λ k. omega (arith, count-unlink k key c.glyph_run_lru present, sound.inside.once k);
      counted = sound.inside.counted;
      fits = sound.inside.fits;
      reported = sound.inside.reported;
      reported_bytes = sound.inside.reported_bytes;
    };
    few = sound.few;
    small = sound.small;
    peak = sound.peak;
    peak_small = sound.peak_small;
  }

  answer-hit :
      (entry : CacheEntry)
      → find_run c.glyph_runs key ≡ some entry
      → Answers canvas config key c (answer (some entry) canvas config key c)
  unfolding answer
  answer-hit entry found =
      let present : 0 < count key c.glyph_run_lru =
        omega (arith, find_run-some c.glyph_runs key entry found, sound.inside.matched key) in
      let (front, back, split, others) = unlink-splits key c.glyph_run_lru present in
      (
        entry.bitmap,
        hit,
        refl,
        record {
          sound = hit-IsSound present;
          bitmap = find_run-IsDrawn canvas c.glyph_runs key entry drawn found;
          entries = drawn;
          recent = inl (front, back, split, ap (λ l. key ∷ l) others);
        },
      )

  module _ (fits : config.glyph_cache_max_bytes < 2 ^ 64)
      (absent : find_run c.glyph_runs key ≡ none) where
    abbrev missed : GlyphCache
    missed = count_miss c

    missed-IsCounted : IsCounted missed
    missed-IsCounted = record {
      matched = sound.inside.matched;
      once = sound.inside.once;
      counted = sound.inside.counted;
      fits = sound.inside.fits;
      reported = sound.inside.reported;
      reported_bytes = sound.inside.reported_bytes;
    }

    missed-IsSound : IsSound config missed
    missed-IsSound = record {
      inside = missed-IsCounted;
      few = sound.few;
      small = sound.small;
      peak = sound.peak;
      peak_small = sound.peak_small;
    }

    -- What goes to make room.
    stored-order :
        (room : GlyphCache) (shrunk : IsShrunk missed room) (b : Bitmap)
        → make_room (length c.glyph_run_lru) config (bitmap_bytes b) missed ≡ some room
        → (left : List GlyphRunKey) × (gone : List GlyphRunKey) × (c.glyph_run_lru ≡ left ++ gone)
          × (key ∷ room.glyph_run_lru ≡ key ∷ left)
          × ((gone ≡ []) ⊎ (¬ HasRoom config b c))
    stored-order room shrunk b made =
        elim (Bool-cases (lacks_room config (bitmap_bytes b) missed)) [
          | inl lacks ↦ (
            room.glyph_run_lru,
            shrunk.recent.0,
            shrunk.recent.1,
            refl,
            inr (lacks_room-full config b missed lacks),
          )
          | inr idle ↦
              let stays =
                make_room-idle (length c.glyph_run_lru) config (bitmap_bytes b) missed idle in
              let same : room ≡ missed = some-injective room missed (sym made ∙ stays) in
              (
                c.glyph_run_lru,
                [],
                sym (append-nil c.glyph_run_lru),
                ap (λ (d : GlyphCache). key ∷ d.glyph_run_lru) same,
                inl refl,
              )
        ]

    module _ (room : GlyphCache) (shrunk : IsShrunk missed room) (b : Bitmap) (measured : ℕ)
        (few : length room.glyph_runs < config.glyph_cache_max_entries)
        (small : room.glyph_run_cache_bytes + bitmap_bytes b ≤ config.glyph_cache_max_bytes) where
      abbrev stored : GlyphCache
      unfolding insert_run
      stored = insert_run config key (entry_for b measured) room

      stored-once : (k : GlyphRunKey) → count k stored.glyph_run_lru ≤ 1
      unfolding insert_run
      stored-once k =
          let older =
            count_append_le k room.glyph_run_lru shrunk.recent.0 c.glyph_run_lru shrunk.recent.1 in
          elim (Bool-cases (same_key key k)) [
            | inl e ↦
                let same : key ≡ k = same_key_eq key k e in
                let fresh : count k (keys c.glyph_runs) ≡ 0 =
                  subst (λ x. count x (keys c.glyph_runs) ≡ 0) same
                    (find_run-none c.glyph_runs key absent) in
                let one : tally (same_key key k) ≡ 1 = ap tally e in
                omega (arith, sound.inside.matched k, older, fresh, one)
            | inr e ↦
                let zero_more : tally (same_key key k) ≡ 0 = ap tally e in
                omega (arith, shrunk.sound.once k, zero_more)
          ]

      stored-bytes : stored.glyph_run_cache_bytes ≡ room.glyph_run_cache_bytes + bitmap_bytes b
      unfolding insert_run
      stored-bytes = omega arith

      stored-IsSound : IsSound config stored
      unfolding insert_run
      stored-IsSound = record {
        inside = record {
          matched = λ k. omega (arith, shrunk.sound.matched k);
          once = stored-once;
          counted = stored-bytes ∙ omega (arith, shrunk.sound.counted);
          fits = omega (arith, stored-bytes);
          reported = refl;
          reported_bytes = refl;
        };
        few = omega arith;
        small = omega (arith, stored-bytes);
        peak = omega arith;
        peak_small = omega (arith, stored-bytes, shrunk.peak_kept, sound.peak_small);
      }

    answer-miss : Answers canvas config key c (answer none canvas config key c)
    unfolding answer store_bitmap insert_run bind
    answer-miss =
        let b = drawn_bitmap canvas key in
        let measured = canvas.measure key in
        let unused : count key c.glyph_run_lru ≡ 0 =
          omega (arith, find_run-none c.glyph_runs key absent, sound.inside.matched key) in
        elim (Bool-cases (is_cacheable config b)) [
          | inr e ↦ rw e (
            b,
            missed,
            refl,
            record {
              sound = missed-IsSound;
              bitmap = refl;
              entries = drawn;
              recent = inr (inr (unused, not_cacheable config b e, refl));
            },
          )
          | inl e ↦
              let (some_entry, size) = cacheable-room config b e in
              let (room, made, shrunk, few, small) =
                make_room-total config (bitmap_bytes b) missed missed-IsCounted some_entry size in
              rw (e, made)
                (
                  b,
                  stored room shrunk b measured few small,
                  refl,
                  record {
                    sound = stored-IsSound room shrunk b measured few small;
                    bitmap = refl;
                    entries = (refl, shrunk.drawn canvas drawn);
                    recent = inr (
                        inl (
                          unused,
                          (cacheable-ok config b e, some_entry, size),
                          stored-order room shrunk b made,
                        ));
                  },
                )
        ]

-- A request to a sound cache, whose entries are as drawn and whose byte limit fits 64 bits, is
-- answered, by eviction or not, with the very bitmap that drawing the run gives; the cache after it is
-- sound: within both limits, each key once, with the bytes counted exactly and no peak above the
-- limit; its entries are as drawn; and the keys are in the order of their last use: a key that is
-- in the cache moves to the front and the others keep their order, and a new one whose bitmap can be
-- stored is put in front of those used last, so that those evicted, if there is no room for one more
-- entry, are the ones that were used least recently; if its bitmap cannot be stored, the order stays.
pub glyph_run_bitmap-Answers :
    (canvas : Canvas) (config : CacheConfig) (key : GlyphRunKey) (c : GlyphCache)
    → IsSound config c
    → IsDrawn canvas c.glyph_runs
    → config.glyph_cache_max_bytes < 2 ^ 64
    → Answers canvas config key c (glyph_run_bitmap canvas config key c)
unfolding glyph_run_bitmap
glyph_run_bitmap-Answers canvas config key c sound drawn fits =
    elim (Option-cases (find_run c.glyph_runs key)) [
      | inl absent ↦ rw absent (answer-miss canvas config key c sound drawn fits absent)
      | inr (entry, found) ↦ rw found (answer-hit canvas config key c sound drawn entry found)
    ]
