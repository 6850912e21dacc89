-- ===== src/Paint/Glyphs/Room.antt =====
-- The evictions that make room in the glyph-run cache of src/wx/terminal_renderer.cpp.
use sakura_wx_prototype.Prelude.{
  ℕ, zero, suc, ◌+◌, ◌≤◌, ◌<◌, ◌≡◌, refl, sym, ap, ◌∙◌, inl, inr, true, false, Option, some, List,
  [], ◌∷◌, arith, Bool-cases, length,
}
use sakura_wx_prototype.Paint.Glyphs.Keys.{GlyphRunKey}
use sakura_wx_prototype.Paint.Glyphs.{
  Bitmap, bitmap_bytes, CacheConfig, GlyphCache, evict, is_empty, lacks_room, make_room,
}
use sakura_wx_prototype.Paint.Glyphs.Counts.{count, total_bytes, keys-empty}
use sakura_wx_prototype.Paint.Glyphs.Evict.{
  IsCounted, IsShrunk, evict-IsShrunk, IsShrunk-trans, IsShrunk-self, length-but_last,
}

lacks_room-empty :
    (config : CacheConfig) (size : ℕ) (c : GlyphCache)
    → c.glyph_run_lru ≡ []
    → lacks_room config size c ≡ false
unfolding lacks_room
lacks_room-empty config size c e = rw e refl

lacks_room-nonempty :
    (config : CacheConfig) (size : ℕ) (c : GlyphCache) (keys : List GlyphRunKey)
    → c.glyph_run_lru ≡ keys
    → lacks_room config size c ≡ true
    → (x : GlyphRunKey) × (xs : List GlyphRunKey) × (keys ≡ x ∷ xs)
lacks_room-nonempty config size c [] e h = absurd (ground (arith, lacks_room-empty config size c e))
lacks_room-nonempty config size c (x ∷ xs) e h = (x, xs, refl)

abbrev pub MakesRoom : CacheConfig → ℕ → GlyphCache → Option GlyphCache → Type 0
MakesRoom config size c result =
    (d : GlyphCache) × (result ≡ some d) × IsShrunk c d × (lacks_room config size d ≡ false)

make_room_from :
    (fuel : ℕ) (config : CacheConfig) (size : ℕ) (c : GlyphCache)
    → IsCounted c
    → length c.glyph_run_lru ≤ fuel
    → MakesRoom config size c (make_room fuel config size c)
unfolding make_room
make_room_from zero config size c h enough = elim (Bool-cases (lacks_room config size c)) [
  | inr e ↦ rw e (c, refl, IsShrunk-self c h, e)
  | inl e ↦
      let (x, xs, some_keys) = lacks_room-nonempty config size c c.glyph_run_lru refl e in
      absurd (omega (arith, ap length some_keys))
]
make_room_from (suc fuel) config size c h enough = elim (Bool-cases (lacks_room config size c)) [
  | inr e ↦ rw e (c, refl, IsShrunk-self c h, e)
  | inl e ↦
      let (x, xs, some_keys) = lacks_room-nonempty config size c c.glyph_run_lru refl e in
      let (one, left) = evict-IsShrunk c x xs h some_keys in
      let shorter : length (evict c).glyph_run_lru ≤ fuel =
        omega (arith, ap length left, length-but_last x xs, ap length some_keys) in
      let (d, made, more, room) = make_room_from fuel config size (evict c) one.sound shorter in
      rw e (d, made, IsShrunk-trans c (evict c) d one more, room)
]

room-left :
    (config : CacheConfig) (size : ℕ) (c : GlyphCache) (lru : List GlyphRunKey)
    → c.glyph_run_lru ≡ lru
    → IsCounted c
    → 0 < config.glyph_cache_max_entries
    → size ≤ config.glyph_cache_max_bytes
    → lacks_room config size c ≡ false
    → (length c.glyph_runs < config.glyph_cache_max_entries)
      × (c.glyph_run_cache_bytes + size ≤ config.glyph_cache_max_bytes)
unfolding lacks_room
room-left config size c [] e h some_entry fits stopped =
    let none_left : c.glyph_runs ≡ [] =
      keys-empty c.glyph_runs (λ k. sym (h.matched k) ∙ ap (count k) e) in
    let bytes : c.glyph_run_cache_bytes ≡ 0 = h.counted ∙ ap total_bytes none_left in
    (omega (arith, ap length none_left), omega arith)
room-left config size c (x ∷ xs) e h some_entry fits stopped =
    let full : is_empty c.glyph_run_lru ≡ false = ap is_empty e in
    let stop = stopped in ground arith

-- In a sound cache, with room for one entry at all and for a bitmap of `size` bytes, the loop ends
-- after at most one eviction for each entry of the list of recent use; then one more entry and
-- `size` more bytes are within the limits, the cache is sound, and the keys left are the first of
-- the list of recent use as it was.
pub make_room-total :
    (config : CacheConfig) (size : ℕ) (c : GlyphCache)
    → IsCounted c
    → 0 < config.glyph_cache_max_entries
    → size ≤ config.glyph_cache_max_bytes
    → (d : GlyphCache) × (make_room (length c.glyph_run_lru) config size c ≡ some d)
      × IsShrunk c d
      × (length d.glyph_runs < config.glyph_cache_max_entries)
      × (d.glyph_run_cache_bytes + size ≤ config.glyph_cache_max_bytes)
make_room-total config size c h some_entry fits =
    let (d, made, shrunk, stopped) =
      make_room_from (length c.glyph_run_lru) config size c h (omega arith) in
    let (few, small) =
      room-left config size d d.glyph_run_lru refl shrunk.sound some_entry fits stopped in
    (d, made, shrunk, few, small)

-- One more entry, of that bitmap, is within the limits.
abbrev pub HasRoom : CacheConfig → Bitmap → GlyphCache → Type 0
HasRoom config b c =
    (length c.glyph_runs < config.glyph_cache_max_entries)
    × (c.glyph_run_cache_bytes + bitmap_bytes b ≤ config.glyph_cache_max_bytes)

pub lacks_room-full :
    (config : CacheConfig) (b : Bitmap) (c : GlyphCache)
    → lacks_room config (bitmap_bytes b) c ≡ true
    → ¬ HasRoom config b c
unfolding lacks_room
lacks_room-full config b c lacks room = ground (arith, room.0, room.1)

pub make_room-idle :
    (fuel : ℕ) (config : CacheConfig) (size : ℕ) (c : GlyphCache)
    → lacks_room config size c ≡ false
    → make_room fuel config size c ≡ some c
unfolding make_room
make_room-idle zero config size c idle = rw idle refl
make_room-idle (suc fuel) config size c idle = rw idle refl
