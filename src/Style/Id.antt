-- ===== src/Style/Id.antt =====
-- The 64-bit style identifier of src/terminal_core.cpp (`PackedStyleId`).
use sakura_wx_prototype.Prelude.{◌+◌, ◌*◌, ◌^◌, ◌<◌, ◌≡◌, arith}
use sakura_wx_prototype.Prelude.Bits.{bit_or-shift}
use sakura_wx_prototype.Style.{Rgb, PackedStyle, packed_style_id}

abbrev pub IsColor : Rgb → Type 0
IsColor c = (c.red < 256) × (c.green < 256) × (c.blue < 256)

-- Every byte of the style is a byte.
abbrev pub IsStyle : PackedStyle → Type 0
IsStyle s = IsColor s.foreground × IsColor s.background × (s.attributes < 256)

-- The identifier is the number with the seven bytes of the style for digits, attributes first.
packed_style_id_digits :
    (s : PackedStyle)
    → IsStyle s
    → packed_style_id s
      ≡ s.attributes
        + s.foreground.red * 2 ^ 8
        + s.foreground.green * 2 ^ 16
        + s.foreground.blue * 2 ^ 24
        + s.background.red * 2 ^ 32
        + s.background.green * 2 ^ 40
        + s.background.blue * 2 ^ 48
unfolding packed_style_id
packed_style_id_digits s h = ground (
  arith,
  bit_or-shift 8 a fore.red (omega arith),
  bit_or-shift 16 (a + fore.red * 2 ^ 8) fore.green (omega arith),
  bit_or-shift 24 (a + fore.red * 2 ^ 8 + fore.green * 2 ^ 16) fore.blue (omega arith),
  bit_or-shift 32 (a + fore.red * 2 ^ 8 + fore.green * 2 ^ 16 + fore.blue * 2 ^ 24) back.red
      (omega arith),
  bit_or-shift 40
      (a + fore.red * 2 ^ 8 + fore.green * 2 ^ 16 + fore.blue * 2 ^ 24 + back.red * 2 ^ 32)
      back.green (omega arith),
  bit_or-shift 48
      (a
        + fore.red * 2 ^ 8
        + fore.green * 2 ^ 16
        + fore.blue * 2 ^ 24
        + back.red * 2 ^ 32
        + back.green * 2 ^ 40)
      back.blue (omega arith),
)
  where
    open s use {attributes as a, foreground as fore, background as back}

-- Two styles, made of bytes, with the same identifier are the same style.
pub packed_style_id-injective :
    (s t : PackedStyle) → IsStyle s → IsStyle t → packed_style_id s ≡ packed_style_id t → s ≡ t
packed_style_id-injective s t hs ht e =
    ground (arith, packed_style_id_digits s hs, packed_style_id_digits t ht)
