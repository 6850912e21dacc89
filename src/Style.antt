-- ===== src/Style.antt =====
-- Cell styles: `PackedStyle`, `PackedStyleFor`, `StyleIndex` and `PackedStyleId` of
-- src/terminal_core.cpp. A byte is a number; `TsmAttr` holds what the code reads of
-- `struct tsm_screen_attr`, which is libtsm's.
pub mod Intern
pub mod Id
use Prim.Native.Nat.{bit_or}
use sakura_wx_prototype.Prelude.{
  ℕ, zero, suc, ◌+◌, ◌-◌, ◌*◌, ◌/◌, ◌^◌, Bool, ◌&&◌, List, [], ◌∷◌, ◌++◌, Option, none, some, leb,
  ◌==◌, if◌then◌else◌, length,
}
use sakura_wx_prototype.Prelude.Word.{u8, u16}

-- `std::array<uint8_t, 3>`.
pub record Rgb : Type 0 where
  pub red : ℕ
  pub green : ℕ
  pub blue : ℕ

pub record PackedStyle : Type 0 where
  pub foreground : Rgb
  pub background : Rgb
  pub attributes : ℕ

pub record TsmAttr : Type 0 where
  pub fore : Rgb
  pub back : Rgb
  pub bold : Bool
  pub italic : Bool
  pub underline : Bool
  pub inverse : Bool
  pub dim : Bool
  pub blink : Bool

abbrev pub black : Rgb
black = record { red = 0; green = 0; blue = 0 }

-- `PackedStyle {}`.
abbrev pub default_style : PackedStyle
default_style = record { foreground = black; background = black; attributes = 0 }

-- `static_cast<uint8_t>(background / 2 + foreground / 2)`.
abbrev pub dimmed : ℕ → ℕ → ℕ
dimmed background foreground = u8 (background / 2 + foreground / 2)

abbrev pub dim_color : Rgb → Rgb → Rgb
dim_color background foreground = record {
  red = dimmed background.red foreground.red;
  green = dimmed background.green foreground.green;
  blue = dimmed background.blue foreground.blue;
}

-- `if (flag) attributes |= mask`.
abbrev pub or_flag : Bool → ℕ → ℕ → ℕ
or_flag flag mask attributes = if flag then bit_or attributes mask else attributes

unfoldable pub packed_style_for : TsmAttr → PackedStyle
packed_style_for attr =
    let foreground = if attr.inverse then attr.back else attr.fore in
    let background = if attr.inverse then attr.fore else attr.back in
    record {
      foreground = if attr.dim then dim_color background foreground else foreground;
      background = background;
      attributes = or_flag attr.dim 0x10 (
          or_flag attr.blink 0x08
            (or_flag attr.underline 0x04 (or_flag attr.italic 0x02 (or_flag attr.bold 0x01 0))));
    }

abbrev pub same_color : Rgb → Rgb → Bool
same_color a b = (a.red == b.red) && (a.green == b.green) && (a.blue == b.blue)

abbrev pub same_style : PackedStyle → PackedStyle → Bool
same_style a b =
    same_color a.foreground b.foreground
    && same_color a.background b.background
    && (a.attributes == b.attributes)

-- The loop over the styles, from `index` on.
unfoldable pub find_style : List PackedStyle → PackedStyle → ℕ → Option ℕ
find_style [] style index = none
find_style (existing ∷ styles) style index =
    let rest = find_style styles style (suc index) in
    if same_style existing style then some index else rest

abbrev pub max_styles : ℕ
max_styles = 2 ^ 16 - 1

-- The styles of the grid with the style's index.
unfoldable pub style_index : List PackedStyle → PackedStyle → List PackedStyle × ℕ
unfolding find_style
style_index styles style = elim (find_style styles style 0) [
  | some index ↦ (styles, u16 index)
  | none ↦
      if leb max_styles (length styles)
      then (styles, 0)
      else (styles ++ style ∷ [], u16 (length styles))
]

-- `value |= byte << shift`; the bytes are below 2 ^ 8 and the shifts at most 48, so 64 bits hold it.
unfoldable pub packed_style_id : PackedStyle → ℕ
packed_style_id style =
    let v1 = bit_or style.attributes (style.foreground.red * 2 ^ 8) in
    let v2 = bit_or v1 (style.foreground.green * 2 ^ 16) in
    let v3 = bit_or v2 (style.foreground.blue * 2 ^ 24) in
    let v4 = bit_or v3 (style.background.red * 2 ^ 32) in
    let v5 = bit_or v4 (style.background.green * 2 ^ 40) in
    bit_or v5 (style.background.blue * 2 ^ 48)
