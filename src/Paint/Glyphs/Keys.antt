-- ===== src/Paint/Glyphs/Keys.antt =====
-- `ColorKey` and the key of the glyph-run cache of src/wx/terminal_renderer.cpp.
use sakura_wx_prototype.Prelude.{
  ℕ, ◌+◌, ◌*◌, ◌^◌, ◌≡◌, refl, Bool, true, false, ◌&&◌, List, [], ◌∷◌, ◌==◌, arith,
}

-- The three bytes of a colour in one number: the shifted bytes do not overlap, so `|` is a sum.
unfoldable pub color_key : ℕ → ℕ → ℕ → ℕ
color_key red green blue = red * 2 ^ 16 + green * 2 ^ 8 + blue

pub record GlyphRunKey : Type 0 where
  pub text : List ℕ
  pub foreground : ℕ
  pub background : ℕ
  pub font_identity : ℕ
  pub cell_count : ℕ
  pub attributes : ℕ
  pub cell_width : ℕ
  pub cell_height : ℕ
  pub dpi_x : ℕ
  pub dpi_y : ℕ

unfoldable pub same_text : List ℕ → List ℕ → Bool
same_text [] [] = true
same_text [] (y ∷ ys) = false
same_text (x ∷ xs) [] = false
same_text (x ∷ xs) (y ∷ ys) = (x == y) && same_text xs ys

-- `GlyphRunKey::operator==`.
unfoldable pub same_key : GlyphRunKey → GlyphRunKey → Bool
unfolding same_text
same_key a b =
    same_text a.text b.text
    && (a.foreground == b.foreground)
    && (a.background == b.background)
    && (a.font_identity == b.font_identity)
    && (a.cell_count == b.cell_count)
    && (a.attributes == b.attributes)
    && (a.cell_width == b.cell_width)
    && (a.cell_height == b.cell_height)
    && (a.dpi_x == b.dpi_x)
    && (a.dpi_y == b.dpi_y)

same_text_eq : (xs ys : List ℕ) → same_text xs ys ≡ true → xs ≡ ys
unfolding same_text
same_text_eq [] [] h = refl
same_text_eq [] (y ∷ ys) h = absurd (cc)
same_text_eq (x ∷ xs) [] h = absurd (cc)
same_text_eq (x ∷ xs) (y ∷ ys) h = ground (arith, same_text_eq xs ys)

same_text_self : (xs : List ℕ) → same_text xs xs ≡ true
unfolding same_text
same_text_self [] = refl
same_text_self (x ∷ xs) = ground (arith, same_text_self xs)

pub same_key_eq : (a b : GlyphRunKey) → same_key a b ≡ true → a ≡ b
unfolding same_key
same_key_eq a b h = ground (arith, same_text_eq a.text b.text)

pub same_key_self : (a : GlyphRunKey) → same_key a a ≡ true
unfolding same_key
same_key_self a = ground (arith, same_text_self a.text)
