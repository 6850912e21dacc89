-- ===== src/Style/Intern.antt =====
-- The style table of src/terminal_core.cpp (`StyleIndex`) as a set with stable indices.
use mathlib.Core.Path.{subst}
use sakura_wx_prototype.Prelude.{
  ℕ, zero, ◌≢◌, suc, ◌+◌, ◌≤◌, ◌<◌, ◌≡◌, refl, ◌⊎◌, inl, inr, ◌∙◌, true, false, List, [], ◌∷◌, ◌++◌,
  none, some, arith, length, length-append, get_elem?, get_elem?-append_left,
  get_elem?-append_length, lt_of_get_elem?, leb, Bool-cases, Option-cases, ap,
}
use sakura_wx_prototype.Prelude.Word.{u16}
use sakura_wx_prototype.Style.{
  Rgb, PackedStyle, same_color, same_style, find_style, max_styles, style_index,
}

same_color_eq : (a b : Rgb) → same_color a b ≡ true → a ≡ b
same_color_eq a b h = ground arith

pub same_style_eq : (a b : PackedStyle) → same_style a b ≡ true → a ≡ b
same_style_eq a b h = ground arith

same_style_refl : (a : PackedStyle) → same_style a a ≡ true
same_style_refl a = ground arith

-- No two entries are the same style.
abbrev pub Absent : PackedStyle → List PackedStyle → Type 0
Absent s [] = Unit
Absent s (t ∷ styles) = (same_style t s ≡ false) × Absent s styles

abbrev pub IsDistinct : List PackedStyle → Type 0
IsDistinct [] = Unit
IsDistinct (s ∷ styles) = Absent s styles × IsDistinct styles

-- The entry that is found is the style, and lies in the table.
find_style-some :
    (styles : List PackedStyle) (style : PackedStyle) (base index : ℕ)
    → find_style styles style base ≡ some index
    → (i : ℕ) × (index ≡ base + i) × (get_elem? styles i ≡ some style)
unfolding find_style
find_style-some [] style base index e = absurd (cc)
find_style-some (s ∷ styles) style base index e = elim (Bool-cases (same_style s style)) [
  | inl same ↦ (0, ground arith, ap some (same_style_eq s style same))
  | inr other ↦
      let (i, p, q) = find_style-some styles style (suc base) index (rw (other, find_style) at e) in
      (suc i, omega arith, q)
]

find_style-none :
    (styles : List PackedStyle) (style : PackedStyle) (base : ℕ)
    → find_style styles style base ≡ none
    → Absent style styles
unfolding find_style
find_style-none [] style base e = tt
find_style-none (s ∷ styles) style base e = ground (arith, find_style-none styles style (suc base))

Absent-append :
    (s t : PackedStyle) (styles : List PackedStyle)
    → Absent s styles
    → same_style t s ≡ false
    → Absent s (styles ++ t ∷ [])
Absent-append s t [] h d = (d, tt)
Absent-append s t (u ∷ styles) h d = (h.0, Absent-append s t styles h.1 d)

same_style_sym : (a b : PackedStyle) → same_style a b ≡ false → same_style b a ≡ false
same_style_sym a b h = elim (Bool-cases (same_style b a)) [
  | inl e ↦ ground (arith, same_style_eq b a e, same_style_refl a)
  | inr e ↦ e
]

IsDistinct-append :
    (s : PackedStyle) (styles : List PackedStyle)
    → IsDistinct styles
    → Absent s styles
    → IsDistinct (styles ++ s ∷ [])
IsDistinct-append s [] d h = (tt, tt)
IsDistinct-append s (t ∷ styles) d h =
    (Absent-append t s styles d.0 (same_style_sym t s h.0), IsDistinct-append s styles d.1 h.1)

-- A style that is absent is at no index, and one that is there is at one index only.
pub Absent-get_elem? :
    (styles : List PackedStyle) (s : PackedStyle) (i : ℕ)
    → Absent s styles
    → get_elem? styles i ≢ some s
Absent-get_elem? [] s i h e = absurd (cc)
Absent-get_elem? (t ∷ styles) s zero h e = ground (arith, same_style_refl s, h.0)
Absent-get_elem? (t ∷ styles) s (suc i) h e = Absent-get_elem? styles s i h.1 e

pub IsDistinct-get_elem? :
    (styles : List PackedStyle) (s : PackedStyle) (i j : ℕ)
    → IsDistinct styles
    → get_elem? styles i ≡ some s
    → get_elem? styles j ≡ some s
    → i ≡ j
IsDistinct-get_elem? [] s i j d e f = absurd (cc)
IsDistinct-get_elem? (t ∷ styles) s zero zero d e f = refl
IsDistinct-get_elem? (t ∷ styles) s zero (suc j) d e f =
    let same : t ≡ s = ground arith in
    absurd (Absent-get_elem? styles s j (subst (λ u. Absent u styles) same d.0) f)
IsDistinct-get_elem? (t ∷ styles) s (suc i) zero d e f =
    let same : t ≡ s = ground arith in
    absurd (Absent-get_elem? styles s i (subst (λ u. Absent u styles) same d.0) e)
IsDistinct-get_elem? (t ∷ styles) s (suc i) (suc j) d e f =
    ap suc (IsDistinct-get_elem? styles s i j d.1 e f)

-- What `StyleIndex` may leave: a table that holds all of the old one at the old indices, has room for
-- no more than `max_styles` entries, none twice, and has the style at the index; or, only if the
-- table was full and did not have the style, the same table and the index 0.
pub record Interned (old : List PackedStyle) (style : PackedStyle) (out : List PackedStyle × ℕ)
    : Type 0 where
  pub distinct : IsDistinct out.0
  pub bounded : length out.0 ≤ max_styles
  pub stable : (i : ℕ) (s : PackedStyle) → get_elem? old i ≡ some s → get_elem? out.0 i ≡ some s
  pub found :
      (get_elem? out.0 out.1 ≡ some style)
      ⊎ ((length old ≡ max_styles) × Absent style old × (out ≡ (old, 0)))

intern_old :
    (styles : List PackedStyle) (style : PackedStyle) (index : ℕ)
    → IsDistinct styles
    → length styles ≤ max_styles
    → find_style styles style 0 ≡ some index
    → Interned styles style (styles, u16 index)
intern_old styles style index d b e =
    let (i, p, q) = find_style-some styles style 0 index e in
    let small = lt_of_get_elem? styles i style q in
    let same : u16 index ≡ i = omega arith in
    record { distinct = d; bounded = b; stable = λ j s h. h; found = inl (rw same q) }

intern_new :
    (styles : List PackedStyle) (style : PackedStyle)
    → IsDistinct styles
    → length styles < max_styles
    → Absent style styles
    → Interned styles style (styles ++ style ∷ [], u16 (length styles))
intern_new styles style d b a =
    let same : u16 (length styles) ≡ length styles = omega arith in
    record {
      distinct = IsDistinct-append style styles d a;
      bounded = omega (arith, length-append styles (style ∷ []));
      stable =
          λ j s h. get_elem?-append_left styles (style ∷ []) j (lt_of_get_elem? styles j s h) ∙ h;
      found = inl (rw same (get_elem?-append_length styles style []));
    }

-- Interning a style in a table of distinct styles that holds at most 2 ^ 16 - 1: the table stays
-- distinct and within that size, old indices keep their meaning, and the index names the style,
-- unless the table was full without it; then it stays as it was and the index is 0.
pub style_index-Interned :
    (styles : List PackedStyle) (style : PackedStyle)
    → IsDistinct styles
    → length styles ≤ max_styles
    → Interned styles style (style_index styles style)
unfolding style_index
style_index-Interned styles style d b = elim (Option-cases (find_style styles style 0)) [
  | inr (index, e) ↦ rw (e, style_index) (intern_old styles style index d b e)
  | inl e ↦ elim (Bool-cases (leb max_styles (length styles))) [
    | inl full ↦
        rw (e, full, style_index)
          (record {
            distinct = d;
            bounded = b;
            stable = λ j s h. h;
            found = inr (ground arith, find_style-none styles style 0 e, refl);
          })
    | inr room ↦
        rw (e, room, style_index)
          (intern_new styles style d (ground arith) (find_style-none styles style 0 e))
  ]
]
