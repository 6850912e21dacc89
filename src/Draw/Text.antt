-- ===== src/Draw/Text.antt =====
-- The text and the code point that `DrawPackedCell` of src/terminal_core.cpp makes of a cell.
use mathlib.Core.List.{append-nil, append_assoc}
use sakura_wx_prototype.Prelude.{
  ℕ, zero, suc, ◌+◌, ◌<◌, ◌≤◌, ◌≡◌, refl, sym, ltb, ◌==◌, if◌then◌else◌, ap, ◌∙◌, ◌⊎◌, inl, inr,
  ◌&&◌, List, [], ◌∷◌, ◌++◌, Option, none, some, arith, length, length-append, Bool-cases,
}
use sakura_wx_prototype.Draw.{DrawnCell, first_codepoint, encode_from, encoded_text}

-- The code point that a reader is to see of a cell that libtsm draws with these code points and
-- this width: the first one, the blank's, or zero in the second half of a wide glyph.
abbrev pub shown_codepoint : List ℕ → ℕ → ℕ
shown_codepoint [] zero = 0
shown_codepoint [] (suc width) = b' '
shown_codepoint (codepoint ∷ codepoints) width = codepoint

-- The encodings of the code points, one behind the other.
unfoldable pub encodings : (ℕ → List ℕ) → List ℕ → List ℕ
encodings encode [] = []
encodings encode (codepoint ∷ codepoints) = encode codepoint ++ encodings encode codepoints

-- The bytes that a reader is to see: the encodings, or one blank for a cell without code points
-- that has a width.
abbrev pub shown_text : (ℕ → List ℕ) → List ℕ → ℕ → List ℕ
shown_text encode [] zero = []
shown_text encode [] (suc width) = b' ' ∷ []
shown_text encode (codepoint ∷ codepoints) width = encodings encode (codepoint ∷ codepoints)

pub first_codepoint-shown :
    (cell : DrawnCell) → first_codepoint cell ≡ shown_codepoint cell.codepoints cell.width
first_codepoint-shown cell = shown_codepoint-eq cell.codepoints cell.width
  where
    shown_codepoint-eq :
        (codepoints : List ℕ) (width : ℕ)
        → elim codepoints [ [] ↦ if width == 0 then 0 else b' ' | codepoint ∷ rest ↦ codepoint ]
          ≡ shown_codepoint codepoints width
    shown_codepoint-eq [] zero = refl
    shown_codepoint-eq [] (suc width) = ground arith
    shown_codepoint-eq (codepoint ∷ codepoints) width = refl

-- The loop over the code points gives the encodings, or they are too long.
encode_from-encodings :
    (encode : ℕ → List ℕ) (encoded codepoints : List ℕ)
    → length encoded ≤ 128
    → ((length (encoded ++ encodings encode codepoints) ≤ 128)
        × (encode_from encode encoded codepoints ≡ some (encoded ++ encodings encode codepoints)))
      ⊎ ((128 < length (encoded ++ encodings encode codepoints))
          × (encode_from encode encoded codepoints ≡ none))
unfolding encode_from encodings
encode_from-encodings encode encoded [] short =
    let same = append-nil encoded in inl (omega (arith, ap length same), ap some (sym same))
encode_from-encodings encode encoded (codepoint ∷ codepoints) short =
    let next = encoded ++ encode codepoint in
    let size = length-append encoded (encode codepoint) in
    let more = length-append next (encodings encode codepoints) in
    let joined = append_assoc encoded (encode codepoint) (encodings encode codepoints) in
    let joined_length = ap length joined in
    elim (Bool-cases (ltb 128 (length encoded + length (encode codepoint)))) [
      | inl long ↦
          let over : 128 < length encoded + length (encode codepoint) = ground arith in
          inr (omega (arith, size, more, joined_length), rw long refl)
      | inr fits ↦
          let under : length encoded + length (encode codepoint) ≤ 128 = ground arith in
          elim (encode_from-encodings encode next codepoints (omega (arith, size))) [
            | inl (bound, e) ↦
                inl (omega (arith, bound, joined_length), rw fits (e ∙ ap some joined))
            | inr (bound, e) ↦ inr (omega (arith, bound, joined_length), rw fits e)
          ]
    ]

-- The text of a cell.
pub encoded_text-shown :
    (encode : ℕ → List ℕ) (cell : DrawnCell)
    → ((length (shown_text encode cell.codepoints cell.width) ≤ 128)
        × (encoded_text encode cell ≡ some (shown_text encode cell.codepoints cell.width)))
      ⊎ ((128 < length (shown_text encode cell.codepoints cell.width))
          × (encoded_text encode cell ≡ none))
unfolding encoded_text
encoded_text-shown encode cell = by_codepoints cell.codepoints cell.width
  where
    by_codepoints :
        (codepoints : List ℕ) (width : ℕ)
        → let text : Option (List ℕ) = elim (encode_from encode [] codepoints) [
          | none ↦ none
          | some text ↦ some (if (length codepoints == 0) && ltb 0 width then b' ' ∷ [] else text)
        ] in
          ((length (shown_text encode codepoints width) ≤ 128)
            × (text ≡ some (shown_text encode codepoints width)))
          ⊎ ((128 < length (shown_text encode codepoints width)) × (text ≡ none))
    by_codepoints [] zero = inl (omega arith, refl)
    by_codepoints [] (suc width) = inl (omega arith, ground arith)
    by_codepoints (codepoint ∷ codepoints) width =
        elim (encode_from-encodings encode [] (codepoint ∷ codepoints) (omega arith)) [
          | inl (bound, e) ↦ inl (bound, rw e (ground arith))
          | inr (bound, e) ↦ inr (bound, rw e refl)
        ]
