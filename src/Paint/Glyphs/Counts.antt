-- ===== src/Paint/Glyphs/Counts.antt =====
-- How often a key stands in the lists of the glyph-run cache of src/wx/terminal_renderer.cpp.
use mathlib.Core.Logic.{inl, inr}
use sakura_wx_prototype.Prelude.{
  ℕ, suc, ◌+◌, ◌<◌, ◌≡◌, refl, sym, ap, Bool, true, false, none, some, List, [], ◌∷◌, ◌++◌, arith,
  Bool-cases, length,
}
use sakura_wx_prototype.Paint.Glyphs.Keys.{GlyphRunKey, same_key, same_key_eq, same_key_self}
use sakura_wx_prototype.Paint.Glyphs.{CacheEntry, find_run, erase_run, unlink, last_key, but_last}

abbrev pub tally : Bool → ℕ
tally true = 1
tally false = 0

abbrev pub count : GlyphRunKey → List GlyphRunKey → ℕ
count k [] = 0
count k (x ∷ keys) = tally (same_key x k) + count k keys

abbrev pub keys : List (GlyphRunKey × CacheEntry) → List GlyphRunKey
keys [] = []
keys (run ∷ runs) = run.0 ∷ keys runs

-- The bytes of the entries.
abbrev pub total_bytes : List (GlyphRunKey × CacheEntry) → ℕ
total_bytes [] = 0
total_bytes (run ∷ runs) = run.1.bytes + total_bytes runs

pub count-append :
    (k : GlyphRunKey) (xs ys : List GlyphRunKey) → count k (xs ++ ys) ≡ count k xs + count k ys
count-append k [] ys = omega arith
count-append k (x ∷ xs) ys = omega (arith, count-append k xs ys)

pub count-but_last :
    (k x : GlyphRunKey) (xs : List GlyphRunKey)
    → count k (x ∷ xs) ≡ tally (same_key (last_key x xs) k) + count k (but_last x xs)
unfolding last_key but_last
count-but_last k x [] = refl
count-but_last k x (y ∷ ys) = omega (arith, count-but_last k y ys)

-- Moving a key to the front keeps every count.
pub count-unlink :
    (k key : GlyphRunKey) (xs : List GlyphRunKey)
    → 0 < count key xs
    → tally (same_key key k) + count k (unlink xs key) ≡ count k xs
unfolding unlink
count-unlink k key [] h = absurd (omega arith)
count-unlink k key (x ∷ xs) h = elim (Bool-cases (same_key x key)) [
  | inl e ↦ let same : x ≡ key = same_key_eq x key e in rw (e, sym same) refl
  | inr e ↦
      let here : tally (same_key x key) ≡ 0 = ap tally e in
      let rest = count-unlink k key xs (omega arith) in rw e (omega arith)
]

-- The node that leaves the list is that of the key, and the others keep their order.
pub unlink-splits :
    (key : GlyphRunKey) (xs : List GlyphRunKey)
    → 0 < count key xs
    → (front : List GlyphRunKey) × (back : List GlyphRunKey) × (xs ≡ front ++ key ∷ back)
      × (unlink xs key ≡ front ++ back)
unfolding unlink
unlink-splits key [] h = absurd (omega arith)
unlink-splits key (x ∷ xs) h = elim (Bool-cases (same_key x key)) [
  | inl e ↦ let same : x ≡ key = same_key_eq x key e in ([], xs, ap (λ k. k ∷ xs) same, rw e refl)
  | inr e ↦
      let here : tally (same_key x key) ≡ 0 = ap tally e in
      let (front, back, split, rest) = unlink-splits key xs (omega arith) in
      (x ∷ front, back, ap (λ l. x ∷ l) split, rw e (ap (λ l. x ∷ l) rest))
]

pub find_run-count :
    (runs : List (GlyphRunKey × CacheEntry)) (key : GlyphRunKey)
    → 0 < count key (keys runs)
    → (entry : CacheEntry) × (find_run runs key ≡ some entry)
unfolding find_run
find_run-count [] key h = absurd (omega arith)
find_run-count (run ∷ runs) key h = elim (Bool-cases (same_key run.0 key)) [
  | inl e ↦ (run.1, rw e refl)
  | inr e ↦
      let here : tally (same_key run.0 key) ≡ 0 = ap tally e in
      rw e (find_run-count runs key (omega arith))
]

pub find_run-none :
    (runs : List (GlyphRunKey × CacheEntry)) (key : GlyphRunKey)
    → find_run runs key ≡ none
    → count key (keys runs) ≡ 0
unfolding find_run
find_run-none [] key h = refl
find_run-none (run ∷ runs) key h = elim (Bool-cases (same_key run.0 key)) [
  | inl e ↦ ground (arith, e)
  | inr e ↦
      let here : tally (same_key run.0 key) ≡ 0 = ap tally e in
      let rest = find_run-none runs key (ground arith) in omega arith
]

pub find_run-some :
    (runs : List (GlyphRunKey × CacheEntry)) (key : GlyphRunKey) (entry : CacheEntry)
    → find_run runs key ≡ some entry
    → 0 < count key (keys runs)
unfolding find_run
find_run-some [] key entry h = absurd (cc)
find_run-some (run ∷ runs) key entry h = elim (Bool-cases (same_key run.0 key)) [
  | inl e ↦ let here : tally (same_key run.0 key) ≡ 1 = ap tally e in omega arith
  | inr e ↦ let rest = find_run-some runs key entry (ground arith) in omega arith
]

-- Erasing the key of an entry takes its bytes, one count of the key, and nothing else.
pub erase_run-count :
    (runs : List (GlyphRunKey × CacheEntry)) (key : GlyphRunKey) (entry : CacheEntry)
    → find_run runs key ≡ some entry
    → (total_bytes runs ≡ entry.bytes + total_bytes (erase_run runs key))
      × (length runs ≡ suc (length (erase_run runs key)))
      × ((k : GlyphRunKey)
          → count k (keys runs) ≡ tally (same_key key k) + count k (keys (erase_run runs key)))
unfolding find_run erase_run
erase_run-count [] key entry h = absurd (cc)
erase_run-count (run ∷ runs) key entry h = elim (Bool-cases (same_key run.0 key)) [
  | inl e ↦
      let same : run.0 ≡ key = same_key_eq run.0 key e in
      let found : run.1 ≡ entry = ground (arith, e) in
      rw (e, sym same, sym found) (refl, refl, λ k. refl)
  | inr e ↦
      let rest = erase_run-count runs key entry (ground arith) in
      rw e (omega (arith, rest.0), ap suc rest.1, λ k. omega (arith, rest.2 k))
]

-- A list in which nothing occurs is empty.
pub keys-empty :
    (runs : List (GlyphRunKey × CacheEntry))
    → ((k : GlyphRunKey) → count k (keys runs) ≡ 0)
    → runs ≡ []
keys-empty [] h = refl
keys-empty (run ∷ runs) h =
    let here : tally (same_key run.0 run.0) ≡ 1 = ap tally (same_key_self run.0) in
    absurd (omega (arith, h run.0))
