-- ===== src/Prelude/Int.antt =====
-- Signed integers over the native numbers, under the library's names (its ℤ stands on the unary ℕ).
-- A sum goes through the two parts of an integer, which are numbers that `omega` reads.
use native.Mathlib.Nat.{zero-div}
use sakura_wx_prototype.Prelude.{
  ℕ, zero, suc, ◌+◌, ◌-◌, ◌*◌, ◌/◌, min, ◌≡◌, refl, sym, ap, ◌∙◌, ◌⊎◌, inl, inr, leb, if◌then◌else◌,
  arith,
}

-- `negsuc n` is -(n + 1).
pub data ℤ : Type 0 where
  pos : ℕ → ℤ
  negsuc : ℕ → ℤ

abbrev pub pos_part : ℤ → ℕ
pos_part (pos n) = n
pos_part (negsuc n) = 0

abbrev pub neg_part : ℤ → ℕ
neg_part (pos n) = 0
neg_part (negsuc n) = suc n

-- a - b, as an integer.
abbrev pub sub_ℕ : ℕ → ℕ → ℤ
sub_ℕ a b = if leb b a then pos (a - b) else negsuc (b - a - 1)

infixl 65 ◌+ℤ◌
unfoldable pub ◌+ℤ◌ : ℤ → ℤ → ℤ
a +ℤ b = sub_ℕ (pos_part a + pos_part b) (neg_part a + neg_part b)

abbrev pub neg_ℕ : ℕ → ℤ
neg_ℕ zero = pos 0
neg_ℕ (suc n) = negsuc n

abbrev pub neg : ℤ → ℤ
neg (pos n) = neg_ℕ n
neg (negsuc n) = pos (suc n)

infixl 65 ◌-ℤ◌
unfoldable pub ◌-ℤ◌ : ℤ → ℤ → ℤ
a -ℤ b = sub_ℕ (pos_part a + neg_part b) (neg_part a + pos_part b)

-- `std::abs`.
abbrev pub magnitude : ℤ → ℕ
magnitude (pos n) = n
magnitude (negsuc n) = suc n

-- An integer times a number, its quotient by a number, which rounds toward zero, and its nearest
-- integer between -limit and limit.
unfoldable pub scale : ℤ → ℕ → ℤ
scale (pos m) n = pos (m * n)
scale (negsuc m) n = neg_ℕ (suc m * n)

unfoldable pub quotient : ℤ → ℕ → ℤ
quotient (pos m) n = pos (m / n)
quotient (negsuc m) n = neg_ℕ (suc m / n)

unfoldable pub clamp : ℕ → ℤ → ℤ
clamp limit (pos m) = pos (min m limit)
clamp limit (negsuc m) = neg_ℕ (min (suc m) limit)

-- An integer is its two parts, one of which is 0.
pub sub_ℕ_parts : (a : ℤ) → sub_ℕ (pos_part a) (neg_part a) ≡ a
sub_ℕ_parts (pos n) = ground arith
sub_ℕ_parts (negsuc n) = ground arith

-- The parts of what the operations give.
pub neg_ℕ_parts : (n : ℕ) → (pos_part (neg_ℕ n) ≡ 0) × (neg_part (neg_ℕ n) ≡ n)
neg_ℕ_parts zero = (refl, refl)
neg_ℕ_parts (suc n) = (refl, refl)

pub scale_parts :
    (a : ℤ) (n : ℕ)
    → (pos_part (scale a n) ≡ pos_part a * n) × (neg_part (scale a n) ≡ neg_part a * n)
unfolding scale
scale_parts (pos m) n = (refl, omega arith)
scale_parts (negsuc m) n = let (p, q) = neg_ℕ_parts (suc m * n) in (omega (arith, p), q)

pub quotient_parts :
    (a : ℤ) (n : ℕ)
    → (pos_part (quotient a n) ≡ pos_part a / n) × (neg_part (quotient a n) ≡ neg_part a / n)
unfolding quotient
quotient_parts (pos m) n = (refl, sym (zero-div n))
quotient_parts (negsuc m) n = let (p, q) = neg_ℕ_parts (suc m / n) in (p ∙ sym (zero-div n), q)

pub clamp_parts :
    (limit : ℕ) (a : ℤ)
    → (pos_part (clamp limit a) ≡ min (pos_part a) limit)
      × (neg_part (clamp limit a) ≡ min (neg_part a) limit)
unfolding clamp
clamp_parts limit (pos m) = (refl, omega arith)
clamp_parts limit (negsuc m) = let (p, q) = neg_ℕ_parts (min (suc m) limit) in (omega (arith, p), q)

-- The parts of a difference of numbers.
pub sub_ℕ-parts : (a b : ℕ) → (pos_part (sub_ℕ a b) ≡ a - b) × (neg_part (sub_ℕ a b) ≡ b - a)
sub_ℕ-parts a b = ground arith

pub sum_parts :
    (a b : ℤ)
    → (pos_part (a +ℤ b) ≡ pos_part a + pos_part b - (neg_part a + neg_part b))
      × (neg_part (a +ℤ b) ≡ neg_part a + neg_part b - (pos_part a + pos_part b))
unfolding ◌+ℤ◌
sum_parts a b = sub_ℕ-parts (pos_part a + pos_part b) (neg_part a + neg_part b)

pub parts_zero : (a : ℤ) → (pos_part a ≡ 0) ⊎ (neg_part a ≡ 0)
parts_zero (pos n) = inr refl
parts_zero (negsuc n) = inl refl

pub magnitude_parts : (a : ℤ) → magnitude a ≡ pos_part a + neg_part a
magnitude_parts (pos n) = omega arith
magnitude_parts (negsuc n) = omega arith

-- Integers with the same parts are the same.
pub parts_eq : (a b : ℤ) → pos_part a ≡ pos_part b → neg_part a ≡ neg_part b → a ≡ b
parts_eq a b p q =
    sym (sub_ℕ_parts a)
    ∙ ap (λ x. sub_ℕ x (neg_part a)) p
    ∙ ap (sub_ℕ (pos_part b)) q
    ∙ sub_ℕ_parts b
