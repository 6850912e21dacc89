-- ===== src/Prelude/Bits.antt =====
-- `bit_or` at variables: a value or'ed into bits that are still clear is added.
use Prim.Native.Nat.{
  ℕ, zero, suc, ◌+◌, ◌*◌, ◌/◌, ◌%◌, ◌^◌, ◌≤◌, ◌<◌, max, bit_or, digits, bit_or-bitwise,
}
use mathlib.Core.Path.{◌≡◌, refl, ap}
use native.Mathlib.Nat.{pow-suc}
use native.Mathlib.Omega.{arith}

abbrev merged : ℕ → ℕ → ℕ → ℕ
merged fuel a b = digits (λ rest. rest) max fuel a b

-- Any fuel that is not below the first value gives the same digits.
merged_fuel : (f g a b : ℕ) → a ≤ f → a ≤ g → merged f a b ≡ merged g a b
merged_fuel zero zero a b p q = refl
merged_fuel zero (suc g) zero b p q = refl
merged_fuel (suc f) zero zero b p q = refl
merged_fuel (suc f) (suc g) zero b p q = refl
merged_fuel zero g (suc a) b p q = absurd (omega arith)
merged_fuel (suc f) zero (suc a) b p q = absurd (omega arith)
merged_fuel (suc f) (suc g) (suc a) b p q =
    omega (arith, merged_fuel f g (suc a / 2) (b / 2) (omega arith) (omega arith))

zero-bit_or : (b : ℕ) → bit_or 0 b ≡ b
zero-bit_or b = bit_or-bitwise 0 b

-- The lowest digit apart.
bit_or_lowest : (a b : ℕ) → bit_or a b ≡ bit_or (a / 2) (b / 2) * 2 + max (a % 2) (b % 2)
bit_or_lowest zero b = omega (arith, zero-bit_or b, zero-bit_or (b / 2))
bit_or_lowest (suc a) b = omega (
  arith,
  bit_or-bitwise (suc a) b,
  bit_or-bitwise (suc a / 2) (b / 2),
  merged_fuel a (suc a / 2) (suc a / 2) (b / 2) (omega arith) (omega arith),
)

-- `a | (b << k)` for an `a` of `k` bits.
pub bit_or-shift : (k a b : ℕ) → a < 2 ^ k → bit_or a (b * 2 ^ k) ≡ a + b * 2 ^ k
bit_or-shift zero a b h = let e : a ≡ 0 = omega arith in rw e (omega (arith, zero-bit_or (b * 1)))
bit_or-shift (suc k) a b h =
    let double : b * 2 ^ suc k ≡ b * 2 ^ k * 2 =
      omega (arith, ap (λ (t : ℕ). b * t) (pow-suc 2 k)) in
    let halved : b * 2 ^ k * 2 / 2 ≡ b * 2 ^ k = omega arith in
    let small : a / 2 < 2 ^ k = omega (arith, pow-suc 2 k) in
    let low : b * 2 ^ k * 2 % 2 ≡ 0 = omega arith in
    rw double
      (ground (arith, bit_or_lowest a (b * 2 ^ k * 2), halved, low, bit_or-shift k (a / 2) b small))
