-- ===== src/Common/Bits.antt =====
-- `^` on words, from the lowest binary digit up.
use Prim.Native.Nat.{bit_and, bit_xor, digits, differ, min, bit_and-bitwise, bit_xor-bitwise}
use native.Mathlib.Nat.{two-pow-succ}
use sik_screenworms.Base.{ℕ, zero, suc, ◌+◌, ◌*◌, ◌/◌, ◌%◌, ◌^◌, ◌≤◌, ◌<◌, ◌≡◌, refl, sym, arith}

differ_bit : (x y : ℕ) → x < 2 → y < 2 → differ x y ≡ (x + y) % 2
differ_bit zero zero hx hy = refl
differ_bit zero (suc zero) hx hy = refl
differ_bit zero (suc (suc y)) hx hy = absurd (omega arith)
differ_bit (suc zero) zero hx hy = refl
differ_bit (suc zero) (suc zero) hx hy = refl
differ_bit (suc zero) (suc (suc y)) hx hy = absurd (omega arith)
differ_bit (suc (suc x)) y hx hy = absurd (omega arith)

differ_bits : (a b : ℕ) → differ (a % 2) (b % 2) ≡ (a + b) % 2
differ_bits a b = omega (arith, differ_bit (a % 2) (b % 2) (omega arith) (omega arith))

-- `^` by its digits, with fuel for `m` of them.
abbrev xor_digits : ℕ → ℕ → ℕ → ℕ
xor_digits m a b = digits (λ y. y) differ m a b

-- Fuel of the size of the left word is enough, up to the bound `k`.
xor_digits_lem : (k m a b : ℕ) → m ≤ k → a ≤ m → xor_digits m a b ≡ bit_xor a b
xor_digits_lem k zero zero b hm ha = omega (arith, bit_xor-bitwise 0 b)
xor_digits_lem k zero (suc a) b hm ha = absurd (omega arith)
xor_digits_lem k (suc m) zero b hm ha = omega (arith, bit_xor-bitwise 0 b)
xor_digits_lem zero (suc m) (suc a) b hm ha = absurd (omega arith)
xor_digits_lem (suc k) (suc m) (suc a) b hm ha = omega (
  arith,
  bit_xor-bitwise (suc a) b,
  xor_digits_lem k m (suc a / 2) (b / 2) (omega arith) (omega arith),
  xor_digits_lem k a (suc a / 2) (b / 2) (omega arith) (omega arith),
)

-- One equation for the lowest digit.
pub bit_xor_step : (a b : ℕ) → bit_xor a b ≡ bit_xor (a / 2) (b / 2) * 2 + (a + b) % 2
bit_xor_step zero b = simp bit_xor-bitwise (omega arith)
bit_xor_step (suc a) b = omega (
  arith,
  bit_xor-bitwise (suc a) b,
  xor_digits_lem a a (suc a / 2) (b / 2) (omega arith) (omega arith),
  differ_bits (suc a) b,
)

-- The digits of two words of `k` bits make a word of `k` bits.
pub bit_xor-lt : (k a b : ℕ) → a < 2 ^ k → b < 2 ^ k → bit_xor a b < 2 ^ k
bit_xor-lt zero zero zero ha hb = omega (arith, bit_xor-bitwise 0 0)
bit_xor-lt zero zero (suc b) ha hb = absurd (omega arith)
bit_xor-lt zero (suc a) b ha hb = absurd (omega arith)
bit_xor-lt (suc k) a b ha hb = omega (
  arith,
  two-pow-succ k,
  bit_xor_step a b,
  bit_xor-lt k (a / 2) (b / 2) (omega (arith, two-pow-succ k)) (omega (arith, two-pow-succ k)),
)

-- The lowest `k` digits, and a word of `k` ones.
unfoldable pub low_digits : ℕ → ℕ → ℕ
low_digits zero a = 0
low_digits (suc k) a = low_digits k (a / 2) * 2 + a % 2

unfoldable pub ones : ℕ → ℕ
ones zero = 0
ones (suc k) = ones k * 2 + 1

low_digits_zero : (k : ℕ) → low_digits k 0 ≡ 0
unfolding low_digits
low_digits_zero zero = refl
low_digits_zero (suc k) = omega (arith, low_digits_zero k)

and_digits_ones : (k m a : ℕ) → a ≤ m → digits (λ y. 0) min m a (ones k) ≡ low_digits k a
unfolding low_digits ones
and_digits_ones k zero a ha = let ea : a ≡ 0 = omega arith in rw ea (sym (low_digits_zero k))
and_digits_ones k (suc m) zero ha = sym (low_digits_zero k)
and_digits_ones zero (suc m) (suc a) ha =
    omega (arith, and_digits_ones zero m (suc a / 2) (omega arith))
and_digits_ones (suc k) (suc m) (suc a) ha =
    let half : (ones k * 2 + 1) / 2 ≡ ones k = omega arith in
    rw half (omega (arith, and_digits_ones k m (suc a / 2) (omega arith)))

-- `a & 0xFF` and the like keep the lowest digits.
pub bit_and-ones : (k a : ℕ) → bit_and a (ones k) ≡ low_digits k a
bit_and-ones k a = omega (arith, bit_and-bitwise a (ones k), and_digits_ones k a a (omega arith))
