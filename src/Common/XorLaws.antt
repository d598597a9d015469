-- ===== src/Common/XorLaws.antt =====
-- `^` is a group operation on words in which every word is its own inverse, and acts on the digits
-- from a place on and below it apart.
use Prim.Native.Nat.{bit_xor}
use native.Mathlib.Nat.{two-pow-succ}
use sik_screenworms.Base.{
  ℕ, zero, suc, ◌+◌, ◌*◌, ◌/◌, ◌%◌, ◌^◌, ◌≤◌, ◌<◌, ◌≡◌, refl, sym, ap, ◌∙◌, arith,
}
use sik_screenworms.Common.Bits.{bit_xor_step}

pub xor_half : (a b : ℕ) → bit_xor a b / 2 ≡ bit_xor (a / 2) (b / 2)
xor_half a b = omega (arith, bit_xor_step a b)

pub xor_low : (a b : ℕ) → bit_xor a b % 2 ≡ (a + b) % 2
xor_low a b = omega (arith, bit_xor_step a b)

-- Two words below a bound, from their halves and lowest digits.
join : (x y : ℕ) → x / 2 ≡ y / 2 → x % 2 ≡ y % 2 → x ≡ y
join x y h l = omega arith

xor_comm_below : (k a b : ℕ) → a ≤ k → b ≤ k → bit_xor a b ≡ bit_xor b a
xor_comm_below zero a b ha hb = ap (λ x. bit_xor x b) ab ∙ ap (bit_xor b) (sym ab)
  where
    ab : a ≡ b
    ab = omega arith
xor_comm_below (suc k) a b ha hb = omega (
  arith,
  bit_xor_step a b,
  bit_xor_step b a,
  xor_comm_below k (a / 2) (b / 2) (omega arith) (omega arith),
)

pub xor_comm : (a b : ℕ) → bit_xor a b ≡ bit_xor b a
xor_comm a b = xor_comm_below (a + b) a b (omega arith) (omega arith)

xor_assoc_below :
    (k a b c : ℕ) → a ≤ k → b ≤ k → c ≤ k → bit_xor (bit_xor a b) c ≡ bit_xor a (bit_xor b c)
xor_assoc_below zero a b c ha hb hc =
    let ea : a ≡ 0 = omega arith in
    let eb : b ≡ 0 = omega arith in let ec : c ≡ 0 = omega arith in rw (ea, eb, ec) refl
xor_assoc_below (suc k) a b c ha hb hc =
    join _ _
      (rw (xor_half, xor_half, xor_half, xor_half)
        (xor_assoc_below k (a / 2) (b / 2) (c / 2) (omega arith) (omega arith) (omega arith)))
      (omega (arith, xor_low (bit_xor a b) c, xor_low a (bit_xor b c), xor_low a b, xor_low b c))

pub xor_assoc : (a b c : ℕ) → bit_xor (bit_xor a b) c ≡ bit_xor a (bit_xor b c)
xor_assoc a b c = xor_assoc_below (a + b + c) a b c (omega arith) (omega arith) (omega arith)

xor_zero_below : (k a : ℕ) → a ≤ k → bit_xor a 0 ≡ a
xor_zero_below zero a ha = let ea : a ≡ 0 = omega arith in rw ea refl
xor_zero_below (suc k) a ha =
    omega (arith, bit_xor_step a 0, xor_zero_below k (a / 2) (omega arith))

pub xor_zero : (a : ℕ) → bit_xor a 0 ≡ a
xor_zero a = xor_zero_below a a (omega arith)

xor_self_below : (k a : ℕ) → a ≤ k → bit_xor a a ≡ 0
xor_self_below zero a ha = let ea : a ≡ 0 = omega arith in rw ea refl
xor_self_below (suc k) a ha =
    omega (arith, bit_xor_step a a, xor_self_below k (a / 2) (omega arith))

pub xor_self : (a : ℕ) → bit_xor a a ≡ 0
xor_self a = xor_self_below a a (omega arith)

-- `x << n`
unfoldable pub shl : ℕ → ℕ → ℕ
shl zero x = x
shl (suc n) x = 2 * shl n x

-- `lo` lies below the place `n`.
pub xor_shl : (n hi lo : ℕ) → lo < 2 ^ n → bit_xor (shl n hi) lo ≡ shl n hi + lo
unfolding shl
xor_shl zero hi lo h = let el : lo ≡ 0 = omega arith in rw el (xor_zero hi ∙ omega arith)
xor_shl (suc n) hi lo h =
    let half : shl (suc n) hi / 2 ≡ shl n hi = omega arith in
    let below : bit_xor (shl n hi) (lo / 2) ≡ shl n hi + lo / 2 =
      xor_shl n hi (lo / 2) (omega (arith, two-pow-succ n)) in
    join _ _ (xor_half (shl (suc n) hi) lo ∙ rw half (below ∙ omega arith))
      (xor_low (shl (suc n) hi) lo)
