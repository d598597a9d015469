-- ===== src/Common/CrcReference.antt =====
-- The table of common/crc32.cpp against the definition of the checksum, one binary digit at a time.
use Prim.Native.Nat.{bit_and, bit_xor}
use sik_screenworms.Base.{
  ℕ, zero, suc, ◌+◌, ◌/◌, ◌%◌, ◌^◌, ◌≤◌, ◌<◌, ◌≡◌, refl, sym, ap, ◌∙◌, arith, List, [], ◌∷◌, ◌==◌,
  if◌then◌else◌, get_or, All,
}
use sik_screenworms.Common.Bits.{bit_xor-lt, bit_and-ones, low_digits, ones}
use sik_screenworms.Common.XorLaws.{
  xor_half, xor_low, xor_comm, xor_assoc, xor_zero, xor_self, shl, xor_shl,
}
use sik_screenworms.Common.Bytes.{IsByte}
use sik_screenworms.Common.Crc32.{
  polynomial, shift_bit, remainder, table_from, generate_crc2_table, crc_step, crc_loop, crc32,
}

-- Each byte enters at the low end, and eight digits are shifted out.
bitwise_loop : ℕ → List ℕ → ℕ
bitwise_loop c [] = c
bitwise_loop c (b ∷ p) = bitwise_loop (remainder 8 (bit_xor c b)) p

-- The definition of the checksum.
pub bitwise_crc32 : List ℕ → ℕ
bitwise_crc32 p = bit_xor (bitwise_loop 0xFFFF_FFFF p) 0xFFFF_FFFF

-- What a digit that is shifted out leaves.
feedback : ℕ → ℕ
feedback r = if r % 2 == 1 then polynomial else 0

shift_bit_lem : (r : ℕ) → shift_bit r ≡ bit_xor (r / 2) (feedback r)
unfolding shift_bit feedback low_digits ones
shift_bit_lem r = ground (arith, bit_and-ones 1 r, xor_zero (r / 2))

feedback-bit_xor : (a b : ℕ) → feedback (bit_xor a b) ≡ bit_xor (feedback a) (feedback b)
unfolding feedback
feedback-bit_xor a b =
    ground (arith, xor_low a b, xor_zero polynomial, xor_comm 0 polynomial, xor_self polynomial)

-- Four words, two by two.
swap : (a b c d : ℕ) → bit_xor (bit_xor a b) (bit_xor c d) ≡ bit_xor (bit_xor a c) (bit_xor b d)
swap a b c d =
    xor_assoc a b (bit_xor c d)
    ∙ ap (bit_xor a)
        (sym (xor_assoc b c d) ∙ ap (λ x. bit_xor x d) (xor_comm b c) ∙ xor_assoc c b d)
    ∙ sym (xor_assoc a c (bit_xor b d))

shift_bit-bit_xor : (a b : ℕ) → shift_bit (bit_xor a b) ≡ bit_xor (shift_bit a) (shift_bit b)
shift_bit-bit_xor a b =
    rw (shift_bit_lem, shift_bit_lem a, shift_bit_lem b, xor_half, feedback-bit_xor)
      (swap (a / 2) (b / 2) (feedback a) (feedback b))

remainder-bit_xor :
    (n a b : ℕ) → remainder n (bit_xor a b) ≡ bit_xor (remainder n a) (remainder n b)
unfolding remainder
remainder-bit_xor zero a b = refl
remainder-bit_xor (suc n) a b =
    ap (remainder n) (shift_bit-bit_xor a b) ∙ remainder-bit_xor n (shift_bit a) (shift_bit b)

remainder-shl : (n x : ℕ) → remainder n (shl n x) ≡ x
unfolding remainder shl shift_bit low_digits ones
remainder-shl zero x = refl
remainder-shl (suc n) x =
    ap (remainder n) (ground (arith, bit_and-ones 1 (shl (suc n) x))) ∙ remainder-shl n x

-- The digits above the lowest eight are only shifted.
remainder_split : (r : ℕ) → remainder 8 r ≡ bit_xor (r / 256) (remainder 8 (r % 256))
unfolding shl
remainder_split r =
    ap (remainder 8) (omega arith ∙ sym (xor_shl 8 (r / 256) (r % 256) (omega arith)))
    ∙ remainder-bit_xor 8 (shl 8 (r / 256)) (r % 256)
    ∙ ap (λ x. bit_xor x (remainder 8 (r % 256))) (remainder-shl 8 (r / 256))

feedback-lt : (r : ℕ) → feedback r < 2 ^ 32
unfolding feedback
feedback-lt r = ground arith

shift_bit-lt : (r : ℕ) → r < 2 ^ 32 → shift_bit r < 2 ^ 32
shift_bit-lt r h =
    rw shift_bit_lem (bit_xor-lt 32 (r / 2) (feedback r) (omega arith) (feedback-lt r))

remainder-lt : (n r : ℕ) → r < 2 ^ 32 → remainder n r < 2 ^ 32
unfolding remainder
remainder-lt zero r h = h
remainder-lt (suc n) r h = remainder-lt n (shift_bit r) (shift_bit-lt r h)

get_or-table_from :
    (n b i : ℕ) → i < n → b + n ≤ 256 → get_or (table_from n b) i 0 ≡ remainder 8 (b + i)
unfolding table_from
get_or-table_from zero b i h hb = absurd (omega arith)
get_or-table_from (suc n) b zero h hb =
    let same : b ≡ b + 0 = omega arith in
    omega (arith, remainder-lt 8 b (omega arith)) ∙ ap (remainder 8) same
get_or-table_from (suc n) b (suc i) h hb =
    get_or-table_from n (b + 1) i (omega arith) (omega arith) ∙ ap (remainder 8) (omega arith)

-- A byte does not reach the digits above the lowest eight.
xor_byte_high : (c b : ℕ) → b < 256 → bit_xor c b / 256 ≡ c / 256
unfolding shl
xor_byte_high c b h =
    let low : bit_xor (c % 256) b < 256 = bit_xor-lt 8 (c % 256) b (omega arith) h in
    let split : bit_xor (shl 8 (c / 256)) (c % 256) ≡ c =
      xor_shl 8 (c / 256) (c % 256) (omega arith) ∙ omega arith in
    let moved : bit_xor c b ≡ bit_xor (shl 8 (c / 256)) (bit_xor (c % 256) b) =
      ap (λ x. bit_xor x b) (sym split) ∙ xor_assoc (shl 8 (c / 256)) (c % 256) b in
    omega (arith, moved, xor_shl 8 (c / 256) (bit_xor (c % 256) b) low)

-- A byte in one step.
crc_step_lem : (c b : ℕ) → b < 256 → crc_step c b ≡ remainder 8 (bit_xor c b)
unfolding crc_step generate_crc2_table low_digits ones
crc_step_lem c b h =
    let word = bit_xor c b in
    let index : bit_and word 0xFF ≡ word % 256 = omega (arith, bit_and-ones 8 word) in
    let entry : get_or (table_from 256 0) (word % 256) 0 ≡ remainder 8 (word % 256) =
      get_or-table_from 256 0 (word % 256) (omega arith) (omega arith)
      ∙ ap (remainder 8) (omega arith) in
    ap (λ i. bit_xor (c / 256) (get_or (table_from 256 0) i 0)) index
    ∙ ap (bit_xor (c / 256)) entry
    ∙ ap (λ x. bit_xor x (remainder 8 (word % 256))) (sym (xor_byte_high c b h))
    ∙ sym (remainder_split word)

crc_loop_lem : (c : ℕ) (p : List ℕ) → All IsByte p → crc_loop c p ≡ bitwise_loop c p
unfolding crc_loop bitwise_loop
crc_loop_lem c [] h = refl
crc_loop_lem c (b ∷ p) (hb, hp) =
    ap (λ x. crc_loop x p) (crc_step_lem c b hb) ∙ crc_loop_lem (remainder 8 (bit_xor c b)) p hp

-- For bytes, the checksum that is read from the table is the one that is defined digit by digit: each
-- byte is added to the low end of the remainder, and its eight digits are divided by the polynomial
-- one after the other.
pub crc32-bitwise_crc32 : (p : List ℕ) → All IsByte p → crc32 p ≡ bitwise_crc32 p
unfolding crc32 bitwise_crc32
crc32-bitwise_crc32 p h = ap (λ x. bit_xor x 0xFFFF_FFFF) (crc_loop_lem 0xFFFF_FFFF p h)
