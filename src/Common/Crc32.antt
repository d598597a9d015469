-- ===== src/Common/Crc32.antt =====
-- common/crc32.cpp: the table of 256 entries, and the checksum that reads it.
use Prim.Native.Nat.{bit_and, bit_xor}
use sik_screenworms.Base.{
  ℕ, zero, suc, ◌+◌, ◌/◌, ◌%◌, ◌^◌, ◌<◌, ◌≡◌, refl, arith, List, [], ◌∷◌, ◌==◌, if◌then◌else◌,
  get_or, codes,
}
use sik_screenworms.Common.Bits.{bit_xor-lt}

abbrev pub polynomial : ℕ
polynomial = 0xEDB88320

-- One round of the inner loop.
unfoldable pub shift_bit : ℕ → ℕ
shift_bit r = if bit_and r 1 == 1 then bit_xor (r / 2) polynomial else r / 2

-- `for (bit = 8; bit > 0; --bit)`
unfoldable pub remainder : ℕ → ℕ → ℕ
remainder zero r = r
remainder (suc bit) r = remainder bit (shift_bit r)

-- The entries from `b` on, for the `n` rounds of the outer loop that are left.
unfoldable pub table_from : ℕ → ℕ → List ℕ
table_from zero b = []
table_from (suc n) b = (remainder 8 b % 2 ^ 32) ∷ table_from n (b + 1)

-- `do … while (0 != ++b)` runs for each value of the byte `b`.
unfoldable pub generate_crc2_table : List ℕ
unfolding table_from remainder shift_bit
generate_crc2_table = table_from 256 0

-- `crc32Value = (crc32Value >> 8) ^ crc2_table[(crc32Value ^ b) & 0xFF]`
unfoldable pub crc_step : ℕ → ℕ → ℕ
crc_step c b = bit_xor (c / 256) (get_or generate_crc2_table (bit_and (bit_xor c b) 0xFF) 0)

unfoldable pub crc_loop : ℕ → List ℕ → ℕ
crc_loop c [] = c
crc_loop c (b ∷ p) = crc_loop (crc_step c b) p

-- The checksum of the `len` bytes of `p`.
unfoldable pub crc32 : List ℕ → ℕ
unfolding crc_loop crc_step generate_crc2_table
crc32 p = bit_xor (crc_loop 0xFFFF_FFFF p) 0xFFFF_FFFF

table_from-lt : (n b i : ℕ) → get_or (table_from n b) i 0 < 2 ^ 32
unfolding table_from
table_from-lt zero b i = omega arith
table_from-lt (suc n) b zero = omega arith
table_from-lt (suc n) b (suc i) = table_from-lt n (b + 1) i

table-lt : (i : ℕ) → get_or generate_crc2_table i 0 < 2 ^ 32
unfolding generate_crc2_table
table-lt i = table_from-lt 256 0 i

crc_step-lt : (c b : ℕ) → c < 2 ^ 32 → crc_step c b < 2 ^ 32
unfolding crc_step
crc_step-lt c b h = bit_xor-lt 32 (c / 256) _ (omega arith) (table-lt (bit_and (bit_xor c b) 0xFF))

crc_loop-lt : (c : ℕ) (p : List ℕ) → c < 2 ^ 32 → crc_loop c p < 2 ^ 32
unfolding crc_loop
crc_loop-lt c [] h = h
crc_loop-lt c (b ∷ p) h = crc_loop-lt (crc_step c b) p (crc_step-lt c b h)

-- The checksum fits 32 bits.
pub crc32-lt : (p : List ℕ) → crc32 p < 2 ^ 32
unfolding crc32
crc32-lt p = bit_xor-lt 32 _ _ (crc_loop-lt 0xFFFF_FFFF p (omega arith)) (omega arith)

martinez : crc32 (codes "martinez") ≡ 3850936052
unfolding crc32
martinez = refl
