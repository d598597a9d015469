-- ===== src/Common/Rng.antt =====
-- common/rng.h: the deterministic generator of 32-bit numbers.
use native.Mathlib.Nat.{pow-suc}
use sik_screenworms.Base.{ℕ, zero, suc, ◌*◌, ◌%◌, ◌^◌, ◌<◌, ◌≡◌, refl, ◌∙◌, arith, ap}

abbrev pub multiplier : ℕ
multiplier = 279410273

abbrev pub modulus : ℕ
modulus = 4294967291

-- What is returned, and the new `v`. The product is computed in 64 bits and stored in 32.
unfoldable pub generate_next : ℕ → ℕ × ℕ
generate_next v = (v, v * multiplier % 2 ^ 64 % modulus % 2 ^ 32)

-- The state after `n` calls.
pub advance : ℕ → ℕ → ℕ
advance zero v = v
advance (suc n) v = (generate_next (advance n v)).1

next_closed : (v : ℕ) → v < 2 ^ 32 → (generate_next v).1 ≡ v * multiplier % modulus
unfolding generate_next
next_closed v h = omega arith

next-lt : (v : ℕ) → (generate_next v).1 < modulus
unfolding generate_next
next-lt v = omega arith

advance-lt : (n v : ℕ) → v < 2 ^ 32 → advance n v < 2 ^ 32
unfolding advance
advance-lt zero v h = h
advance-lt (suc n) v h = omega (arith, next-lt (advance n v))

-- One more factor under the remainder.
step_closed :
    (n seed : ℕ)
    → seed * multiplier ^ n % modulus * multiplier % modulus ≡ seed * multiplier ^ suc n % modulus
step_closed n seed = omega (arith, ap (λ (t : ℕ). seed * t) (pow-suc multiplier n))

advance-suc_closed :
    (n seed : ℕ) → seed < 2 ^ 32 → advance (suc n) seed ≡ seed * multiplier ^ suc n % modulus
unfolding advance
advance-suc_closed zero seed h = omega (arith, next_closed seed h, pow-suc multiplier 0)
advance-suc_closed (suc n) seed h =
    next_closed (advance (suc n) seed) (advance-lt (suc n) seed h)
    ∙ ap (λ (t : ℕ). t * multiplier % modulus) (advance-suc_closed n seed h)
    ∙ step_closed (suc n) seed

-- The value that call number `n + 1` returns (the calls counted from 0) is the one that the
-- protocol gives in closed form, the seed times the multiplier to the power `n + 1`, modulo
-- 4294967291; call number 0 returns the seed. The seed fits 32 bits.
pub advance_closed :
    (n seed : ℕ)
    → seed < 2 ^ 32
    → ((generate_next (advance 0 seed)).0 ≡ seed)
      × ((generate_next (advance (suc n) seed)).0 ≡ seed * multiplier ^ suc n % modulus)
unfolding advance generate_next
advance_closed n seed h = (refl, advance-suc_closed n seed h)

-- If the states after two states below the modulus are equal, the two states are equal.
next_injective :
    (v w : ℕ) → v < modulus → w < modulus → (generate_next v).1 ≡ (generate_next w).1 → v ≡ w
unfolding generate_next
next_injective v w hv hw e = omega arith
