-- ===== src/Common/Decimal.antt =====
-- How a number is written in decimal digits: `std::ostream << n` and `std::to_string`.
use native.Mathlib.Nat.{pow-suc}
use sik_screenworms.Base.{
  ℕ, zero, suc, ◌+◌, ◌-◌, ◌*◌, ◌/◌, ◌%◌, ◌^◌, ◌<◌, ◌≡◌, refl, sym, ◌∙◌, arith, Bool, true, false,
  ◌&&◌, inl, inr, [], ◌∷◌, ◌++◌, Str, all, ltb, Bool-cases, ok, lt→ltb,
}
use sik_screenworms.Common.Misc.{is_digit, is_non_negative_number, decimal_value, str_to_u64}

-- At most `fuel` digits.
decimal_digits : ℕ → ℕ → Str
decimal_digits zero n = []
decimal_digits (suc fuel) n = elim (ltb n 10) [
  | true ↦ (b'0' + n) ∷ []
  | false ↦ decimal_digits fuel (n / 10) ++ (b'0' + n % 10) ∷ []
]

-- Twenty digits are enough for 64 bits.
unfoldable pub to_decimal : ℕ → Str
unfolding decimal_digits
to_decimal n = decimal_digits 20 n

ten_pow_suc : (n : ℕ) → 10 ^ suc n ≡ 10 * 10 ^ n
ten_pow_suc n = omega (arith, pow-suc 10 n)

all-append : (p : ℕ → Bool) (xs ys : Str) → all p (xs ++ ys) ≡ (all p xs && all p ys)
all-append p [] ys = refl
all-append p (x ∷ xs) ys = ground (arith, all-append p xs ys)

decimal_value-append :
    (s : Str) (acc c : ℕ) → decimal_value acc (s ++ c ∷ []) ≡ decimal_value acc s * 10 + (c - b'0')
unfolding decimal_value
decimal_value-append [] acc c = refl
decimal_value-append (d ∷ s) acc c = decimal_value-append s (acc * 10 + (d - b'0')) c

decimal_digits_large :
    (fuel n : ℕ)
    → ltb n 10 ≡ false
    → decimal_digits (suc fuel) n ≡ decimal_digits fuel (n / 10) ++ (b'0' + n % 10) ∷ []
unfolding decimal_digits
decimal_digits_large fuel n large = rw (large, decimal_digits) refl

decimal_digits_small :
    (fuel n : ℕ) → ltb n 10 ≡ true → decimal_digits (suc fuel) n ≡ (b'0' + n) ∷ []
unfolding decimal_digits
decimal_digits_small fuel n small = rw (small, decimal_digits) refl

none_left : (n : ℕ) → n ≡ 0 → decimal_value 0 (decimal_digits 0 n) ≡ n
unfolding decimal_digits decimal_value
none_left n h = sym h

no_digits : (n : ℕ) → all is_digit (decimal_digits 0 n) ≡ true
unfolding decimal_digits
no_digits n = refl

decimal_value-decimal_digits :
    (fuel n : ℕ) → n < 10 ^ fuel → decimal_value 0 (decimal_digits fuel n) ≡ n
unfolding decimal_value
decimal_value-decimal_digits zero n h = none_left n (omega arith)
decimal_value-decimal_digits (suc fuel) n h = elim (Bool-cases (ltb n 10)) [
  | inl small ↦ rw (decimal_digits_small fuel n small) (omega arith)
  | inr large ↦ rw (decimal_digits_large fuel n large) (
      decimal_value-append (decimal_digits fuel (n / 10)) 0 (b'0' + n % 10)
      ∙ omega (arith, decimal_value-decimal_digits fuel (n / 10) (omega (arith, ten_pow_suc fuel))))
]

-- Reading a number that was written gives the number back, for numbers of 64 bits.
decimal_value-to_decimal : (n : ℕ) → n < 2 ^ 64 → decimal_value 0 (to_decimal n) ≡ n
unfolding to_decimal
decimal_value-to_decimal n h = decimal_value-decimal_digits 20 n (omega arith)

decimal_digits-is_digit : (fuel n : ℕ) → all is_digit (decimal_digits fuel n) ≡ true
unfolding is_digit
decimal_digits-is_digit zero n = no_digits n
decimal_digits-is_digit (suc fuel) n = elim (Bool-cases (ltb n 10)) [
  | inl small ↦ rw (decimal_digits_small fuel n small) (ground arith)
  | inr large ↦
      rw (decimal_digits_large fuel n large, all-append, decimal_digits-is_digit fuel (n / 10))
        (ground arith)
]

-- What is written are digits.
to_decimal-is_digit : (n : ℕ) → all is_digit (to_decimal n) ≡ true
unfolding to_decimal
to_decimal-is_digit n = decimal_digits-is_digit 20 n

-- A text that ends in a digit and holds only digits is a number.
is_number :
    (xs : Str) (c : ℕ)
    → all is_digit (xs ++ c ∷ []) ≡ true
    → is_non_negative_number (xs ++ c ∷ []) ≡ true
unfolding is_non_negative_number
is_number [] c h = h
is_number (x ∷ xs) c h = h

decimal_digits_number : (fuel n : ℕ) → is_non_negative_number (decimal_digits (suc fuel) n) ≡ true
decimal_digits_number fuel n = elim (Bool-cases (ltb n 10)) [
  | inl small ↦ rw (decimal_digits_small fuel n small) (
      is_number [] (b'0' + n)
        (rw (decimal_digits_small fuel n small) at (decimal_digits-is_digit (suc fuel) n)))
  | inr large ↦ rw (decimal_digits_large fuel n large) (
      is_number _ _
        (rw (decimal_digits_large fuel n large) at (decimal_digits-is_digit (suc fuel) n)))
]

-- `strToU64` reads back every number of 64 bits that was written in decimal digits.
pub str_to_u64-to_decimal : (n : ℕ) → n < 2 ^ 64 → str_to_u64 (to_decimal n) ≡ ok n
unfolding str_to_u64 to_decimal
str_to_u64-to_decimal n h =
    let number : is_non_negative_number (decimal_digits 20 n) ≡ true = decimal_digits_number 19 n in
    let value : decimal_value 0 (decimal_digits 20 n) ≡ n =
      decimal_value-decimal_digits 20 n (omega arith) in
    rw (number, value, lt→ltb n (2 ^ 64) h) refl
