-- ===== src/Common/Misc.antt =====
-- common/misc.cpp and misc.h: numeric parameters and player names.
use native.Mathlib.Nat.{mod-eq_of_lt, pow-le-pow_right}
use sik_screenworms.Base.{
  ℕ, ◌+◌, ◌-◌, ◌*◌, ◌%◌, ◌^◌, ◌≤◌, ◌<◌, ◌≡◌, refl, ◌↔◌, arith, Bool, true, false, not, ◌&&◌, ◌||◌,
  [], ◌∷◌, Str, length, all, All, ltb, leb, if◌then◌else◌, Outcome, ok, fail, runtime_error,
  out_of_range,
}

abbrev pub max_player_name_length : ℕ
max_player_name_length = 20

abbrev pub min_player_name_char : ℕ
min_player_name_char = 33

abbrev pub max_player_name_char : ℕ
max_player_name_char = 126

unfoldable pub is_digit : ℕ → Bool
is_digit c = leb b'0' c && leb c b'9'

unfoldable pub is_non_negative_number : Str → Bool
unfolding is_digit
is_non_negative_number [] = false
is_non_negative_number (c ∷ s) = all is_digit (c ∷ s)

-- The value of decimal digits, from the left: what `strtoull` computes, without its bound.
unfoldable pub decimal_value : ℕ → Str → ℕ
decimal_value acc [] = acc
decimal_value acc (c ∷ s) = decimal_value (acc * 10 + (c - b'0')) s

-- `strtoull` sets ERANGE on a value of more than 64 bits.
unfoldable pub str_to_u64 : Str → Outcome ℕ
unfolding is_non_negative_number
str_to_u64 s =
    if not (is_non_negative_number s)
    then fail runtime_error
    else if ltb (decimal_value 0 s) (2 ^ 64)
    then ok (decimal_value 0 s)
    else fail out_of_range

-- Any exception is thrown again as a runtime_error that names the parameter.
unfoldable pub rethrow : Outcome ℕ → Outcome ℕ
rethrow (ok n) = ok n
rethrow (fail e) = fail runtime_error

unfoldable pub in_limits : ℕ → ℕ → ℕ → ℕ → Outcome ℕ
in_limits w min_value max_value num =
    let cast_num = num % 2 ^ w in
    if ltb (2 ^ w - 1) num || ltb max_value cast_num || ltb cast_num min_value
    then fail out_of_range
    else ok cast_num

-- `optionalParamValueToUint<T, minValue, maxValue>`, T of `w` bits.
unfoldable pub optional_param_value_to_uint : ℕ → ℕ → ℕ → Str → Outcome ℕ
unfolding rethrow in_limits
optional_param_value_to_uint w min_value max_value s = elim (str_to_u64 s) [
  | ok num ↦ rethrow (in_limits w min_value max_value num)
  | fail e ↦ fail runtime_error
]

is_name_char : ℕ → Bool
is_name_char c = not (ltb c min_player_name_char || ltb max_player_name_char c)

unfoldable pub is_valid_player_name : Str → Bool
unfolding is_name_char
is_valid_player_name s = if ltb max_player_name_length (length s) then false else all is_name_char s

abbrev pub IsNameChar : ℕ → Type 0
IsNameChar c = (33 ≤ c) × (c ≤ 126)

-- A name as the protocol has it: at most 20 printable characters, the space left out.
pub record IsPlayerName (s : Str) : Type 0 where
  pub fits : length s ≤ 20
  pub printable : All IsNameChar s

chars_sound : (s : Str) → all is_name_char s ≡ true → All IsNameChar s
unfolding is_name_char
chars_sound [] h = tt
chars_sound (c ∷ s) h = ground (arith, chars_sound s)

chars_complete : (s : Str) → All IsNameChar s → all is_name_char s ≡ true
unfolding is_name_char
chars_complete [] h = refl
chars_complete (c ∷ s) h = ground (arith, chars_complete s)

-- `isValidPlayerName` decides the protocol's definition of a name.
pub is_valid_player_name_iff : (s : Str) → (is_valid_player_name s ≡ true) ↔ IsPlayerName s
unfolding is_valid_player_name
is_valid_player_name_iff s = (
  λ h. record { fits = ground arith; printable = ground (arith, chars_sound s) },
  λ p. ground (arith, chars_complete s p.printable),
)

module _ (w min_value max_value : ℕ) (fits : max_value < 2 ^ w) where
  -- The cast keeps every number that passes the first test.
  in_limits_ok :
      (num n : ℕ)
      → in_limits w min_value max_value num ≡ ok n
      → (n ≡ num) × (min_value ≤ n) × (n ≤ max_value)
  unfolding in_limits
  in_limits_ok num n h = ground (arith, mod-eq_of_lt {n = num} {m = 2 ^ w})

  in_limits_complete :
      (num : ℕ) → min_value ≤ num → num ≤ max_value → in_limits w min_value max_value num ≡ ok num
  unfolding in_limits
  in_limits_complete num hl hu = ground (arith, mod-eq_of_lt {n = num} {m = 2 ^ w})

  -- For a type of at most 64 bits in which the upper limit fits: a text is accepted with a result
  -- exactly when it consists of decimal digits, at least one, and the result is their value and lies
  -- within the limits.
  pub optional_param_iff :
      (s : Str) (n : ℕ)
      → w ≤ 64
      → (optional_param_value_to_uint w min_value max_value s ≡ ok n) ↔ (
          (is_non_negative_number s ≡ true)
          × (n ≡ decimal_value 0 s)
          × (min_value ≤ n)
          × (n ≤ max_value))
  unfolding optional_param_value_to_uint str_to_u64
  optional_param_iff s n hw = (
    λ h. ground (arith, in_limits_ok (decimal_value 0 s) n),
    λ p.
        ground (
          arith,
          pow-le-pow_right {n = 2} (omega arith) hw,
          in_limits_complete (decimal_value 0 s),
        ),
  )
