-- ===== src/Common/Runs.antt =====
-- Runs of the parameters, the names, the generator and the checksum.
use sik_screenworms.Base.{
  ◌+◌, ◌/◌, ◌==◌, ◌∙◌, ap, sym, subst, ltb, not, ◌&&◌, if◌then◌else◌, Bool, Option, some, [], ◌∷◌,
  Str, exit_failure, List, All, ℕ, ◌*◌, ◌%◌, ◌^◌, ◌≤◌, ◌≡◌, refl, ◌↔◌, arith, true, codes, ok, fail,
  runtime_error,
}
use sik_screenworms.Common.Time.{
  TimeSpec, ns_in_second, first_expiration, set_interval_timer, IsDocumented, nanoseconds,
  set_interval_timer-first_expiration,
}
use sik_screenworms.Common.Fingerprint.{
  Family, inet, inet6, SockAddr, is_free, IsPresentation, fingerprint_netuser_injective,
}
use sik_screenworms.Common.Rng.{advance, generate_next, multiplier, modulus, advance_closed}
use sik_screenworms.Common.Bytes.{IsByte}
use sik_screenworms.Common.Crc32.{crc32}
use sik_screenworms.Common.CrcReference.{bitwise_crc32, crc32-bitwise_crc32}
use sik_screenworms.Common.Misc.{
  decimal_value, is_non_negative_number, str_to_u64, optional_param_value_to_uint,
  optional_param_iff,
}

advance_closed_example :
    ((generate_next (advance 0 777)).0 ≡ 777)
    × ((generate_next (advance 3 777)).0 ≡ 777 * multiplier ^ 3 % modulus)
advance_closed_example = advance_closed 2 777 (omega arith)

-- The seed 4294967291 is accepted, and 0 follows it for ever.
seed_of_zeros : (generate_next 4294967291).1 ≡ 0
unfolding generate_next
seed_of_zeros = refl

-- The turning speed.
optional_param_example :
    (optional_param_value_to_uint 32 1 90 (codes "007") ≡ ok 7)
    ↔ (is_non_negative_number (codes "007") ≡ true)
      × (7 ≡ decimal_value 0 (codes "007"))
      × (1 ≤ 7)
      × (7 ≤ 90)
optional_param_example = optional_param_iff 32 1 90 (omega arith) (codes "007") 7 (omega arith)

too_fast : optional_param_value_to_uint 32 1 90 (codes "91") ≡ fail runtime_error
unfolding optional_param_value_to_uint str_to_u64 decimal_value
too_fast = refl

abbrev text : List ℕ
text = codes "abc"

text-bytes : All IsByte text
text-bytes = ground arith

crc32_example : crc32 text ≡ bitwise_crc32 text
crc32_example = crc32-bitwise_crc32 text text-bytes

-- A clock in the middle of a second, and rounds of 20 milliseconds.
abbrev settime : TimeSpec → TimeSpec → Bool
settime interval first = ltb interval.tv_nsec ns_in_second && ltb first.tv_nsec ns_in_second

settime-IsDocumented : IsDocumented settime
unfolding IsDocumented
settime-IsDocumented interval first = refl

abbrev now : TimeSpec
now = record { tv_sec = 5; tv_nsec = 990000000 }

set_interval_timer_example :
    (set_interval_timer settime (some now) 20000000 ≡ (
      if ltb 20000000 ns_in_second && not (990000000 + 20000000 == ns_in_second)
      then ok (record { tv_sec = 0; tv_nsec = 20000000 }, first_expiration now 20000000)
      else fail exit_failure))
    × (nanoseconds (first_expiration now 20000000) ≡ nanoseconds now + 20000000)
set_interval_timer_example =
    set_interval_timer-first_expiration settime now 20000000 settime-IsDocumented (omega arith)
      (omega arith)

-- One round in a second is within the limits of the server's parameter, and no timer can be set.
one_round_per_second : set_interval_timer settime (some now) (ns_in_second / 1) ≡ fail exit_failure
unfolding set_interval_timer first_expiration
one_round_per_second = refl

-- A text of an address: a letter for the family, and one for each byte.
abbrev letters : List ℕ → Str
letters [] = []
letters (b ∷ bytes) = (256 + b) ∷ letters bytes

abbrev presentation : Family → List ℕ → Option Str
presentation inet a = some (52 ∷ letters a)
presentation inet6 a = some (54 ∷ letters a)

some-injective : {s t : Str} → ◌≡◌ {A = Option Str} (some s) (some t) → s ≡ t
some-injective h = cc

families : {s t : Str} → ◌≡◌ {A = Option Str} (some (52 ∷ s)) (some (54 ∷ t)) → ⊥
families {s = s} {t = t} h = let first : ◌≡◌ {A = ℕ} 52 54 = cc h in omega (arith, first)

families_swapped : {s t : Str} → ◌≡◌ {A = Option Str} (some (54 ∷ s)) (some (52 ∷ t)) → ⊥
families_swapped {s = s} {t = t} h = let first : ◌≡◌ {A = ℕ} 54 52 = cc h in omega (arith, first)

letters_free : (a : List ℕ) → is_free (letters a) ≡ true
letters_free [] = refl
letters_free (b ∷ bytes) = ground (arith, letters_free bytes)

letters_injective : (a b : List ℕ) → letters a ≡ letters b → a ≡ b
letters_injective [] [] h = refl
letters_injective [] (y ∷ b) h = cc
letters_injective (x ∷ a) [] h = cc
letters_injective (x ∷ a) (y ∷ b) h =
    let rest : letters a ≡ letters b = cc h in
    let first : 256 + x ≡ 256 + y = cc h in
    let same : x ≡ y = omega (arith, first) in
    ap (◌∷◌ x) (letters_injective a b rest) ∙ ap (λ c. c ∷ b) same

free : (f : Family) (a : List ℕ) (s : Str) → presentation f a ≡ some s → is_free s ≡ true
free inet a s h = subst (λ t. is_free t ≡ true) (some-injective h) (letters_free a)
free inet6 a s h = subst (λ t. is_free t ≡ true) (some-injective h) (letters_free a)

determined :
    (f g : Family) (a b : List ℕ) (s : Str)
    → presentation f a ≡ some s
    → presentation g b ≡ some s
    → (f ≡ g) × (a ≡ b)
determined inet inet a b s h k = (refl, letters_injective a b (cc (some-injective (h ∙ sym k))))
determined inet6 inet6 a b s h k = (refl, letters_injective a b (cc (some-injective (h ∙ sym k))))
determined inet inet6 a b s h k = absurd (families (h ∙ sym k))
determined inet6 inet a b s h k = absurd (families_swapped (h ∙ sym k))

presentation-IsPresentation : IsPresentation presentation
unfolding IsPresentation
presentation-IsPresentation = (free, determined)

abbrev sender : SockAddr
sender = record { family = inet; in_addr = 127 ∷ 0 ∷ 0 ∷ 1 ∷ []; port_high = 19; port_low = 136 }

abbrev again : SockAddr
again = record { family = inet; in_addr = 127 ∷ 0 ∷ 0 ∷ 1 ∷ []; port_high = 19; port_low = 136 }

fingerprint_example :
    (sender.family ≡ again.family)
    × (sender.in_addr ≡ again.in_addr)
    × (sender.port_high ≡ again.port_high)
    × (sender.port_low ≡ again.port_low)
fingerprint_example =
    fingerprint_netuser_injective presentation sender again (52 ∷ letters sender.in_addr)
      (52 ∷ letters again.in_addr) presentation-IsPresentation (omega arith) (omega arith)
      (omega arith) (omega arith) refl refl refl
