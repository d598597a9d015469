-- ===== src/Base/Strings.antt =====
-- `std::string` as a list of bytes: equality and the order of `operator<`.
use Prim.Native.Nat.{ℕ}
use Prim.Native.Char.{code}
use Prim.Native.String.{String}
use mathlib.Core.Path.{◌≡◌, refl}
use mathlib.Core.Logic.{◌↔◌}
use mathlib.Core.Bool.{Bool, true, false, ◌&&◌, ◌||◌}
use mathlib.Core.List.{List, [], ◌∷◌, ◌++◌}
use native.Mathlib.Omega.{arith}
use sik_screenworms.Base.Tests.{◌==◌, ltb, if◌then◌else◌}

abbrev pub Str : Type 0
Str = List ℕ

-- The bytes of an ASCII literal.
abbrev pub codes : String → Str
codes String.[] = []
codes (String.◌∷◌ c s) = code c ∷ codes s

infix 50 ◌==s◌
unfoldable pub ◌==s◌ : Str → Str → Bool
[] ==s [] = true
[] ==s (y ∷ ys) = false
(x ∷ xs) ==s [] = false
(x ∷ xs) ==s (y ∷ ys) = x == y && xs ==s ys

-- Lexicographic order of the bytes.
unfoldable pub str_lt : Str → Str → Bool
str_lt xs [] = false
str_lt [] (y ∷ ys) = true
str_lt (x ∷ xs) (y ∷ ys) = if x == y then str_lt xs ys else ltb x y

pub ==s_refl : (s : Str) → (s ==s s) ≡ true
unfolding ◌==s◌
==s_refl [] = refl
==s_refl (x ∷ xs) = ground (arith, ==s_refl xs)

==s→eq : (s t : Str) → (s ==s t) ≡ true → s ≡ t
unfolding ◌==s◌
==s→eq [] [] h = refl
==s→eq [] (y ∷ ys) h = cc
==s→eq (x ∷ xs) [] h = cc
==s→eq (x ∷ xs) (y ∷ ys) h = ground (arith, ==s→eq xs ys)

pub ==s_iff : (s t : Str) → ((s ==s t) ≡ true) ↔ (s ≡ t)
==s_iff s t = (==s→eq s t, λ e. rw e (==s_refl t))

unfoldable pub mem : Str → List Str → Bool
mem s [] = false
mem s (t ∷ ts) = if t ==s s then true else mem s ts

unfoldable pub erase_first : Str → List Str → List Str
erase_first s [] = []
erase_first s (t ∷ ts) = if t ==s s then ts else t ∷ erase_first s ts

-- No string stands twice in the list.
abbrev pub IsNodup : List Str → Type 0
IsNodup [] = Unit {0}
IsNodup (t ∷ ts) = (mem t ts ≡ false) × IsNodup ts

pub mem-append : (s : Str) (xs ys : List Str) → mem s (xs ++ ys) ≡ (mem s xs || mem s ys)
unfolding mem
mem-append s [] ys = refl
mem-append s (x ∷ xs) ys = ground (arith, mem-append s xs ys)

pub mem-erase_first :
    (s t : Str) (xs : List Str)
    → IsNodup xs
    → mem s (erase_first t xs) ≡ (if t ==s s then false else mem s xs)
unfolding mem erase_first
mem-erase_first s t [] h = ground arith
mem-erase_first s t (x ∷ xs) (hx, hxs) =
    ground (arith, ==s_iff x t, ==s_iff t s, ==s_iff x s, mem-erase_first s t xs hxs)

pub erase_first-IsNodup : (t : Str) (xs : List Str) → IsNodup xs → IsNodup (erase_first t xs)
unfolding mem erase_first
erase_first-IsNodup t [] h = tt
erase_first-IsNodup t (x ∷ xs) (hx, hxs) =
    ground (arith, mem-erase_first x t xs hxs, erase_first-IsNodup t xs hxs)

pub IsNodup-append_one :
    (t : Str) (xs : List Str) → mem t xs ≡ false → IsNodup xs → IsNodup (xs ++ t ∷ [])
unfolding mem
IsNodup-append_one t [] h n = (refl, tt)
IsNodup-append_one t (x ∷ xs) h (hx, hxs) =
    ground (arith, ==s_iff t x, ==s_iff x t, mem-append x xs (t ∷ []), IsNodup-append_one t xs)

-- The order is strict and total.
pub str_lt_asym : (s t : Str) → str_lt s t ≡ true → str_lt t s ≡ false
unfolding str_lt
str_lt_asym s [] h = cc
str_lt_asym [] (y ∷ ys) h = refl
str_lt_asym (x ∷ xs) (y ∷ ys) h = ground (arith, str_lt_asym xs ys)

pub str_lt_ne : (s t : Str) → str_lt s t ≡ true → (s ==s t) ≡ false
unfolding str_lt ◌==s◌
str_lt_ne s [] h = cc
str_lt_ne [] (y ∷ ys) h = refl
str_lt_ne (x ∷ xs) (y ∷ ys) h = ground (arith, str_lt_ne xs ys)

pub str_lt_trans : (r s t : Str) → str_lt r s ≡ true → str_lt s t ≡ true → str_lt r t ≡ true
unfolding str_lt
str_lt_trans r s [] h k = cc
str_lt_trans r [] (z ∷ zs) h k = cc
str_lt_trans [] (y ∷ ys) (z ∷ zs) h k = refl
str_lt_trans (x ∷ xs) (y ∷ ys) (z ∷ zs) h k = ground (arith, str_lt_trans xs ys zs)

str_lt_total : (s t : Str) → str_lt s t ≡ false → (s ==s t) ≡ false → str_lt t s ≡ true
unfolding str_lt ◌==s◌
str_lt_total [] [] h e = cc
str_lt_total (x ∷ xs) [] h e = refl
str_lt_total [] (y ∷ ys) h e = cc
str_lt_total (x ∷ xs) (y ∷ ys) h e = ground (arith, str_lt_total xs ys)

-- Each string comes before the next one.
abbrev pub IsAscending : List Str → Type 0
IsAscending [] = Unit {0}
IsAscending (x ∷ []) = Unit {0}
IsAscending (x ∷ y ∷ ys) = (str_lt x y ≡ true) × IsAscending (y ∷ ys)
