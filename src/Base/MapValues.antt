-- ===== src/Base/MapValues.antt =====
-- Laws of maps: what holds of every value, and the keys.
use mathlib.Core.Path.{◌≡◌, refl, ap, subst}
use mathlib.Core.Logic.{inl, inr}
use mathlib.Core.Bool.{Bool, true, false}
use mathlib.Core.Option.{some}
use mathlib.Core.List.{List, [], ◌∷◌}
use native.Mathlib.Omega.{arith}
use sik_screenworms.Base.Tests.{Bool-cases}
use sik_screenworms.Base.Lists.{any}
use sik_screenworms.Base.Strings.{Str, ◌==s◌, str_lt, ==s_iff, ==s_refl, mem, IsNodup}
use sik_screenworms.Base.Maps.{
  find, contains, place, insert, erase, assign, keys, map_values, contains-find, contains-place,
  contains-erase,
}

-- Every value of the map is in `P`.
module _ {ℓ κ} {V : Type ℓ} (P : V → Type κ) where
  abbrev pub AllValues : List (Str × V) → Type κ
  AllValues [] = Unit {κ}
  AllValues ((j, w) ∷ m) = P w × AllValues m

module _ {ℓ κ} {V : Type ℓ} (P : V → Type κ) where
  pub AllValues-erase : (k : Str) (m : List (Str × V)) → AllValues P m → AllValues P (erase k m)
  unfolding erase
  AllValues-erase k [] h = tt
  AllValues-erase k ((j, w) ∷ m) (hw, hm) = elim (Bool-cases (j ==s k)) [
    | inl e ↦ rw e (AllValues-erase k m hm)
    | inr e ↦ rw e (hw, AllValues-erase k m hm)
  ]

  pub AllValues-assign :
      (k : Str) (v : V) (m : List (Str × V)) → P v → AllValues P m → AllValues P (assign k v m)
  unfolding assign
  AllValues-assign k v [] hv h = tt
  AllValues-assign k v ((j, w) ∷ m) hv (hw, hm) = elim (Bool-cases (j ==s k)) [
    | inl e ↦ rw e (hv, hm)
    | inr e ↦ rw e (hw, AllValues-assign k v m hv hm)
  ]

  pub AllValues-place :
      (k : Str) (v : V) (m : List (Str × V)) → P v → AllValues P m → AllValues P (place k v m)
  unfolding place
  AllValues-place k v [] hv h = (hv, tt)
  AllValues-place k v ((j, w) ∷ m) hv (hw, hm) = elim (Bool-cases (str_lt k j)) [
    | inl e ↦ rw e (hv, (hw, hm))
    | inr e ↦ rw e (hw, AllValues-place k v m hv hm)
  ]

  pub AllValues-insert :
      (k : Str) (v : V) (m : List (Str × V)) → P v → AllValues P m → AllValues P (insert k v m)
  unfolding insert
  AllValues-insert k v m hv hm = elim (Bool-cases (contains k m)) [
    | inl e ↦ rw e hm
    | inr e ↦ rw e (AllValues-place k v m hv hm)
  ]

  pub AllValues-find :
      (k : Str) (v : V) (m : List (Str × V)) → find k m ≡ some v → AllValues P m → P v
  unfolding find
  AllValues-find k v [] e h = cc
  AllValues-find k v ((j, w) ∷ m) e (hw, hm) = elim (Bool-cases (j ==s k)) [
    | inl t ↦ let s : some w ≡ some v = rw t at e in subst P (cc) hw
    | inr t ↦ AllValues-find k v m (rw t at e) hm
  ]

pub AllValues-mono {ℓ κ} :
    {V : Type ℓ} (P Q : V → Type κ) (m : List (Str × V))
    → ((v : V) → P v → Q v)
    → AllValues P m
    → AllValues Q m
AllValues-mono P Q [] h a = tt
AllValues-mono P Q ((j, w) ∷ m) h (hw, hm) = (h w hw, AllValues-mono P Q m h hm)

pub AllValues-map_values {ℓ κ} :
    {V : Type ℓ} (P Q : V → Type κ) (f : V → V) (m : List (Str × V))
    → ((v : V) → P v → Q (f v))
    → AllValues P m
    → AllValues Q (map_values f m)
unfolding map_values
AllValues-map_values P Q f [] h a = tt
AllValues-map_values P Q f ((j, w) ∷ m) h (hw, hm) = (h w hw, AllValues-map_values P Q f m h hm)

-- The keys of a map differ.
module _ {ℓ} {V : Type ℓ} where
  pub mem-keys : (k : Str) (m : List (Str × V)) → mem k (keys m) ≡ contains k m
  unfolding mem contains
  mem-keys k [] = refl
  mem-keys k ((j, w) ∷ m) = ground (arith, mem-keys k m)

  pub keys-assign : (k : Str) (v : V) (m : List (Str × V)) → keys (assign k v m) ≡ keys m
  unfolding assign
  keys-assign k v [] = refl
  keys-assign k v ((j, w) ∷ m) = ground (arith, keys-assign k v m)

  pub keys-map_values : (f : V → V) (m : List (Str × V)) → keys (map_values f m) ≡ keys m
  unfolding map_values
  keys-map_values f [] = refl
  keys-map_values f ((j, w) ∷ m) = ap (◌∷◌ j) (keys-map_values f m)

  pub keys-erase-IsNodup :
      (k : Str) (m : List (Str × V)) → IsNodup (keys m) → IsNodup (keys (erase k m))
  unfolding erase
  keys-erase-IsNodup k [] h = tt
  keys-erase-IsNodup k ((j, w) ∷ m) (hj, hm) =
      ground (
        arith,
        keys-erase-IsNodup k m hm,
        mem-keys j (erase k m),
        mem-keys j m,
        contains-erase k j m,
      )

  pub keys-place-IsNodup :
      (k : Str) (v : V) (m : List (Str × V))
      → contains k m ≡ false
      → IsNodup (keys m)
      → IsNodup (keys (place k v m))
  unfolding place mem contains
  keys-place-IsNodup k v [] e h = (refl, tt)
  keys-place-IsNodup k v ((j, w) ∷ m) e (hj, hm) = ground (
    arith,
    keys-place-IsNodup k v m,
    mem-keys j (place k v m),
    mem-keys j m,
    mem-keys k m,
    contains-place k j v m,
    ==s_iff k j,
    ==s_iff j k,
  )

  pub keys-insert-IsNodup :
      (k : Str) (v : V) (m : List (Str × V)) → IsNodup (keys m) → IsNodup (keys (insert k v m))
  unfolding insert
  keys-insert-IsNodup k v m h = ground (arith, keys-place-IsNodup k v m)

  pub find_of_any :
      (p : V → Bool) (m : List (Str × V))
      → IsNodup (keys m)
      → any (λ e. p e.1) m ≡ true
      → (k : Str) × (v : V) × (find k m ≡ some v) × (p v ≡ true)
  unfolding find
  find_of_any p [] h e = cc
  find_of_any p ((j, w) ∷ m) (hj, hm) e = elim (Bool-cases (p w)) [
    | inl here ↦ (j, w, rw (==s_refl j), here)
    | inr next ↦
        let (k, v, found, ok) = find_of_any p m hm (rw next at e) in
        (k, v, ground (arith, ==s_iff j k, mem-keys j m, contains-find k m v), ok)
  ]
