-- ===== src/Base/Entries.antt =====
-- Predicates on the entries of a map, and sums over its values.
use Prim.Native.Nat.{ℕ, suc, ◌+◌, ◌*◌, ◌≤◌}
use mathlib.Core.Path.{◌≡◌, refl, ap, sym, subst}
use mathlib.Core.Logic.{inl, inr}
use mathlib.Core.Option.{some}
use mathlib.Core.List.{List, [], ◌∷◌}
use native.Mathlib.Omega.{arith}
use sik_screenworms.Base.Tests.{Bool-cases}
use sik_screenworms.Base.Lists.{length}
use sik_screenworms.Base.Strings.{Str, ◌==s◌, str_lt, ==s_iff}
use sik_screenworms.Base.Maps.{find, contains, place, insert, erase, assign, map_values}

-- Every entry is in `P`, the key included.
abbrev pub AllEntries {ℓ κ} : {V : Type ℓ} → (Str → V → Type κ) → List (Str × V) → Type κ
AllEntries P [] = Unit
AllEntries P ((j, w) ∷ m) = P j w × AllEntries P m

module _ {ℓ κ} {V : Type ℓ} (P : Str → V → Type κ) where
  pub AllEntries-find :
      (k : Str) (v : V) (m : List (Str × V)) → find k m ≡ some v → AllEntries P m → P k v
  unfolding find
  AllEntries-find k v [] e h = cc
  AllEntries-find k v ((j, w) ∷ m) e (hw, hm) = elim (Bool-cases (j ==s k)) [
    | inl t ↦
        let s : some w ≡ some v = rw t at e in
        subst (λ x. P x v) ((==s_iff j k).0 t) (subst (P j) (cc) hw)
    | inr t ↦ AllEntries-find k v m (rw t at e) hm
  ]

  pub AllEntries-assign :
      (k : Str) (v : V) (m : List (Str × V)) → P k v → AllEntries P m → AllEntries P (assign k v m)
  unfolding assign
  AllEntries-assign k v [] hv h = tt
  AllEntries-assign k v ((j, w) ∷ m) hv (hw, hm) = elim (Bool-cases (j ==s k)) [
    | inl e ↦ rw e (subst (λ x. P x v) (sym ((==s_iff j k).0 e)) hv, hm)
    | inr e ↦ rw e (hw, AllEntries-assign k v m hv hm)
  ]

  pub AllEntries-erase : (k : Str) (m : List (Str × V)) → AllEntries P m → AllEntries P (erase k m)
  unfolding erase
  AllEntries-erase k [] h = tt
  AllEntries-erase k ((j, w) ∷ m) (hw, hm) = elim (Bool-cases (j ==s k)) [
    | inl e ↦ rw e (AllEntries-erase k m hm)
    | inr e ↦ rw e (hw, AllEntries-erase k m hm)
  ]

  pub AllEntries-place :
      (k : Str) (v : V) (m : List (Str × V)) → P k v → AllEntries P m → AllEntries P (place k v m)
  unfolding place
  AllEntries-place k v [] hv h = (hv, tt)
  AllEntries-place k v ((j, w) ∷ m) hv (hw, hm) = elim (Bool-cases (str_lt k j)) [
    | inl e ↦ rw e (hv, (hw, hm))
    | inr e ↦ rw e (hw, AllEntries-place k v m hv hm)
  ]

  pub AllEntries-insert :
      (k : Str) (v : V) (m : List (Str × V)) → P k v → AllEntries P m → AllEntries P (insert k v m)
  unfolding insert
  AllEntries-insert k v m hv hm = elim (Bool-cases (contains k m)) [
    | inl e ↦ rw e hm
    | inr e ↦ rw e (AllEntries-place k v m hv hm)
  ]

  pub AllEntries-map_values :
      (f : V → V) (m : List (Str × V))
      → ((k : Str) (v : V) → P k v → P k (f v))
      → AllEntries P m
      → AllEntries P (map_values f m)
  unfolding map_values
  AllEntries-map_values f [] hf h = tt
  AllEntries-map_values f ((j, w) ∷ m) hf (hw, hm) = (hf j w hw, AllEntries-map_values f m hf hm)

-- A sum over the entries, when one of them changes.
unfoldable pub sum_values {ℓ} : {V : Type ℓ} → (V → ℕ) → List (Str × V) → ℕ
sum_values f [] = 0
sum_values f ((j, w) ∷ m) = f w + sum_values f m

module _ {ℓ} {V : Type ℓ} (f : V → ℕ) where
  pub sum_values-assign :
      (k : Str) (v w : V) (m : List (Str × V))
      → find k m ≡ some w
      → sum_values f (assign k v m) + f w ≡ sum_values f m + f v
  unfolding find assign sum_values
  sum_values-assign k v w [] e = cc
  sum_values-assign k v w ((j, u) ∷ m) e = elim (Bool-cases (j ==s k)) [
    | inl t ↦
        let s : some u ≡ some w = rw t at e in
        let same : u ≡ w = cc in rw t (omega (arith, ap f same))
    | inr t ↦ rw t (omega (arith, sum_values-assign k v w m (rw t at e)))
  ]

  pub sum_values-le :
      (b : ℕ) (m : List (Str × V)) → ((v : V) → f v ≤ b) → sum_values f m ≤ b * length m
  unfolding sum_values
  sum_values-le b [] h = omega arith
  sum_values-le b ((j, w) ∷ m) h = grind (arith, sum_values-le b m h, h w)

  pub le_sum_values :
      (k : Str) (w : V) (m : List (Str × V)) → find k m ≡ some w → f w ≤ sum_values f m
  unfolding find sum_values
  le_sum_values k w [] e = cc
  le_sum_values k w ((j, u) ∷ m) e = elim (Bool-cases (j ==s k)) [
    | inl t ↦
        let s : some u ≡ some w = rw t at e in let same : u ≡ w = cc in omega (arith, ap f same)
    | inr t ↦ omega (arith, le_sum_values k w m (rw t at e))
  ]

module _ {ℓ} {V : Type ℓ} where
  pub length-erase-le : (k : Str) (m : List (Str × V)) → length (erase k m) ≤ length m
  unfolding erase
  length-erase-le k [] = omega arith
  length-erase-le k ((j, w) ∷ m) = ground (arith, length-erase-le k m)

  pub length-map_values : (f : V → V) (m : List (Str × V)) → length (map_values f m) ≡ length m
  unfolding map_values
  length-map_values f [] = refl
  length-map_values f ((j, w) ∷ m) = ap suc (length-map_values f m)
