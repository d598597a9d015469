-- ===== src/Base/Numbered.antt =====
-- `std::unordered_map` and `std::unordered_set` whose keys are numbers.
use Prim.Native.Nat.{ℕ}
use mathlib.Core.Path.{◌≡◌, refl}
use mathlib.Core.Logic.{inl, inr}
use mathlib.Core.Bool.{Bool, true, false}
use mathlib.Core.Option.{Option, none, some}
use mathlib.Core.List.{List, [], ◌∷◌}
use native.Mathlib.Omega.{arith}
use sik_screenworms.Base.Tests.{◌==◌, if◌then◌else◌, Bool-cases}

module _ {ℓ} {V : Type ℓ} where
  unfoldable pub find_at : ℕ → List (ℕ × V) → Option V
  find_at k [] = none
  find_at k ((j, v) ∷ m) = if j == k then some v else find_at k m

  unfoldable pub contains_at : ℕ → List (ℕ × V) → Bool
  contains_at k [] = false
  contains_at k ((j, v) ∷ m) = if j == k then true else contains_at k m

  -- `insert` keeps an entry that is there.
  unfoldable pub insert_at : ℕ → V → List (ℕ × V) → List (ℕ × V)
  insert_at k v m = if contains_at k m then m else (k, v) ∷ m

  pub contains_at-find_at :
      (k : ℕ) (m : List (ℕ × V)) (v : V) → find_at k m ≡ some v → contains_at k m ≡ true
  unfolding find_at contains_at
  contains_at-find_at k [] v h = cc
  contains_at-find_at k ((j, w) ∷ m) v h = ground (arith, contains_at-find_at k m v)

  pub find_at_of_contains :
      (k : ℕ) (m : List (ℕ × V)) → contains_at k m ≡ true → (v : V) × (find_at k m ≡ some v)
  unfolding find_at contains_at
  find_at_of_contains k [] h = cc
  find_at_of_contains k ((j, w) ∷ m) h = elim (Bool-cases (j == k)) [
    | inl same ↦ (w, rw same refl)
    | inr differ ↦ rw differ (find_at_of_contains k m (rw differ at h))
  ]

  pub contains_at-insert_at :
      (k j : ℕ) (v : V) (m : List (ℕ × V))
      → contains_at j (insert_at k v m) ≡ (if k == j then true else contains_at j m)
  unfolding contains_at insert_at
  contains_at-insert_at k j v m = ground arith

  -- An entry that is there stays.
  pub find_at-insert_at_old :
      (k j : ℕ) (v w : V) (m : List (ℕ × V))
      → find_at j m ≡ some w
      → find_at j (insert_at k v m) ≡ some w
  unfolding find_at insert_at
  find_at-insert_at_old k j v w m h = ground (arith, contains_at-find_at j m w)

unfoldable pub is_in : ℕ → List ℕ → Bool
is_in k [] = false
is_in k (j ∷ s) = if j == k then true else is_in k s
