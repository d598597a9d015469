-- ===== src/Base/Maps.antt =====
-- `std::map` with string keys: the entries in the order of their keys.
use Prim.Native.Nat.{◌+◌, ◌≤◌}
use mathlib.Core.Path.{◌≡◌, refl}
use mathlib.Core.Logic.{inl, inr}
use mathlib.Core.Bool.{Bool, true, false}
use mathlib.Core.Option.{Option, none, some}
use mathlib.Core.List.{List, [], ◌∷◌, map}
use native.Mathlib.Omega.{arith}
use sik_screenworms.Base.Tests.{if◌then◌else◌, Bool-cases}
use sik_screenworms.Base.Lists.{length}
use sik_screenworms.Base.Strings.{Str, ◌==s◌, str_lt, ==s_iff}

module _ {ℓ} where
  abbrev pub Map : Type ℓ → Type ℓ
  Map V = List (Str × V)

module _ {ℓ} {V : Type ℓ} where
  unfoldable pub find : Str → List (Str × V) → Option V
  find k [] = none
  find k ((j, v) ∷ m) = if j ==s k then some v else find k m

  unfoldable pub contains : Str → List (Str × V) → Bool
  contains k [] = false
  contains k ((j, v) ∷ m) = if j ==s k then true else contains k m

  -- A new entry goes before the first greater key.
  unfoldable pub place : Str → V → List (Str × V) → List (Str × V)
  place k v [] = (k, v) ∷ []
  place k v ((j, w) ∷ m) = if str_lt k j then (k, v) ∷ (j, w) ∷ m else (j, w) ∷ place k v m

  -- `insert` keeps an entry that is there.
  unfoldable pub insert : Str → V → List (Str × V) → List (Str × V)
  insert k v m = if contains k m then m else place k v m

  unfoldable pub erase : Str → List (Str × V) → List (Str × V)
  erase k [] = []
  erase k ((j, w) ∷ m) = if j ==s k then erase k m else (j, w) ∷ erase k m

  -- A write through a reference to the entry's value.
  unfoldable pub assign : Str → V → List (Str × V) → List (Str × V)
  assign k v [] = []
  assign k v ((j, w) ∷ m) = if j ==s k then (j, v) ∷ m else (j, w) ∷ assign k v m

  abbrev pub keys : List (Str × V) → List Str
  keys = map λ e. e.0

  -- The same change to every value: `for (auto &e : m) …`.
  unfoldable pub map_values : (V → V) → List (Str × V) → List (Str × V)
  map_values f [] = []
  map_values f ((j, w) ∷ m) = (j, f w) ∷ map_values f m

  pub find-place :
      (k j : Str) (v : V) (m : List (Str × V))
      → contains k m ≡ false
      → find j (place k v m) ≡ (if k ==s j then some v else find j m)
  unfolding find place contains
  find-place k j v [] h = refl
  find-place k j v ((i, w) ∷ m) h =
      ground (arith, ==s_iff k j, ==s_iff i k, ==s_iff i j, find-place k j v m)

  pub contains-find :
      (k : Str) (m : List (Str × V)) (v : V) → find k m ≡ some v → contains k m ≡ true
  unfolding find contains
  contains-find k [] v h = cc
  contains-find k ((j, w) ∷ m) v h = ground (arith, contains-find k m v)

  pub contains-find-none : (k : Str) (m : List (Str × V)) → find k m ≡ none → contains k m ≡ false
  unfolding find contains
  contains-find-none k [] h = refl
  contains-find-none k ((j, w) ∷ m) h = ground (arith, contains-find-none k m)

  pub find_of_contains :
      (k : Str) (m : List (Str × V)) → contains k m ≡ true → (v : V) × (find k m ≡ some v)
  unfolding find contains
  find_of_contains k [] h = cc
  find_of_contains k ((j, w) ∷ m) h = elim (Bool-cases (j ==s k)) [
    | inl e ↦ (w, rw e)
    | inr e ↦ rw e (find_of_contains k m (ground arith))
  ]

  pub contains-erase :
      (k j : Str) (m : List (Str × V))
      → contains j (erase k m) ≡ (if k ==s j then false else contains j m)
  unfolding contains erase
  contains-erase k j [] = ground arith
  contains-erase k j ((i, w) ∷ m) =
      ground (arith, ==s_iff k j, ==s_iff i k, ==s_iff i j, contains-erase k j m)

  pub find-erase :
      (k j : Str) (m : List (Str × V)) → find j (erase k m) ≡ (if k ==s j then none else find j m)
  unfolding find erase
  find-erase k j [] = ground arith
  find-erase k j ((i, w) ∷ m) =
      ground (arith, ==s_iff k j, ==s_iff i k, ==s_iff i j, find-erase k j m)

  pub contains-place :
      (k j : Str) (v : V) (m : List (Str × V))
      → contains j (place k v m) ≡ (if k ==s j then true else contains j m)
  unfolding contains place
  contains-place k j v [] = refl
  contains-place k j v ((i, w) ∷ m) =
      ground (arith, ==s_iff k j, ==s_iff i j, contains-place k j v m)

  pub contains-insert :
      (k j : Str) (v : V) (m : List (Str × V))
      → contains j (insert k v m) ≡ (if k ==s j then true else contains j m)
  unfolding insert
  contains-insert k j v m = ground (arith, ==s_iff k j, contains-place k j v m)

  pub contains-assign :
      (k j : Str) (v : V) (m : List (Str × V)) → contains j (assign k v m) ≡ contains j m
  unfolding contains assign
  contains-assign k j v [] = refl
  contains-assign k j v ((i, w) ∷ m) = ground (arith, ==s_iff i k, contains-assign k j v m)

  pub find-assign :
      (k j : Str) (v : V) (m : List (Str × V))
      → find j (assign k v m)
        ≡ (if k ==s j then (if contains k m then some v else none) else find j m)
  unfolding find assign contains
  find-assign k j v [] = ground arith
  find-assign k j v ((i, w) ∷ m) =
      ground (arith, ==s_iff k j, ==s_iff i k, ==s_iff i j, find-assign k j v m)

  pub contains-map_values :
      (f : V → V) (k : Str) (m : List (Str × V)) → contains k (map_values f m) ≡ contains k m
  unfolding contains map_values
  contains-map_values f k [] = refl
  contains-map_values f k ((i, w) ∷ m) = ground (arith, contains-map_values f k m)

  pub find-map_values :
      (f : V → V) (k : Str) (m : List (Str × V)) (v : V)
      → find k m ≡ some v
      → find k (map_values f m) ≡ some (f v)
  unfolding find map_values
  find-map_values f k [] v h = cc
  find-map_values f k ((i, w) ∷ m) v h = ground (arith, find-map_values f k m v)

  pub length-assign : (k : Str) (v : V) (m : List (Str × V)) → length (assign k v m) ≡ length m
  unfolding assign
  length-assign k v [] = refl
  length-assign k v ((i, w) ∷ m) = ground (arith, length-assign k v m)

  pub length-place : (k : Str) (v : V) (m : List (Str × V)) → length (place k v m) ≡ length m + 1
  unfolding place
  length-place k v [] = refl
  length-place k v ((i, w) ∷ m) = ground (arith, length-place k v m)

  pub length-insert-le :
      (k : Str) (v : V) (m : List (Str × V)) → length (insert k v m) ≤ length m + 1
  unfolding insert
  length-insert-le k v m = ground (arith, length-place k v m)
