-- ===== src/Base/Assigning.antt =====
-- `insert_or_assign` on `std::unordered_map`.
use mathlib.Core.Path.{◌≡◌}
use mathlib.Core.Bool.{true}
use mathlib.Core.Option.{some}
use mathlib.Core.List.{List}
use native.Mathlib.Omega.{arith}
use sik_screenworms.Base.Tests.{if◌then◌else◌}
use sik_screenworms.Base.Strings.{Str, ◌==s◌, ==s_iff}
use sik_screenworms.Base.Maps.{
  find, contains, insert, assign, contains-insert, contains-assign, find-assign, find-place,
}

module _ {V : Type 0} where
  unfoldable pub insert_or_assign : Str → V → List (Str × V) → List (Str × V)
  insert_or_assign k v m = if contains k m then assign k v m else insert k v m

  pub contains-insert_or_assign :
      (k j : Str) (v : V) (m : List (Str × V))
      → contains j (insert_or_assign k v m) ≡ (if k ==s j then true else contains j m)
  unfolding insert_or_assign
  contains-insert_or_assign k j v m =
      ground (arith, contains-insert k j v m, contains-assign k j v m, ==s_iff k j)

  pub find-insert_or_assign :
      (k j : Str) (v : V) (m : List (Str × V))
      → find j (insert_or_assign k v m) ≡ (if k ==s j then some v else find j m)
  unfolding insert_or_assign insert
  find-insert_or_assign k j v m =
      ground (arith, find-assign k j v m, find-place k j v m, ==s_iff k j)
