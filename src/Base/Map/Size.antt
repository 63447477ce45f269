-- ===== src/Base/Map/Size.antt =====
-- The number of entries of a map.
use Prim.Native.Nat.{◌+◌, ◌≤◌, ◌<◌}
use mathlib.Core.Path.{◌≡◌}
use mathlib.Core.List.{List, [], ◌∷◌}
use mathlib.Core.Option.{some}
use native.Mathlib.Omega.{arith}
use nxr.Base.Lists.{length}
use nxr.Base.Order.{Ord, eqb_iff}
use nxr.Base.Map
use nxr.Base.Map.{get}

module _ {ℓ κ} {K : Type ℓ} {V : Type κ} ⦃o : Ord K⦄ where
  pub length-insert : (k : K) (v : V) (m : List (K × V)) → length (Map.insert k v m) ≤ length m + 1
  unfolding Map.insert
  length-insert k v [] = omega arith
  length-insert k v ((j, w) ∷ m) = ground (arith, length-insert k v m)

  pub length-insert_present :
      (k : K) (v w : V) (m : List (K × V))
      → Map.IsSorted m
      → get k m ≡ some w
      → length (Map.insert k v m) ≡ length m
  unfolding Map.insert get
  length-insert_present k v w [] s h = cc
  length-insert_present k v w ((j, u) ∷ m) s h = ground (
    arith,
    h,
    o.cmp_eq k j,
    eqb_iff k j,
    Map.Before-get k m,
    Map.Before-trans k j m,
    s.0,
    length-insert_present k v w m s.1,
  )

  pub length-remove : (k : K) (m : List (K × V)) → length (Map.remove k m) ≤ length m
  unfolding Map.remove
  length-remove k [] = omega arith
  length-remove k ((j, w) ∷ m) = ground (arith, length-remove k m)

  pub length-remove-lt :
      (k : K) (v : V) (m : List (K × V)) → get k m ≡ some v → length (Map.remove k m) < length m
  unfolding Map.remove get
  length-remove-lt k v [] h = cc
  length-remove-lt k v ((j, w) ∷ m) h = ground (arith, h, length-remove k m, length-remove-lt k v m)
