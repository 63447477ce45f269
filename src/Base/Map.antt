-- ===== src/Base/Map.antt =====
-- `BTreeMap`: its entries in ascending order of the keys. A `HashMap` is read the same way where
-- the code does not depend on the order of its entries.
pub mod Size
use Prim.Native.Nat.{Ordering}
use mathlib.Core.Path.{◌≡◌, refl}
use mathlib.Core.Bool.{Bool, true}
use mathlib.Core.List.{List, [], ◌∷◌}
use mathlib.Core.Option.{Option, none, some}
use native.Mathlib.Omega.{arith}
use nxr.Base.Tests.{if◌then◌else◌}
use nxr.Base.Order.{Ord, eqb, eqb_iff, lt-ne, gt-ne}

module _ {ℓ κ} {K : Type ℓ} {V : Type κ} ⦃o : Ord K⦄ where
  unfoldable pub get : K → List (K × V) → Option V
  get k [] = none
  get k ((j, v) ∷ m) = if eqb k j then some v else get k m

  unfoldable pub insert : K → V → List (K × V) → List (K × V)
  insert k v [] = (k, v) ∷ []
  insert k v ((j, w) ∷ m) = elim (o.cmp k j) [
    | Ordering.lt ↦ (k, v) ∷ (j, w) ∷ m
    | Ordering.eq ↦ (k, v) ∷ m
    | Ordering.gt ↦ (j, w) ∷ insert k v m
  ]

  unfoldable pub remove : K → List (K × V) → List (K × V)
  remove k [] = []
  remove k ((j, w) ∷ m) = let rest = remove k m in if eqb k j then rest else (j, w) ∷ rest

  -- `retain` with a test of the value.
  unfoldable pub retain : (V → Bool) → List (K × V) → List (K × V)
  retain p [] = []
  retain p ((j, w) ∷ m) = let rest = retain p m in if p w then (j, w) ∷ rest else rest

  pub get-insert :
      (k j : K) (v : V) (m : List (K × V))
      → get j (insert k v m) ≡ (if eqb j k then some v else get j m)
  unfolding get insert
  get-insert k j v [] = refl
  get-insert k j v ((i, w) ∷ m) =
      ground (arith, o.cmp_eq k i, eqb_iff j i, eqb_iff j k, gt-ne k i, get-insert k j v m)

  pub get-remove :
      (k j : K) (m : List (K × V)) → get j (remove k m) ≡ (if eqb k j then none else get j m)
  unfolding get remove
  get-remove k j [] = ground arith
  get-remove k j ((i, w) ∷ m) =
      ground (arith, eqb_iff k i, eqb_iff j i, eqb_iff k j, get-remove k j m)

  -- An entry that `retain` keeps is found as before.
  pub get-retain :
      (p : V → Bool) (k : K) (v : V) (m : List (K × V))
      → get k m ≡ some v
      → p v ≡ true
      → get k (retain p m) ≡ some v
  unfolding get retain
  get-retain p k v [] e h = e
  get-retain p k v ((j, w) ∷ m) e h = ground (arith, get-retain p k v m)

module _ {ℓ κ} {K : Type ℓ} {V : Type κ} ⦃o : Ord K⦄ where
  -- `k` comes before every key, and the keys ascend.
  abbrev pub Before : K → List (K × V) → Type 0
  Before k [] = Unit
  Before k ((j, v) ∷ m) = (o.cmp k j ≡ Ordering.lt) × Before k m

  abbrev pub IsSorted : List (K × V) → Type 0
  IsSorted [] = Unit
  IsSorted ((j, v) ∷ m) = Before j m × IsSorted m

  pub Before-trans :
      (k j : K) (m : List (K × V)) → o.cmp k j ≡ Ordering.lt → Before j m → Before k m
  Before-trans k j [] h b = tt
  Before-trans k j ((i, w) ∷ m) h b = (o.cmp_trans k j i h b.0, Before-trans k j m h b.1)

  pub Before-insert :
      (k j : K) (v : V) (m : List (K × V))
      → o.cmp k j ≡ Ordering.lt
      → Before k m
      → Before k (insert j v m)
  unfolding insert
  Before-insert k j v [] h b = (h, tt)
  Before-insert k j v ((i, w) ∷ m) h b = ground (arith, Before-insert k j v m h b.1)

  pub insert-IsSorted : (k : K) (v : V) (m : List (K × V)) → IsSorted m → IsSorted (insert k v m)
  unfolding insert
  insert-IsSorted k v [] s = (tt, tt)
  insert-IsSorted k v ((i, w) ∷ m) s = ground (
    arith,
    o.cmp_eq k i,
    o.cmp_swap k i,
    Before-trans k i m,
    Before-insert i k v m,
    insert-IsSorted k v m s.1,
  )

  pub Before-get : (k : K) (m : List (K × V)) → Before k m → get k m ≡ none
  unfolding get
  Before-get k [] b = refl
  Before-get k ((j, v) ∷ m) b = ground (arith, lt-ne k j, Before-get k m b.1)

  pub Before-retain : (p : V → Bool) (k : K) (m : List (K × V)) → Before k m → Before k (retain p m)
  unfolding retain
  Before-retain p k [] b = tt
  Before-retain p k ((j, v) ∷ m) b = ground (arith, b.0, Before-retain p k m b.1)

  pub retain-IsSorted : (p : V → Bool) (m : List (K × V)) → IsSorted m → IsSorted (retain p m)
  unfolding retain
  retain-IsSorted p [] s = tt
  retain-IsSorted p ((j, v) ∷ m) s =
      ground (arith, Before-retain p j m s.0, retain-IsSorted p m s.1)

  pub Before-remove : (k j : K) (m : List (K × V)) → Before k m → Before k (remove j m)
  unfolding remove
  Before-remove k j [] b = tt
  Before-remove k j ((i, v) ∷ m) b = ground (arith, b.0, Before-remove k j m b.1)

  pub remove-IsSorted : (k : K) (m : List (K × V)) → IsSorted m → IsSorted (remove k m)
  unfolding remove
  remove-IsSorted k [] s = tt
  remove-IsSorted k ((j, v) ∷ m) s =
      ground (arith, Before-remove j k m s.0, remove-IsSorted k m s.1)

  -- What `retain` leaves was in the map and passes the test.
  pub retain-get :
      (p : V → Bool) (k : K) (v : V) (m : List (K × V))
      → IsSorted m
      → get k (retain p m) ≡ some v
      → (get k m ≡ some v) × (p v ≡ true)
  unfolding get retain
  retain-get p k v [] s h = cc
  retain-get p k v ((j, w) ∷ m) s h =
      ground (arith, h, eqb_iff k j, Before-get j m s.0, retain-get p k v m s.1)

  pub retain-retain : (p : V → Bool) (m : List (K × V)) → retain p (retain p m) ≡ retain p m
  unfolding retain
  retain-retain p [] = refl
  retain-retain p ((j, v) ∷ m) = ground (arith, retain-retain p m)
