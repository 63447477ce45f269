-- ===== src/Base/Set.antt =====
-- `BTreeSet`: the list of its elements in ascending order.
use Prim.Native.Nat.{ℕ, ◌+◌, ◌≤◌, ◌<◌, Ordering}
use mathlib.Core.Path.{◌≡◌, refl}
use mathlib.Core.Bool.{Bool, true, false, not, ◌&&◌, ◌||◌}
use mathlib.Core.List.{List, [], ◌∷◌}
use mathlib.Core.Logic.{inl, inr}
use native.Mathlib.Omega.{arith}
use nxr.Base.Tests.{if◌then◌else◌, Bool-cases}
use nxr.Base.Lists.{length}
use nxr.Base.Order.{Ord, eqb, eqb_iff, eqb_self, lt-ne}

module _ {ℓ} {K : Type ℓ} ⦃o : Ord K⦄ where
  abbrev pub contains : K → List K → Bool
  contains k [] = false
  contains k (x ∷ xs) = eqb k x || contains k xs

  unfoldable pub insert : K → List K → List K
  insert k [] = k ∷ []
  insert k (x ∷ xs) = elim (o.cmp k x) [
    | Ordering.lt ↦ k ∷ x ∷ xs
    | Ordering.eq ↦ k ∷ xs
    | Ordering.gt ↦ x ∷ insert k xs
  ]

  unfoldable pub remove : K → List K → List K
  remove k [] = []
  remove k (x ∷ xs) = let rest = remove k xs in if eqb k x then rest else x ∷ rest

  pub contains-insert :
      (k j : K) (xs : List K) → contains j (insert k xs) ≡ (eqb j k || contains j xs)
  unfolding insert
  contains-insert k j [] = refl
  contains-insert k j (x ∷ xs) = ground (arith, o.cmp_eq k x, contains-insert k j xs)

  pub contains-remove :
      (k j : K) (xs : List K) → contains j (remove k xs) ≡ (not (eqb k j) && contains j xs)
  unfolding remove
  contains-remove k j [] = ground arith
  contains-remove k j (x ∷ xs) =
      ground (arith, eqb_iff k x, eqb_iff k j, eqb_iff j x, contains-remove k j xs)

  pub length-insert : (k : K) (xs : List K) → length (insert k xs) ≤ length xs + 1
  unfolding insert
  length-insert k [] = omega arith
  length-insert k (x ∷ xs) = ground (arith, length-insert k xs)

  pub length-remove : (k : K) (xs : List K) → length (remove k xs) ≤ length xs
  unfolding remove
  length-remove k [] = omega arith
  length-remove k (x ∷ xs) = ground (arith, length-remove k xs)

  -- `k` comes before every element, and the elements ascend.
  abbrev pub Before : K → List K → Type 0
  Before k [] = Unit
  Before k (x ∷ xs) = (o.cmp k x ≡ Ordering.lt) × Before k xs

  abbrev pub IsSorted : List K → Type 0
  IsSorted [] = Unit
  IsSorted (x ∷ xs) = Before x xs × IsSorted xs

  pub Before-trans : (k x : K) (xs : List K) → o.cmp k x ≡ Ordering.lt → Before x xs → Before k xs
  Before-trans k x [] h b = tt
  Before-trans k x (y ∷ ys) h b = (o.cmp_trans k x y h b.0, Before-trans k x ys h b.1)

  pub Before-insert :
      (k j : K) (xs : List K) → o.cmp k j ≡ Ordering.lt → Before k xs → Before k (insert j xs)
  unfolding insert
  Before-insert k j [] h b = (h, tt)
  Before-insert k j (x ∷ xs) h b = ground (arith, Before-insert k j xs h b.1)

  pub Before-remove : (k j : K) (xs : List K) → Before k xs → Before k (remove j xs)
  unfolding remove
  Before-remove k j [] b = tt
  Before-remove k j (x ∷ xs) b = ground (arith, Before-remove k j xs b.1)

  pub insert-IsSorted : (k : K) (xs : List K) → IsSorted xs → IsSorted (insert k xs)
  unfolding insert
  insert-IsSorted k [] s = (tt, tt)
  insert-IsSorted k (x ∷ xs) s = ground (
    arith,
    o.cmp_eq k x,
    o.cmp_swap k x,
    Before-trans k x xs,
    Before-insert x k xs,
    insert-IsSorted k xs s.1,
  )

  pub remove-IsSorted : (k : K) (xs : List K) → IsSorted xs → IsSorted (remove k xs)
  unfolding remove
  remove-IsSorted k [] s = tt
  remove-IsSorted k (x ∷ xs) s = ground (arith, Before-remove x k xs s.0, remove-IsSorted k xs s.1)

  pub Before-absent : (k : K) (xs : List K) → Before k xs → contains k xs ≡ false
  Before-absent k [] b = refl
  Before-absent k (x ∷ xs) b = ground (arith, lt-ne k x, Before-absent k xs b.1)

  -- The sum of a weight over the elements.
  abbrev pub sum : (K → ℕ) → List K → ℕ
  sum w [] = 0
  sum w (x ∷ xs) = w x + sum w xs

  pub sum-insert :
      (w : K → ℕ) (k : K) (xs : List K)
      → contains k xs ≡ false
      → sum w (insert k xs) ≡ w k + sum w xs
  unfolding insert
  sum-insert w k [] h = refl
  sum-insert w k (x ∷ xs) h = ground (arith, sum-insert w k xs)

  remove_absent : (k : K) (xs : List K) → contains k xs ≡ false → remove k xs ≡ xs
  unfolding remove
  remove_absent k [] h = refl
  remove_absent k (x ∷ xs) h = ground (arith, remove_absent k xs)

  pub sum-remove :
      (w : K → ℕ) (k : K) (xs : List K)
      → IsSorted xs
      → contains k xs ≡ true
      → sum w (remove k xs) + w k ≡ sum w xs
  unfolding remove
  sum-remove w k [] s h = ground arith
  sum-remove w k (x ∷ xs) s h =
      ground (arith, eqb_iff k x, remove_absent x xs, Before-absent x xs s.0, sum-remove w k xs s.1)

  pub length-remove-lt :
      (k : K) (xs : List K) → contains k xs ≡ true → length (remove k xs) < length xs
  unfolding remove
  length-remove-lt k [] h = cc
  length-remove-lt k (x ∷ xs) h = ground (arith, length-remove-lt k xs, length-remove k xs)

  -- No element stands twice in the list.
  abbrev pub Distinct : List K → Type 0
  Distinct [] = Unit
  Distinct (x ∷ xs) = (contains x xs ≡ false) × Distinct xs

  -- A list without repetitions is at most as long as one that holds all its elements.
  pub Distinct-length :
      (xs ys : List K)
      → Distinct xs
      → ((k : K) → contains k xs ≡ true → contains k ys ≡ true)
      → length xs ≤ length ys
  Distinct-length [] ys d h = omega arith
  Distinct-length (x ∷ xs) ys d h =
      let here = h x (ground (arith, eqb_self x)) in
      let rest =
        Distinct-length xs (remove x ys) d.1
          (λ k c. ground (arith, h k, contains-remove x k ys, eqb_iff x k)) in
      omega (arith, rest, length-remove-lt x ys here)

  -- As long, it holds all of them.
  pub Distinct-full :
      (xs ys : List K)
      → Distinct xs
      → ((k : K) → contains k xs ≡ true → contains k ys ≡ true)
      → length xs ≡ length ys
      → (k : K) → contains k ys ≡ true
      → contains k xs ≡ true
  Distinct-full xs ys d h e k c = elim (Bool-cases (contains k xs)) [
    | inl found ↦ found
    | inr absent ↦ absurd (
        omega (
          arith,
          Distinct-length (k ∷ xs) ys (absent, d) (λ j i. ground (arith, h j, eqb_iff j k)),
        ))
  ]
