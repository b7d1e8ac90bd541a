-- ===== src/Base/Retain.antt =====
-- `BTreeMap::retain` and `pop_first`, and the sizes of maps.
use Prim.Native.Nat.{◌+◌, ◌≤◌}
use mathlib.Core.Path.{◌≡◌, refl}
use mathlib.Core.Logic.{◌⊎◌, inl}
use mathlib.Core.Bool.{Bool}
use mathlib.Core.Option.{Option, none, some}
use mathlib.Core.List.{List, [], ◌∷◌}
use native.Mathlib.Omega.{arith}
use github_oras_packages.Base.Tests.{if◌then◌else◌}
use github_oras_packages.Base.Lists.{length}
use github_oras_packages.Base.Text.{Bytes, text_eq_iff}
use github_oras_packages.Base.Ordered.{
  map_get, map_insert, map_remove, IsAbove, IsSorted, IsAbove-trans, map_get_of_IsAbove,
}

module _ {ℓ} {V : Type ℓ} where
  unfoldable pub retain : (V → Bool) → List (Bytes × V) → List (Bytes × V)
  retain p [] = []
  retain p ((k, v) ∷ m) = let rest = retain p m in if p v then (k, v) ∷ rest else rest

  unfoldable pub pop_first : List (Bytes × V) → List (Bytes × V)
  pop_first [] = []
  pop_first (e ∷ m) = m

  -- The value, if the test holds of it.
  abbrev pub kept : (V → Bool) → Option V → Option V
  kept p none = none
  kept p (some v) = if p v then some v else none

  IsAbove-retain :
      (a : Bytes) (p : V → Bool) (m : List (Bytes × V)) → IsAbove a m → IsAbove a (retain p m)
  unfolding retain
  IsAbove-retain a p [] s = tt
  IsAbove-retain a p ((k, v) ∷ m) s = ground (arith, IsAbove-retain a p m s.1)

  pub retain-IsSorted : (p : V → Bool) (m : List (Bytes × V)) → IsSorted m → IsSorted (retain p m)
  unfolding retain
  retain-IsSorted p [] s = tt
  retain-IsSorted p ((k, v) ∷ m) s =
      ground (arith, retain-IsSorted p m s.1, IsAbove-retain k p m s.0)

  pub map_get-retain :
      (k : Bytes) (p : V → Bool) (m : List (Bytes × V))
      → IsSorted m
      → map_get k (retain p m) ≡ kept p (map_get k m)
  unfolding map_get retain
  map_get-retain k p [] s = refl
  map_get-retain k p ((j, v) ∷ m) s =
      ground (arith, map_get-retain k p m s.1, map_get_of_IsAbove j m s.0, text_eq_iff j k)

  pub pop_first-IsSorted : (m : List (Bytes × V)) → IsSorted m → IsSorted (pop_first m)
  unfolding pop_first
  pop_first-IsSorted [] s = tt
  pop_first-IsSorted (e ∷ m) s = s.1

  -- A key has its value after `pop_first`, or was the first.
  pub map_get-pop_first :
      (k : Bytes) (m : List (Bytes × V))
      → IsSorted m
      → (map_get k (pop_first m) ≡ none) ⊎ (map_get k (pop_first m) ≡ map_get k m)
  unfolding pop_first map_get
  map_get-pop_first k [] s = inl refl
  map_get-pop_first k ((j, v) ∷ m) s = ground (arith, map_get_of_IsAbove j m s.0, text_eq_iff j k)

  pub length-retain : (p : V → Bool) (m : List (Bytes × V)) → length (retain p m) ≤ length m
  unfolding retain
  length-retain p [] = omega arith
  length-retain p ((k, v) ∷ m) = ground (arith, length-retain p m)

  pub length-map_remove : (k : Bytes) (m : List (Bytes × V)) → length (map_remove k m) ≤ length m
  unfolding map_remove
  length-map_remove k [] = omega arith
  length-map_remove k ((j, w) ∷ m) = ground (arith, length-map_remove k m)

  pub length-map_insert :
      (k : Bytes) (v : V) (m : List (Bytes × V)) → length (map_insert k v m) ≤ 1 + length m
  unfolding map_insert
  length-map_insert k v [] = omega arith
  length-map_insert k v ((j, w) ∷ m) = ground (arith, length-map_insert k v m)

  pub length-map_insert_known :
      (k : Bytes) (v w : V) (m : List (Bytes × V))
      → IsSorted m
      → map_get k m ≡ some w
      → length (map_insert k v m) ≡ length m
  unfolding map_insert map_get
  length-map_insert_known k v w [] s h = cc
  length-map_insert_known k v w ((j, u) ∷ m) s h = ground (
    arith,
    length-map_insert_known k v w m s.1,
    text_eq_iff j k,
    IsAbove-trans k j m,
    s.0,
    map_get_of_IsAbove k m,
  )
