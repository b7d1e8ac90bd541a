-- ===== src/Base/Ordered.antt =====
-- `BTreeMap<String, V>`: the entries in the byte order of their keys.
use mathlib.Core.Path.{◌≡◌, refl}
use mathlib.Core.Logic.{inl, inr}
use mathlib.Core.Bool.{Bool, true, false, ◌&&◌, ◌||◌}
use mathlib.Core.Option.{Option, none, some}
use mathlib.Core.List.{List, [], ◌∷◌}
use native.Mathlib.Omega.{arith}
use github_oras_packages.Base.Tests.{ltb, ◌==◌, if◌then◌else◌, Bool-cases}
use github_oras_packages.Base.Lists.{All}
use github_oras_packages.Base.Text.{Bytes, text_eq, text_eq_iff}

-- The byte order of texts.
unfoldable pub text_lt : Bytes → Bytes → Bool
text_lt s [] = false
text_lt [] (d ∷ t) = true
text_lt (c ∷ s) (d ∷ t) = ltb c d || (c == d && text_lt s t)

pub text_lt_irrefl : (s : Bytes) → text_lt s s ≡ false
unfolding text_lt
text_lt_irrefl [] = refl
text_lt_irrefl (c ∷ s) = ground (arith, text_lt_irrefl s)

pub text_lt_trans : (s t u : Bytes) → text_lt s t ≡ true → text_lt t u ≡ true → text_lt s u ≡ true
unfolding text_lt
text_lt_trans s [] u h k = cc
text_lt_trans s (d ∷ t) [] h k = cc
text_lt_trans [] (d ∷ t) (e ∷ u) h k = refl
text_lt_trans (c ∷ s) (d ∷ t) (e ∷ u) h k = ground (arith, text_lt_trans s t u)

-- Two texts are equal or ordered.
pub text_lt_total : (s t : Bytes) → text_eq s t ≡ false → text_lt s t ≡ false → text_lt t s ≡ true
unfolding text_lt text_eq
text_lt_total [] [] h k = cc
text_lt_total [] (d ∷ t) h k = cc
text_lt_total (c ∷ s) [] h k = refl
text_lt_total (c ∷ s) (d ∷ t) h k = ground (arith, text_lt_total s t)

module _ {ℓ} {V : Type ℓ} where
  unfoldable pub map_get : Bytes → List (Bytes × V) → Option V
  map_get k [] = none
  map_get k ((j, v) ∷ m) = if text_eq j k then some v else map_get k m

  unfoldable pub map_insert : Bytes → V → List (Bytes × V) → List (Bytes × V)
  map_insert k v [] = (k, v) ∷ []
  map_insert k v ((j, w) ∷ m) =
      if text_eq j k
      then (k, v) ∷ m
      else if text_lt k j
      then (k, v) ∷ (j, w) ∷ m
      else (j, w) ∷ map_insert k v m

  unfoldable pub map_remove : Bytes → List (Bytes × V) → List (Bytes × V)
  map_remove k [] = []
  map_remove k ((j, w) ∷ m) = if text_eq j k then m else (j, w) ∷ map_remove k m

  abbrev pub IsAbove : Bytes → List (Bytes × V) → Type 0
  IsAbove k m = All (λ e. text_lt k e.0 ≡ true) m

  -- The keys ascend.
  abbrev pub IsSorted : List (Bytes × V) → Type 0
  IsSorted [] = Unit
  IsSorted ((k, v) ∷ m) = IsAbove k m × IsSorted m

  pub map_get-insert :
      (k j : Bytes) (v : V) (m : List (Bytes × V))
      → map_get j (map_insert k v m) ≡ (if text_eq k j then some v else map_get j m)
  unfolding map_get map_insert
  map_get-insert k j v [] = refl
  map_get-insert k j v ((i, w) ∷ m) =
      ground (arith, text_eq_iff i k, text_eq_iff i j, text_eq_iff k j, map_get-insert k j v m)

  IsAbove-insert :
      (a k : Bytes) (v : V) (m : List (Bytes × V))
      → text_lt a k ≡ true
      → IsAbove a m
      → IsAbove a (map_insert k v m)
  unfolding map_insert
  IsAbove-insert a k v [] h s = (h, tt)
  IsAbove-insert a k v ((j, w) ∷ m) h s =
      ground (arith, IsAbove-insert a k v m h s.1, text_eq_iff j k)

  pub IsAbove-trans :
      (a b : Bytes) (m : List (Bytes × V)) → text_lt a b ≡ true → IsAbove b m → IsAbove a m
  IsAbove-trans a b [] h s = tt
  IsAbove-trans a b (e ∷ m) h s = (text_lt_trans a b e.0 h s.0, IsAbove-trans a b m h s.1)

  pub map_insert-IsSorted :
      (k : Bytes) (v : V) (m : List (Bytes × V)) → IsSorted m → IsSorted (map_insert k v m)
  unfolding map_insert
  map_insert-IsSorted k v [] s = (tt, tt)
  map_insert-IsSorted k v ((j, w) ∷ m) s = ground (
    arith,
    text_eq_iff j k,
    text_eq_iff k j,
    text_lt_total k j,
    IsAbove-trans k j m,
    IsAbove-insert j k v m,
    map_insert-IsSorted k v m s.1,
  )

  IsAbove-remove : (a k : Bytes) (m : List (Bytes × V)) → IsAbove a m → IsAbove a (map_remove k m)
  unfolding map_remove
  IsAbove-remove a k [] s = tt
  IsAbove-remove a k ((j, w) ∷ m) s = ground (arith, IsAbove-remove a k m s.1)

  pub map_remove-IsSorted :
      (k : Bytes) (m : List (Bytes × V)) → IsSorted m → IsSorted (map_remove k m)
  unfolding map_remove
  map_remove-IsSorted k [] s = tt
  map_remove-IsSorted k ((j, w) ∷ m) s =
      ground (arith, map_remove-IsSorted k m s.1, IsAbove-remove j k m s.0)

  -- No key above all keys of a map is in the map.
  pub map_get_of_IsAbove : (k : Bytes) (m : List (Bytes × V)) → IsAbove k m → map_get k m ≡ none
  unfolding map_get
  map_get_of_IsAbove k [] s = refl
  map_get_of_IsAbove k ((j, w) ∷ m) s =
      ground (arith, map_get_of_IsAbove k m s.1, text_eq_iff j k, text_lt_irrefl k)

  pub map_get-remove :
      (k j : Bytes) (m : List (Bytes × V))
      → IsSorted m
      → map_get j (map_remove k m) ≡ (if text_eq k j then none else map_get j m)
  unfolding map_get map_remove
  map_get-remove k j [] s = ground arith
  map_get-remove k j ((i, w) ∷ m) s = ground (
    arith,
    text_eq_iff i k,
    text_eq_iff i j,
    text_eq_iff k j,
    map_get-remove k j m s.1,
    map_get_of_IsAbove i m s.0,
  )

module _ {ℓ κ} {V : Type ℓ} (P : Bytes × V → Type κ) where
  pub All-map_insert :
      (k : Bytes) (v : V) (m : List (Bytes × V)) → P (k, v) → All P m → All P (map_insert k v m)
  unfolding map_insert
  All-map_insert k v [] h a = (h, tt)
  All-map_insert k v ((j, w) ∷ m) h a = elim (Bool-cases (text_eq j k)) [
    | inl e ↦ rw e (h, a.1)
    | inr e ↦ rw e (elim (Bool-cases (text_lt k j)) [
      | inl l ↦ rw l (h, a)
      | inr l ↦ rw l (a.0, All-map_insert k v m h a.1)
    ])
  ]

  pub All-map_remove : (k : Bytes) (m : List (Bytes × V)) → All P m → All P (map_remove k m)
  unfolding map_remove
  All-map_remove k [] a = tt
  All-map_remove k ((j, w) ∷ m) a = elim (Bool-cases (text_eq j k)) [
    | inl e ↦ rw e a.1
    | inr e ↦ rw e (a.0, All-map_remove k m a.1)
  ]
