-- ===== src/Autoindex/Collisions.antt =====
-- The invariant of `Index`, and what `insert` does to it.
use github_oras_packages.Base.{
  ◌≡◌, ◌≢◌, ◌↔◌, inl, inr, refl, sym, ap, ◌∙◌, true, false, none, some, List, [], ◌∷◌, ◌++◌, Bytes,
  bytes, ok, arith, All, any, ends_with_byte, starts_with-append, append_of_starts_with, text_eq,
  text_eq_iff, text_lt, ◌>>=◌, fail_if-eq-ok, trim_end_where, map_get, map_insert, map_get-insert,
  map_insert-IsSorted, All-map_insert, IsSorted, if◌then◌else◌, Bool-cases,
}
use github_oras_packages.Autoindex.{
  is_directory, VisibleObject, Index, empty_index, trim_slashes, is_within, collides, insert_object,
  find_object,
}
use github_oras_packages.Autoindex.Paths.{IsFilePath}

abbrev pub Entry : Type 0
Entry = Bytes × VisibleObject

-- Two paths that can both be files: neither is the other, and neither lies below the other.
pub record AreApart (a b : Bytes) : Type 0 where
  pub differ : a ≢ b
  pub not_below : (r : Bytes) → b ≢ a ++ b'/' ∷ r
  pub not_above : (r : Bytes) → a ≢ b ++ b'/' ∷ r

pub AreApart-sym : {a b : Bytes} → AreApart a b → AreApart b a
AreApart-sym h = record {
  differ = λ e. h.differ (sym e);
  not_below = h.not_above;
  not_above = h.not_below;
}

-- Every two entries are apart.
abbrev pub IsFree : List Entry → Type 0
IsFree [] = Unit
IsFree (e ∷ m) = All (λ f. AreApart e.0 f.0) m × IsFree m

-- Each object stands under its own path, a file path.
abbrev pub IsFiled : Entry → Type 0
IsFiled e = (e.1.title.path ≡ e.0) × IsFilePath e.0

pub record IsWellFormed (index : Index) : Type 0 where
  pub sorted : IsSorted index.objects
  pub filed : All IsFiled index.objects
  pub free : IsFree index.objects

pub trim_slashes_of_file : (p : Bytes) → ends_with_byte b'/' p ≡ false → trim_slashes p ≡ p
unfolding trim_end_where
trim_slashes_of_file [] h = refl
trim_slashes_of_file (c ∷ []) h = ground arith
trim_slashes_of_file (c ∷ d ∷ s) h = ground (arith, trim_slashes_of_file (d ∷ s) h)

pub append_slash : (a r : Bytes) → (a ++ bytes "/") ++ r ≡ a ++ b'/' ∷ r
append_slash [] r = refl
append_slash (c ∷ a) r = ap (λ s. c ∷ s) (append_slash a r)

is_within_sound : (a b : Bytes) → is_within a b ≡ true → (r : Bytes) × (b ≡ a ++ b'/' ∷ r)
is_within_sound a b h =
    let (r, e) = append_of_starts_with (a ++ bytes "/") b h in (r, e ∙ append_slash a r)

pub is_within_append : (a r : Bytes) → is_within a (a ++ b'/' ∷ r) ≡ true
is_within_append a r = rw (← append_slash a r) (starts_with-append (a ++ bytes "/") r)

is_within_complete : (a b r : Bytes) → b ≡ a ++ b'/' ∷ r → is_within a b ≡ true
is_within_complete a b r e = rw e (is_within_append a r)

AreApart-of_collides : (a b : Bytes) → collides a b ≡ false → AreApart a b
unfolding collides
AreApart-of_collides a b h = record {
  differ = λ e. ground (arith, text_eq_iff b a, e);
  not_below = λ r e. ground (arith, is_within_complete a b r e);
  not_above = λ r e. ground (arith, is_within_complete b a r e);
}

not_within : (a b : Bytes) → ((r : Bytes) → b ≢ a ++ b'/' ∷ r) → is_within a b ≡ false
not_within a b h = elim (Bool-cases (is_within a b)) [
  | inl e ↦ let (r, k) = is_within_sound a b e in absurd (h r k)
  | inr e ↦ e
]

collides_of_AreApart : (a b : Bytes) → AreApart a b → collides a b ≡ false
unfolding collides
collides_of_AreApart a b h =
    ground
      (arith, h.differ, text_eq_iff b a, not_within a b h.not_below, not_within b a h.not_above)

-- The loop over the existing keys, read as a statement on all of them.
apart_sound :
    (p : Bytes) (m : List Entry)
    → ends_with_byte b'/' p ≡ false
    → All IsFiled m
    → any (λ e. collides (trim_slashes p) (trim_slashes e.0)) m ≡ false
    → All (λ e. AreApart p e.0) m
unfolding is_directory
apart_sound p [] n f h = tt
apart_sound p (e ∷ m) n f h = (
  rw (← trim_slashes_of_file p n, ← trim_slashes_of_file e.0 f.0.1.not_directory)
      (AreApart-of_collides (trim_slashes p) (trim_slashes e.0) (ground arith)),
  apart_sound p m n f.1 (ground arith),
)

apart_complete :
    (p : Bytes) (m : List Entry)
    → ends_with_byte b'/' p ≡ false
    → All IsFiled m
    → All (λ e. AreApart p e.0) m
    → any (λ e. collides (trim_slashes p) (trim_slashes e.0)) m ≡ false
unfolding is_directory
apart_complete p [] n f h = refl
apart_complete p (e ∷ m) n f h =
    let here = collides_of_AreApart p e.0 h.0 in
    let rest = apart_complete p m n f.1 h.1 in
    rw rest
      (ground (arith, here, trim_slashes_of_file p n, trim_slashes_of_file e.0 f.0.1.not_directory))

pub map_get-none_of_apart :
    (p : Bytes) (m : List Entry) → All (λ e. AreApart p e.0) m → map_get p m ≡ none
unfolding map_get
map_get-none_of_apart p [] h = refl
map_get-none_of_apart p ((k, o) ∷ m) h =
    ground (arith, text_eq_iff k p, h.0.differ, map_get-none_of_apart p m h.1)

IsFree-insert :
    (k : Bytes) (o : VisibleObject) (m : List Entry)
    → All (λ e. AreApart k e.0) m
    → IsFree m
    → IsFree (map_insert k o m)
unfolding map_insert
IsFree-insert k o [] h f = (tt, tt)
IsFree-insert k o ((j, w) ∷ m) h f = elim (Bool-cases (text_eq j k)) [
  | inl e ↦ rw e (h.1, f.1)
  | inr e ↦ rw e (elim (Bool-cases (text_lt k j)) [
    | inl l ↦ rw l (h, f)
    | inr l ↦ rw l (
      All-map_insert (λ x. AreApart j x.0) k o m (AreApart-sym h.0) f.0,
      IsFree-insert k o m h.1 f.1,
    )
  ])
]

pub empty_index-IsWellFormed : IsWellFormed empty_index
empty_index-IsWellFormed = record { sorted = tt; filed = tt; free = tt }

pub insert_object_sound :
    (o : VisibleObject) (index index' : Index)
    → IsFilePath o.title.path
    → IsWellFormed index
    → insert_object o index ≡ ok index'
    → All (λ e. AreApart o.title.path e.0) index.objects
      × (index' ≡ record { objects = map_insert o.title.path o index.objects })
unfolding insert_object is_directory
insert_object_sound o index index' f w h =
    let (a, h₁) = fail_if-eq-ok _ _ _ h in
    let (b, h₂) = fail_if-eq-ok _ _ _ h₁ in
    (apart_sound o.title.path index.objects f.not_directory w.filed b, ground (arith, h₂))

pub insert_object_complete :
    (o : VisibleObject) (index : Index)
    → IsFilePath o.title.path
    → IsWellFormed index
    → All (λ e. AreApart o.title.path e.0) index.objects
    → insert_object o index ≡ ok (record { objects = map_insert o.title.path o index.objects })
unfolding insert_object is_directory ◌>>=◌
insert_object_complete o index f w h = ground (
  arith,
  map_get-none_of_apart o.title.path index.objects h,
  apart_complete o.title.path index.objects f.not_directory w.filed h,
)

-- Inserting an object with a file path into a well-formed index succeeds exactly if its path is
-- apart from every path of the index: it is none of them, and lies neither below nor above one.
pub insert_object_iff :
    (o : VisibleObject) (index : Index)
    → IsFilePath o.title.path
    → IsWellFormed index
    → ((index' : Index) × (insert_object o index ≡ ok index'))
      ↔ All (λ e. AreApart o.title.path e.0) index.objects
insert_object_iff o index f w = (
  λ (index', h). (insert_object_sound o index index' f w h).0,
  λ h. (_, insert_object_complete o index f w h),
)

-- An insertion that succeeds keeps the index well-formed: sorted by path, each object under its own
-- file path, no path below another. The new path finds the new object, and every other path finds
-- what it found before.
pub insert_object-IsWellFormed :
    (o : VisibleObject) (index index' : Index) (path : Bytes)
    → IsFilePath o.title.path
    → IsWellFormed index
    → insert_object o index ≡ ok index'
    → IsWellFormed index'
      × (find_object index' path
          ≡ (if text_eq o.title.path path then some o else find_object index path))
unfolding find_object
insert_object-IsWellFormed o index index' path f w h =
    let (apart, e) = insert_object_sound o index index' f w h in
    rw e (
      record {
        sorted = map_insert-IsSorted o.title.path o index.objects w.sorted;
        filed = All-map_insert IsFiled o.title.path o index.objects (refl, f) w.filed;
        free = IsFree-insert o.title.path o index.objects apart w.free;
      },
      map_get-insert o.title.path path o index.objects,
    )
