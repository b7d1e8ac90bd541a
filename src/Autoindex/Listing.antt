-- ===== src/Autoindex/Listing.antt =====
-- Files and directories of a well-formed index exclude one another.
use mathlib.Core.List.{Memᴰ}
use github_oras_packages.Base.{
  ℕ, ◌≡◌, ◌≢◌, ◌⊎◌, inl, inr, refl, sym, ap, subst, ◌∙◌, true, some, List, [], ◌∷◌, ◌++◌, Bytes,
  bytes, ok, arith, All, any, starts_with, append_of_starts_with, text_eq, text_eq_iff,
  fail_if-eq-ok, >>=-eq-ok, map_get, Bool-cases,
}
use github_oras_packages.Autoindex.{VisibleObject, Index, find_object, has_directory}
use github_oras_packages.Autoindex.Collisions.{
  Entry, AreApart, AreApart-sym, IsFree, IsWellFormed, append_slash,
}

pub All-mem {ℓ κ} : {A : Type ℓ} (P : A → Type κ) {x : A} {xs : List A} → All P xs → Memᴰ x xs → P x
All-mem P {xs = []} h m = elim m [ ]
All-mem P {xs = y ∷ xs} h (Memᴰ.head e) = subst P (sym e) h.0
All-mem P {xs = y ∷ xs} h (Memᴰ.tail m) = All-mem P h.1 m

pub mem_of_map_get :
    {V : Type 0} (k : Bytes) (m : List (Bytes × V)) {v : V} → map_get k m ≡ some v → Memᴰ (k, v) m
unfolding map_get
mem_of_map_get k [] h = cc
mem_of_map_get k ((j, w) ∷ m) h = elim (Bool-cases (text_eq j k)) [
  | inl e ↦ Memᴰ.head (ground (arith, text_eq_iff j k))
  | inr e ↦ Memᴰ.tail (mem_of_map_get k m (rw (e, map_get) at h))
]

-- Two entries of a free list are one entry, or apart.
pub IsFree-mem :
    (m : List Entry) {x y : Entry} → IsFree m → Memᴰ x m → Memᴰ y m → (x ≡ y) ⊎ AreApart x.0 y.0
IsFree-mem [] f a b = elim a [ ]
IsFree-mem (e ∷ m) f (Memᴰ.head p) (Memᴰ.head q) = inl (p ∙ sym q)
IsFree-mem (e ∷ m) {y = y} f (Memᴰ.head p) (Memᴰ.tail b) =
    inr (rw p (All-mem (λ t. AreApart e.0 t.0) f.0 b))
IsFree-mem (e ∷ m) f (Memᴰ.tail a) (Memᴰ.head q) =
    inr (rw q (AreApart-sym (All-mem (λ t. AreApart e.0 t.0) f.0 a)))
IsFree-mem (e ∷ m) f (Memᴰ.tail a) (Memᴰ.tail b) = IsFree-mem m f.1 a b

any_starts_sound :
    (d : Bytes) (m : List Entry)
    → any (λ e. starts_with d e.0) m ≡ true
    → (e : Entry) × Memᴰ e m × ((r : Bytes) × (e.0 ≡ d ++ r))
any_starts_sound d [] h = cc
any_starts_sound d (e ∷ m) h = elim (Bool-cases (starts_with d e.0)) [
  | inl k ↦ (e, Memᴰ.head refl, append_of_starts_with d e.0 k)
  | inr k ↦ let (f, mem, r) = any_starts_sound d m (ground arith) in (f, Memᴰ.tail mem, r)
]

-- A directory that is reported lies above a file of the index.
pub has_directory_sound :
    (index : Index) (c : ℕ) (s : Bytes)
    → has_directory index (c ∷ s) ≡ ok true
    → (e : Entry) × Memᴰ e index.objects × ((r : Bytes) × (e.0 ≡ (c ∷ s) ++ r))
unfolding has_directory
has_directory_sound index c s h =
    let (p, a, h₁) = >>=-eq-ok _ _ h in
    let (b, h₂) = fail_if-eq-ok _ _ _ h₁ in
    any_starts_sound (c ∷ s) index.objects (ground (arith, h₂))

cons_append_slash : (p : Bytes) → (c : ℕ) × ((s : Bytes) × (p ++ bytes "/" ≡ c ∷ s))
cons_append_slash [] = (b'/', ([], refl))
cons_append_slash (c ∷ p) = (c, (p ++ bytes "/", refl))

pub ne_append_slash : (p r : Bytes) → p ≢ p ++ b'/' ∷ r
ne_append_slash [] r h = cc
ne_append_slash (c ∷ p) r h = ne_append_slash p r (ground arith)

-- In a well-formed index no path that finds an object is also reported as a directory.
pub find_object-not_directory :
    (index : Index) (p : Bytes) (o : VisibleObject)
    → IsWellFormed index
    → find_object index p ≡ some o
    → has_directory index (p ++ bytes "/") ≢ ok true
unfolding find_object
find_object-not_directory index p o w found h =
    let (c, (s, e)) = cons_append_slash p in
    let (f, mem, (r, below)) = has_directory_sound index c s (rw (← e) h) in
    let spelled : f.0 ≡ p ++ b'/' ∷ r = below ∙ ap (λ t. t ++ r) (sym e) ∙ append_slash p r in
    elim (IsFree-mem index.objects w.free (mem_of_map_get p index.objects found) mem) [
      | inl same ↦ ne_append_slash p r (ap (λ (t : Entry). t.0) same ∙ spelled)
      | inr apart ↦ apart.not_below r spelled
    ]
