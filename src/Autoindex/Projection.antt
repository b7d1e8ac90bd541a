-- ===== src/Autoindex/Projection.antt =====
-- What `children` lists: the first components below a directory, and nothing else.
use mathlib.Core.List.{Memᴰ, append_assoc}
use github_oras_packages.Base.{
  ℕ, ◌≡◌, ◌≢◌, inl, inr, refl, sym, ap, subst, ◌∙◌, true, false, Option, none, some, List, [], ◌∷◌,
  ◌++◌, Bytes, bytes, arith, All, All-map, is_empty, ends_with_byte, strip_prefix,
  append_of_strip_prefix, strip_prefix-append, split_once, split_once_sound, split_once-none, Lacks,
  map_get, map_insert, All-map_insert, if◌then◌else◌, Bool-cases, Option-cases,
}
use github_oras_packages.Autoindex.{
  VisibleObject, is_directory, is_some, DirectoryEntry, directory, file, place_child, add_child,
  visit_object, collect_children,
}
use github_oras_packages.Autoindex.Collisions.{Entry, IsFiled, trim_slashes_of_file}

abbrev pub Listed : Type 0
Listed = Bytes × DirectoryEntry

-- What one listed entry stands for, below `parent`: a file with that name, or a directory that holds
-- a file.
abbrev pub IsChild : Bytes → List Entry → Listed → Type 0
IsChild parent m (name, file o) =
    Memᴰ (parent ++ name, o) m × (Lacks b'/' name × (is_empty name ≡ false))
IsChild parent m (name, directory path) =
    (path ≡ parent ++ name ++ bytes "/")
    × (Lacks b'/' name × (is_empty name ≡ false))
    × ((r : Bytes) × ((o : VisibleObject) × Memᴰ (parent ++ name ++ b'/' ∷ r, o) m))

-- The cases of the loop's body for a file path, with the entries that it leaves.
pub data Visit (parent : Bytes) (o : VisibleObject) (entries out : List Listed) : Type 0 where
  outside :
      ((r : Bytes) → is_empty r ≡ false → o.title.path ≢ parent ++ r)
      → out ≡ entries
      → Visit parent o entries out
  unnamed :
      (rest : Bytes)
      → o.title.path ≡ parent ++ b'/' ∷ rest
      → out ≡ entries
      → Visit parent o entries out
  as_file :
      (name : Bytes)
      → o.title.path ≡ parent ++ name
      → Lacks b'/' name
      → is_empty name ≡ false
      → out ≡ map_insert name (file o) entries
      → Visit parent o entries out
  below :
      (name rest : Bytes)
      → o.title.path ≡ parent ++ name ++ b'/' ∷ rest
      → Lacks b'/' name
      → is_empty name ≡ false
      → out ≡ (
          if is_some (map_get name entries)
          then entries
          else map_insert name (directory (parent ++ name ++ bytes "/")) entries)
      → Visit parent o entries out

pub ends_with_byte-append :
    (d : ℕ) (s t : Bytes) → is_empty t ≡ false → ends_with_byte d (s ++ t) ≡ ends_with_byte d t
ends_with_byte-append d [] t h = refl
ends_with_byte-append d (c ∷ []) [] h = cc
ends_with_byte-append d (c ∷ []) (e ∷ t) h = refl
ends_with_byte-append d (c ∷ f ∷ s) t h = ends_with_byte-append d (f ∷ s) t h

append-ne_self : (p r : Bytes) → is_empty r ≡ false → p ≢ p ++ r
append-ne_self [] [] h e = cc
append-ne_self [] (c ∷ r) h e = cc
append-ne_self (c ∷ p) r h e = append-ne_self p r h (ground arith)

append-nil_eq : (p r : Bytes) → is_empty r ≡ true → p ++ r ≡ p
append-nil_eq [] [] h = refl
append-nil_eq (c ∷ p) [] h = ap (λ s. c ∷ s) (append-nil_eq p [] refl)
append-nil_eq p (c ∷ r) h = cc

nil_of_empty : (r : Bytes) → is_empty r ≡ true → r ≡ []
nil_of_empty [] h = refl
nil_of_empty (c ∷ r) h = cc

strip_prefix-none : (p s r : Bytes) → strip_prefix p s ≡ none → s ≢ p ++ r
strip_prefix-none p s r h e = let k = strip_prefix-append p r in ground (arith, h, e, k)

not_slash_last : (name : Bytes) → ends_with_byte b'/' (name ++ b'/' ∷ []) ≡ true
not_slash_last name = ends_with_byte-append b'/' name (b'/' ∷ []) refl

module _ (parent : Bytes) (o : VisibleObject) (entries : List Listed) where
  add_child-nonempty :
      (r : Bytes)
      → is_empty r ≡ false
      → ends_with_byte b'/' r ≡ false
      → add_child parent o r entries ≡ place_child parent o r (split_once b'/' r) entries
  unfolding add_child
  add_child-nonempty r n e = rw (n, trim_slashes_of_file r e)

  place_child-Visit :
      (r : Bytes) (found : Option (Bytes × Bytes))
      → o.title.path ≡ parent ++ r
      → is_empty r ≡ false
      → ends_with_byte b'/' r ≡ false
      → split_once b'/' r ≡ found
      → Visit parent o entries (place_child parent o r found entries)
  unfolding place_child
  place_child-Visit r none e n w s = as_file r e (split_once-none b'/' r s) n (rw n)
  place_child-Visit r (some (name, rest)) e n w s =
      let (cut, lacks) = split_once_sound b'/' r {a = name} {b = rest} s in
      elim (Bool-cases (is_empty name)) [
        | inl a ↦
            unnamed rest
              (e ∙ ap (λ t. parent ++ t) (cut ∙ ap (λ t. t ++ b'/' ∷ rest) (nil_of_empty name a)))
              (rw a)
        | inr a ↦ elim (Bool-cases (is_empty rest)) [
          | inl b ↦ absurd (
              let last : ends_with_byte b'/' r ≡ true =
                ap (ends_with_byte b'/') (cut ∙ ap (λ t. name ++ b'/' ∷ t) (nil_of_empty rest b))
                ∙ not_slash_last name in
              cc)
          | inr b ↦
              below name rest
                (e ∙ ap (λ t. parent ++ t) cut ∙ sym (append_assoc parent name (b'/' ∷ rest))) lacks
                a (rw (a, b))
        ]
      ]

  add_child-Visit :
      (r : Bytes)
      → o.title.path ≡ parent ++ r
      → ends_with_byte b'/' o.title.path ≡ false
      → Visit parent o entries (add_child parent o r entries)
  add_child-Visit r e n = elim (Bool-cases (is_empty r)) [
    | inl nil ↦
        outside (λ t h k. append-ne_self parent t h (sym (append-nil_eq parent r nil) ∙ sym e ∙ k))
          (unfold add_child in rw nil)
    | inr some_ ↦
        let ends : ends_with_byte b'/' r ≡ false =
          sym (ends_with_byte-append b'/' parent r some_) ∙ ap (ends_with_byte b'/') (sym e) ∙ n in
        rw (add_child-nonempty r some_ ends)
          (place_child-Visit r (split_once b'/' r) e some_ ends refl)
  ]

  pub visit_object-Visit :
      ends_with_byte b'/' o.title.path ≡ false
      → Visit parent o entries (visit_object parent o entries)
  unfolding visit_object
  visit_object-Visit n = elim (Option-cases (strip_prefix parent o.title.path)) [
    | inl missed ↦
        rw (missed, visit_object)
          (outside (λ r h. strip_prefix-none parent o.title.path r missed) refl)
    | inr (r, found) ↦
        rw (found, visit_object)
          (add_child-Visit r (append_of_strip_prefix parent o.title.path found) n)
  ]

module _ (parent : Bytes) (m : List Entry) where
  Visit-sound :
      (o : VisibleObject) (entries out : List Listed)
      → Memᴰ (o.title.path, o) m
      → All (IsChild parent m) entries
      → Visit parent o entries out
      → All (IsChild parent m) out
  Visit-sound o entries out mem a (outside _ e) = rw e a
  Visit-sound o entries out mem a (unnamed _ _ e) = rw e a
  Visit-sound o entries out mem a (as_file name p lacks named e) = rw e (
      All-map_insert (IsChild parent m) name (file o) entries
        (subst (λ (t : Bytes). Memᴰ {A = Entry} (t, o) m) p mem, (lacks, named)) a)
  Visit-sound o entries out mem a (below name rest p lacks named e) =
      elim (Bool-cases (is_some (map_get name entries))) [
        | inl known ↦ rw (e, known) a
        | inr new ↦
            rw (e, new)
              (All-map_insert (IsChild parent m) name (directory (parent ++ name ++ bytes "/"))
                entries
                (
                  refl,
                  (lacks, named),
                  (rest, (o, subst (λ (t : Bytes). Memᴰ {A = Entry} (t, o) m) p mem)),
                )
                a)
      ]

  pub collect_sound :
      (objects : List Entry) (entries : List Listed)
      → All (λ e. Memᴰ e m) objects
      → All IsFiled objects
      → All (IsChild parent m) entries
      → All (IsChild parent m) (collect_children parent objects entries)
  unfolding collect_children is_directory
  collect_sound [] entries mem f a = a
  collect_sound ((path, o) ∷ objects) entries mem f a =
      let slash : ends_with_byte b'/' o.title.path ≡ false =
        ap (ends_with_byte b'/') f.0.0 ∙ f.0.1.not_directory in
      collect_sound objects (visit_object parent o entries) mem.1 f.1 (
        Visit-sound o entries (visit_object parent o entries)
          (subst (λ (t : Bytes). Memᴰ {A = Entry} (t, o) m) (sym f.0.0) mem.0) a
          (visit_object-Visit parent o entries slash))

pub All-self {ℓ} : {A : Type ℓ} (xs : List A) → All (λ x. Memᴰ x xs) xs
All-self [] = tt
All-self (x ∷ xs) = (
  Memᴰ.head refl,
  All-map (λ y. Memᴰ y xs) (λ y. Memᴰ y (x ∷ xs)) (λ y h. Memᴰ.tail h) xs (All-self xs),
)
