-- ===== src/Autoindex/Completeness.antt =====
-- Every file of a well-formed index is listed below each of its directories.
use mathlib.Core.List.{Memᴰ, append_assoc}
use github_oras_packages.Base.{
  ℕ, ◌≡◌, ◌≢◌, ◌⊎◌, refl, sym, ap, subst, ◌∙◌, false, none, some, List, [], ◌∷◌, ◌++◌, Bytes, bytes,
  arith, All, is_empty, ends_with_byte, split_once, split_once-append, Lacks, text_eq_iff, map_get,
  map_get-insert,
}
use github_oras_packages.Autoindex.{
  VisibleObject, is_directory, directory, file, visit_object, collect_children,
}
use github_oras_packages.Autoindex.Collisions.{Entry, IsFiled}
use github_oras_packages.Autoindex.Projection.{
  Listed, Visit, outside, unnamed, as_file, below, visit_object-Visit,
}

append_cancel : (p a b : Bytes) → p ++ a ≡ p ++ b → a ≡ b
append_cancel [] a b h = h
append_cancel (c ∷ p) a b h = append_cancel p a b (ground arith)

not-Lacks-append : (d : ℕ) (s t : Bytes) → ¬ (Lacks d (s ++ d ∷ t))
not-Lacks-append d [] t h = ground arith
not-Lacks-append d (c ∷ s) t h = not-Lacks-append d s t (ground arith)

-- The first component of a path is one name.
first_name :
    (p a r b t : Bytes)
    → Lacks b'/' a
    → Lacks b'/' b
    → p ++ a ++ b'/' ∷ r ≡ p ++ b ++ b'/' ∷ t
    → a ≡ b
first_name p a r b t la lb e =
    let e' : a ++ b'/' ∷ r ≡ b ++ b'/' ∷ t =
      append_cancel p (a ++ b'/' ∷ r) (b ++ b'/' ∷ t)
        (sym (append_assoc p a (b'/' ∷ r)) ∙ e ∙ append_assoc p b (b'/' ∷ t)) in
    let found = ap (split_once b'/') e' in
    ground (arith, found, split_once-append b'/' a r la, split_once-append b'/' b t lb)

-- A name is not the spelling of something below a name.
no_file_below : (p a b t : Bytes) → Lacks b'/' a → p ++ a ≢ p ++ b ++ b'/' ∷ t
no_file_below p a b t la e =
    let e' = append_cancel p a (b ++ b'/' ∷ t) (e ∙ append_assoc p b (b'/' ∷ t)) in
    not-Lacks-append b'/' b t (subst (Lacks b'/') e' la)

append_nonempty : (s : Bytes) (c : ℕ) (t : Bytes) → is_empty (s ++ c ∷ t) ≡ false
append_nonempty [] c t = refl
append_nonempty (d ∷ s) c t = refl

no_slash_first : (s t r : Bytes) → Lacks b'/' s → is_empty s ≡ false → s ++ b'/' ∷ t ≢ b'/' ∷ r
no_slash_first [] t r l n e = cc
no_slash_first (c ∷ s) t r l n e = ground arith

module _ (parent name : Bytes) (lacks : Lacks b'/' name) (named : is_empty name ≡ false) where
  -- What the loop has under `name` so far, while no file has that name: nothing, or the directory.
  abbrev pub IsDirectoryOrNone : List Listed → Type 0
  IsDirectoryOrNone entries =
      (map_get name entries ≡ none)
      ⊎ (map_get name entries ≡ some (directory (parent ++ name ++ bytes "/")))

  Visit-keeps_file :
      (o o' : VisibleObject) (entries out : List Listed)
      → map_get name entries ≡ some (file o)
      → (o'.title.path ≡ parent ++ name → o' ≡ o)
      → Visit parent o' entries out
      → map_get name out ≡ some (file o)
  Visit-keeps_file o o' entries out g unique (outside _ e) = rw e g
  Visit-keeps_file o o' entries out g unique (unnamed _ _ e) = rw e g
  Visit-keeps_file o o' entries out g unique (as_file n p _ _ e) =
      rw (e, map_get-insert) (ground (arith, g, text_eq_iff n name, unique, p))
  Visit-keeps_file o o' entries out g unique (below n r p _ _ e) = rw e (
      ground (
        arith,
        g,
        text_eq_iff n name,
        map_get-insert n name (directory (parent ++ n ++ bytes "/")) entries,
      ))

  -- A visit of the file with this name leaves that file under the name.
  Visit-file :
      (o : VisibleObject) (entries out : List Listed)
      → o.title.path ≡ parent ++ name
      → Visit parent o entries out
      → map_get name out ≡ some (file o)
  Visit-file o entries out p (outside far e) = absurd (far name named p)
  Visit-file o entries out p (unnamed rest q e) = absurd (
      not-Lacks-append b'/' [] rest
        (subst (Lacks b'/') (append_cancel parent name (b'/' ∷ rest) (sym p ∙ q)) lacks))
  Visit-file o entries out p (as_file n q _ _ e) =
      let same = append_cancel parent n name (sym q ∙ p) in
      rw (e, map_get-insert) (ground (arith, text_eq_iff n name, same))
  Visit-file o entries out p (below n r q _ _ e) =
      absurd (no_file_below parent name n r lacks (sym p ∙ q))

  -- A visit of any file but one with this name leaves the directory or nothing under the name.
  Visit-keeps_directory :
      (o : VisibleObject) (entries out : List Listed)
      → IsDirectoryOrNone entries
      → o.title.path ≢ parent ++ name
      → Visit parent o entries out
      → IsDirectoryOrNone out
  Visit-keeps_directory o entries out g other (outside _ e) = rw e g
  Visit-keeps_directory o entries out g other (unnamed _ _ e) = rw e g
  Visit-keeps_directory o entries out g other (as_file n p _ _ e) =
      rw (e, map_get-insert) (ground (arith, g, text_eq_iff n name, other, p))
  Visit-keeps_directory o entries out g other (below n r p _ _ e) = rw e (
      ground (
        arith,
        g,
        text_eq_iff n name,
        map_get-insert n name (directory (parent ++ n ++ bytes "/")) entries,
      ))

  -- A visit of a file below this name leaves the directory under the name.
  Visit-below :
      (o : VisibleObject) (entries out : List Listed) (rest : Bytes)
      → IsDirectoryOrNone entries
      → o.title.path ≡ parent ++ name ++ b'/' ∷ rest
      → Visit parent o entries out
      → map_get name out ≡ some (directory (parent ++ name ++ bytes "/"))
  Visit-below o entries out rest g p (outside far e) = absurd (
      far (name ++ b'/' ∷ rest) (append_nonempty name b'/' rest)
        (p ∙ append_assoc parent name (b'/' ∷ rest)))
  Visit-below o entries out rest g p (unnamed r q e) = absurd (
      no_slash_first name rest r lacks named (
        append_cancel parent (name ++ b'/' ∷ rest) (b'/' ∷ r)
          (sym (append_assoc parent name (b'/' ∷ rest)) ∙ sym p ∙ q)))
  Visit-below o entries out rest g p (as_file n q l _ e) =
      absurd (no_file_below parent n name rest l (sym q ∙ p))
  Visit-below o entries out rest g p (below n r q l _ e) =
      let same = first_name parent n r name rest l lacks (sym q ∙ p) in
      rw e (
        ground (
          arith,
          g,
          same,
          text_eq_iff n name,
          map_get-insert n name (directory (parent ++ n ++ bytes "/")) entries,
        ))

  -- Only one object has the path of this name.
  abbrev pub IsOnly : VisibleObject → List Entry → Type 0
  IsOnly o = All (λ e. e.0 ≡ parent ++ name → e.1 ≡ o)

  slash_of_filed : (e : Entry) → IsFiled e → ends_with_byte b'/' e.1.title.path ≡ false
  unfolding is_directory
  slash_of_filed e f = ap (ends_with_byte b'/') f.0 ∙ f.1.not_directory

  collect_keeps_file :
      (o : VisibleObject) (objects : List Entry) (entries : List Listed)
      → map_get name entries ≡ some (file o)
      → All IsFiled objects
      → IsOnly o objects
      → map_get name (collect_children parent objects entries) ≡ some (file o)
  unfolding collect_children
  collect_keeps_file o [] entries g f u = g
  collect_keeps_file o ((path, o') ∷ objects) entries g f u =
      collect_keeps_file o objects (visit_object parent o' entries)
        (Visit-keeps_file o o' entries (visit_object parent o' entries) g (λ e. u.0 (sym f.0.0 ∙ e))
          (visit_object-Visit parent o' entries (slash_of_filed (path, o') f.0)))
        f.1 u.1

  pub collect_file :
      (o : VisibleObject) (objects : List Entry) (entries : List Listed)
      → Memᴰ (parent ++ name, o) objects
      → All IsFiled objects
      → IsOnly o objects
      → map_get name (collect_children parent objects entries) ≡ some (file o)
  unfolding collect_children
  collect_file o [] entries mem f u = elim mem [ ]
  collect_file o ((path, o') ∷ objects) entries (Memᴰ.tail mem) f u =
      collect_file o objects (visit_object parent o' entries) mem f.1 u.1
  collect_file o ((path, o') ∷ objects) entries (Memᴰ.head e) f u =
      let same_path : path ≡ parent ++ name = ap (λ (t : Entry). t.0) (sym e) in
      collect_keeps_file o objects (visit_object parent o' entries)
        (Visit-file o' entries (visit_object parent o' entries) (f.0.0 ∙ same_path)
            (visit_object-Visit parent o' entries (slash_of_filed (path, o') f.0))
          ∙ ap (λ (t : VisibleObject). some (file t)) (u.0 same_path))
        f.1 u.1

  Visit-keeps_found :
      (o : VisibleObject) (entries out : List Listed)
      → map_get name entries ≡ some (directory (parent ++ name ++ bytes "/"))
      → o.title.path ≢ parent ++ name
      → Visit parent o entries out
      → map_get name out ≡ some (directory (parent ++ name ++ bytes "/"))
  Visit-keeps_found o entries out g other (outside _ e) = rw e g
  Visit-keeps_found o entries out g other (unnamed _ _ e) = rw e g
  Visit-keeps_found o entries out g other (as_file n p _ _ e) =
      rw (e, map_get-insert) (ground (arith, g, text_eq_iff n name, other, p))
  Visit-keeps_found o entries out g other (below n r p _ _ e) = rw e (
      ground (
        arith,
        g,
        text_eq_iff n name,
        map_get-insert n name (directory (parent ++ n ++ bytes "/")) entries,
      ))

  abbrev pub HasNoFile : List Entry → Type 0
  HasNoFile = All (λ e. e.0 ≢ parent ++ name)

  collect_keeps_directory :
      (objects : List Entry) (entries : List Listed)
      → map_get name entries ≡ some (directory (parent ++ name ++ bytes "/"))
      → All IsFiled objects
      → HasNoFile objects
      → map_get name (collect_children parent objects entries)
        ≡ some (directory (parent ++ name ++ bytes "/"))
  unfolding collect_children
  collect_keeps_directory [] entries g f u = g
  collect_keeps_directory ((path, o') ∷ objects) entries g f u =
      collect_keeps_directory objects (visit_object parent o' entries)
        (Visit-keeps_found o' entries (visit_object parent o' entries) g (λ e. u.0 (sym f.0.0 ∙ e))
          (visit_object-Visit parent o' entries (slash_of_filed (path, o') f.0)))
        f.1 u.1

  pub collect_directory :
      (o : VisibleObject) (rest : Bytes) (objects : List Entry) (entries : List Listed)
      → Memᴰ (parent ++ name ++ b'/' ∷ rest, o) objects
      → IsDirectoryOrNone entries
      → All IsFiled objects
      → HasNoFile objects
      → map_get name (collect_children parent objects entries)
        ≡ some (directory (parent ++ name ++ bytes "/"))
  unfolding collect_children
  collect_directory o rest [] entries mem g f u = elim mem [ ]
  collect_directory o rest ((path, o') ∷ objects) entries (Memᴰ.tail mem) g f u =
      collect_directory o rest objects (visit_object parent o' entries) mem
        (Visit-keeps_directory o' entries (visit_object parent o' entries) g
          (λ e. u.0 (sym f.0.0 ∙ e))
          (visit_object-Visit parent o' entries (slash_of_filed (path, o') f.0)))
        f.1 u.1
  collect_directory o rest ((path, o') ∷ objects) entries (Memᴰ.head e) g f u =
      collect_keeps_directory objects (visit_object parent o' entries)
        (Visit-below o' entries (visit_object parent o' entries) rest g
          (f.0.0 ∙ ap (λ (t : Entry). t.0) (sym e))
          (visit_object-Visit parent o' entries (slash_of_filed (path, o') f.0)))
        f.1 u.1
