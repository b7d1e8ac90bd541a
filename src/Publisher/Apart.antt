-- ===== src/Publisher/Apart.antt =====
-- Files of one directory tree have titles that lie apart from each other.
use github_oras_packages.Base.{
  ◌≡◌, ◌≢◌, refl, ap, sym, ◌∙◌, false, none, some, List, [], ◌∷◌, ◌++◌, Bytes, bytes, ok, arith,
  All, is_empty, ends_with_byte, split, split-ne-nil, split-append_any, split-join, join, Lacks,
  fail_if-eq-ok, >>=-eq-ok,
}
use github_oras_packages.Autoindex.{is_directory}
use github_oras_packages.Autoindex.Paths.{IsFilePath}
use github_oras_packages.Autoindex.Collisions.{AreApart}
use github_oras_packages.Autoindex.Projection.{ends_with_byte-append}
use github_oras_packages.Publisher.{
  Component, normal, special, PathBuf, Metadata, FileSystem, file, title_parts,
}
use github_oras_packages.Publisher.Steps.{IsFileAt}

abbrev pub IsName : Bytes → Type 0
IsName s = Lacks b'/' s × (is_empty s ≡ false)

-- What `Path::components` yields: a name is not empty and holds no slash.
abbrev pub IsComponent : Component → Type 0
IsComponent (normal part) = IsName part
IsComponent special = Unit

abbrev pub IsPathBuf : PathBuf → Type 0
IsPathBuf path = All IsComponent path.components

-- A directory tree: nothing lies below a file.
abbrev pub IsTree : FileSystem → Type 0
IsTree fs =
    (parts : List Bytes) (metadata : Metadata) (name : Bytes) (rest : List Bytes)
    → fs.symlink_metadata parts ≡ some metadata
    → metadata.file_type ≡ file
    → fs.symlink_metadata (parts ++ name ∷ rest) ≡ none

parts-IsName :
    (components : List Component) (parts : List Bytes)
    → All IsComponent components
    → title_parts components ≡ ok parts
    → All IsName parts
unfolding title_parts
parts-IsName [] parts a h = let e : parts ≡ [] = ground (arith, h) in rw e tt
parts-IsName (special ∷ components) parts a h = cc
parts-IsName (normal part ∷ components) parts a h =
    let (b, h₁) = fail_if-eq-ok _ _ _ h in
    let (rest, r, h₂) = >>=-eq-ok _ _ h₁ in
    let e : parts ≡ part ∷ rest = ground (arith, h₂) in
    rw e (a.0, parts-IsName components rest a.1 r)

join_not_directory :
    (part : Bytes) (parts : List Bytes)
    → All IsName (part ∷ parts)
    → (ends_with_byte b'/' (join b'/' (part ∷ parts)) ≡ false)
      × (is_empty (join b'/' (part ∷ parts)) ≡ false)
unfolding join
join_not_directory part [] h = (lacks_last part h.0.0, h.0.1)
  where
    lacks_last : (s : Bytes) → Lacks b'/' s → ends_with_byte b'/' s ≡ false
    lacks_last [] l = refl
    lacks_last (c ∷ []) l = ground (arith, l)
    lacks_last (c ∷ d ∷ s) l = lacks_last (d ∷ s) (ground (arith, l))
join_not_directory part (next ∷ parts) h =
    let (a, b) = join_not_directory next parts h.1 in
    (
      ends_with_byte-append b'/' part (b'/' ∷ join b'/' (next ∷ parts)) refl
          ∙ ends_with_byte-append b'/' (bytes "/") (join b'/' (next ∷ parts)) b
          ∙ a,
      not_empty part (join b'/' (next ∷ parts)) h.0.1,
    )
  where
    not_empty : (s t : Bytes) → is_empty s ≡ false → is_empty (s ++ b'/' ∷ t) ≡ false
    not_empty [] t e = cc
    not_empty (c ∷ s) t e = refl

module _ (fs : FileSystem) (relative : PathBuf) (name content : Bytes)
    (good : IsPathBuf relative) where
  title_split : (f : IsFileAt fs relative name content) → split b'/' name ≡ f.parts
  title_split f =
      of_parts f.parts f.some_part (parts-IsName relative.components f.parts good f.spelled) f.title
    where
      lacks : (parts : List Bytes) → All IsName parts → All (Lacks b'/') parts
      lacks [] a = tt
      lacks (p ∷ parts) a = (a.0.0, lacks parts a.1)

      of_parts :
          (parts : List Bytes)
          → is_empty parts ≡ false
          → All IsName parts
          → name ≡ join b'/' parts
          → split b'/' name ≡ parts
      of_parts [] e a t = cc
      of_parts (p ∷ parts) e a t = rw t (split-join b'/' p parts (lacks (p ∷ parts) a))

  -- The title of a regular file is a file path.
  pub title-IsFilePath : IsFileAt fs relative name content → IsFilePath name
  unfolding is_directory
  title-IsFilePath f = record {
    relative = f.safe;
    not_directory =
        of_parts f.parts f.some_part (parts-IsName relative.components f.parts good f.spelled)
          f.title;
  }
    where
      of_parts :
          (parts : List Bytes)
          → is_empty parts ≡ false
          → All IsName parts
          → name ≡ join b'/' parts
          → ends_with_byte b'/' name ≡ false
      of_parts [] e a t = cc
      of_parts (p ∷ parts) e a t = rw t (join_not_directory p parts a).0

not_below_file :
    (fs : FileSystem) (p q : PathBuf) (a b ca cb r : Bytes)
    → IsTree fs
    → IsPathBuf p
    → IsPathBuf q
    → IsFileAt fs p a ca
    → IsFileAt fs q b cb
    → b ≢ a ++ b'/' ∷ r
not_below_file fs p q a b ca cb r tree gp gq fa fb e = below (split b'/' r) (split-ne-nil b'/' r) (
    sym (title_split fs q b cb gq fb)
    ∙ ap (split b'/') e
    ∙ split-append_any b'/' a r
    ∙ ap (λ t. t ++ split b'/' r) (title_split fs p a ca gp fa))
  where
    below : (rest : List Bytes) → rest ≢ [] → fb.parts ≡ fa.parts ++ rest → ⊥
    below [] n k = n refl
    below (x ∷ rest) n k =
        let missing = tree fa.parts fa.metadata x rest fa.entry fa.regular in
        let found = rw k at fb.entry in let clash = sym missing ∙ found in cc

-- Two files with different titles lie apart: neither is below the other.
pub titles-AreApart :
    (fs : FileSystem) (p q : PathBuf) (a b ca cb : Bytes)
    → IsTree fs
    → IsPathBuf p
    → IsPathBuf q
    → IsFileAt fs p a ca
    → IsFileAt fs q b cb
    → a ≢ b
    → AreApart a b
titles-AreApart fs p q a b ca cb tree gp gq fa fb d = record {
  differ = d;
  not_below = λ r. not_below_file fs p q a b ca cb r tree gp gq fa fb;
  not_above = λ r. not_below_file fs q p b a cb ca r tree gq gp fb fa;
}
