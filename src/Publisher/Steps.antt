-- ===== src/Publisher/Steps.antt =====
-- What one round of the loop of `from_files` has found out about its file.
use mathlib.Core.List.{append_assoc, append-nil}
use github_oras_packages.Base.{
  ℕ, ◌+◌, ◌≤◌, ◌≡◌, refl, ap, sym, ◌∙◌, true, false, Option, none, some, List, [], ◌∷◌, ◌++◌, Bytes,
  ok, arith, is_empty, length, join, map_get, map_insert, fail_if-eq-ok, >>=-eq-ok, ok_or->>=-eq-ok,
  map_err-eq-ok,
}
use github_oras_packages.Autoindex.{is_some}
use github_oras_packages.Autoindex.Paths.{IsRelativePath, parse_relative_sound}
use github_oras_packages.Libraries.{Libraries}
use github_oras_packages.Publisher.{
  max_publication_bytes, max_publication_files, normal, special, Component, PathBuf, FileType, file,
  symlink, directory, other, Metadata, FileSystem, is_file, title_parts, relative_title,
  walk_components, validate_source_path,
}
use github_oras_packages.Publisher.Build.{Loop, record_file, read_file, add_source, add_file}

-- The walk ends at the names of the title.
walk_components_sound :
    (fs : FileSystem) (current source parts : List Bytes) (components : List Component)
    → walk_components fs current components ≡ ok source
    → title_parts components ≡ ok parts
    → source ≡ current ++ parts
unfolding walk_components title_parts
walk_components_sound fs current source parts [] h t =
    let a : source ≡ current = ground (arith, h) in
    let b : parts ≡ [] = ground (arith, t) in rw (a, b) (sym (append-nil current))
walk_components_sound fs current source parts (special ∷ components) h t = cc
walk_components_sound fs current source parts (normal part ∷ components) h t =
    let (metadata, m, h₁) = ok_or->>=-eq-ok _ _ _ h in
    let (a, h₂) = fail_if-eq-ok _ _ _ h₁ in
    let (b, t₁) = fail_if-eq-ok _ _ _ t in
    let (rest, r, t₂) = >>=-eq-ok _ _ t₁ in
    let e : parts ≡ part ∷ rest = ground (arith, t₂) in
    walk_components_sound fs (current ++ part ∷ []) source rest components h₂ r
    ∙ append_assoc current (part ∷ []) rest
    ∙ ap (λ t. current ++ t) (sym e)

relative_title_sound :
    (relative : PathBuf) (name : Bytes)
    → relative_title relative ≡ ok name
    → (parts : List Bytes) × (title_parts relative.components ≡ ok parts)
      × (is_empty parts ≡ false)
      × (name ≡ join b'/' parts)
unfolding relative_title
relative_title_sound relative name h =
    let (a, h₁) = fail_if-eq-ok _ _ _ h in
    let (parts, t, h₂) = >>=-eq-ok _ _ h₁ in
    let (b, h₃) = fail_if-eq-ok _ _ _ h₂ in (parts, t, b, ground (arith, h₃))

-- A regular file below the root, under the names that its title joins, read in full.
pub record IsFileAt (fs : FileSystem) (relative : PathBuf) (name content : Bytes) : Type 0 where
  pub parts : List Bytes
  pub spelled : title_parts relative.components ≡ ok parts
  pub some_part : is_empty parts ≡ false
  pub title : name ≡ join b'/' parts
  pub safe : IsRelativePath name
  pub metadata : Metadata
  pub entry : fs.symlink_metadata parts ≡ some metadata
  pub regular : metadata.file_type ≡ file
  pub read : fs.read parts ≡ some content
  pub sized : metadata.len ≡ length content
  pub bounded : length content ≤ max_publication_bytes

file_of : (t : FileType) → is_file t ≡ true → t ≡ file
file_of symlink h = cc
file_of file h = refl
file_of directory h = cc
file_of other h = cc

record ReadFile (fs : FileSystem) (source : List Bytes) (size : ℕ) (loop : Loop) : Type 0 where
  content : Bytes
  found : fs.read source ≡ some content
  whole : size ≡ length content
  small : size ≤ max_publication_bytes
  room : loop.total_bytes + size ≤ max_publication_bytes

read_file_sound :
    (lib : Libraries) (fs : FileSystem) (name : Bytes) (source : List Bytes) (size : ℕ)
    (loop next : Loop)
    → read_file lib fs name source size loop ≡ ok next
    → (r : ReadFile fs source size loop) × (next ≡ record_file lib name r.content size loop)
unfolding read_file
read_file_sound lib fs name source size loop next h =
    let (a, h₁) = fail_if-eq-ok _ _ _ h in
    let (content, f, h₂) = ok_or->>=-eq-ok _ _ _ h₁ in
    let (b, h₃) = fail_if-eq-ok _ _ _ h₂ in
    (
      record {
        content = content;
        found = f;
        whole = ground (arith, b);
        small = ground (arith, a);
        room = ground (arith, a);
      },
      ground (arith, h₃),
    )

-- One round of the loop.
pub record AddedFile (lib : Libraries) (fs : FileSystem) (relative : PathBuf) (loop next : Loop)
    : Type 0 where
  pub name : Bytes
  pub content : Bytes
  pub filed : IsFileAt fs relative name content
  pub fresh : map_get name loop.titles ≡ none
  pub few : length (map_insert name tt loop.titles) ≤ max_publication_files
  pub room : loop.total_bytes + length content ≤ max_publication_bytes
  pub left :
      next
      ≡ record_file lib name content
          (length content)
          (record loop { titles = map_insert name tt loop.titles })

none_of : {A : Type 0} (o : Option A) → is_some o ≡ false → o ≡ none
none_of none h = refl
none_of (some a) h = cc

add_source_sound :
    (lib : Libraries) (fs : FileSystem) (name : Bytes) (relative : PathBuf) (loop next : Loop)
    (parts : List Bytes)
    → title_parts relative.components ≡ ok parts
    → add_source lib fs name relative loop ≡ ok next
    → (metadata : Metadata) × (fs.symlink_metadata parts ≡ some metadata)
      × (metadata.file_type ≡ file)
      × ((r : ReadFile fs parts metadata.len loop) × (next
            ≡ record_file lib name r.content metadata.len loop))
unfolding add_source validate_source_path
add_source_sound lib fs name relative loop next parts t h =
    let (source, s, h₁) = >>=-eq-ok _ _ h in
    let (n, _, s₁) = >>=-eq-ok _ _ s in
    let (p, _, s₂) = >>=-eq-ok _ _ s₁ in
    let same : source ≡ parts = walk_components_sound fs [] source parts relative.components s₂ t in
    let (metadata, m, h₂) = ok_or->>=-eq-ok _ _ _ h₁ in
    let (a, h₃) = fail_if-eq-ok _ _ _ h₂ in
    (
      metadata,
      rw (← same) m,
      file_of metadata.file_type (ground (arith, a)),
      rw (← same) (read_file_sound lib fs name source metadata.len loop next h₃),
    )

pub add_file_sound :
    (lib : Libraries) (fs : FileSystem) (relative : PathBuf) (loop next : Loop)
    → add_file lib fs relative loop ≡ ok next
    → AddedFile lib fs relative loop next
unfolding add_file
add_file_sound lib fs relative loop next h =
    let (name, t, h₁) = >>=-eq-ok _ _ h in
    let (parsed, p, h₂) = >>=-eq-ok _ _ h₁ in
    let (a, h₃) = fail_if-eq-ok _ _ _ h₂ in
    let (b, h₄) = fail_if-eq-ok _ _ _ h₃ in
    let (parts, q, some_part, title) = relative_title_sound relative name t in
    let (metadata, m, f, (r, e)) = add_source_sound lib fs name relative _ next parts q h₄ in
    record {
      name = name;
      content = r.content;
      filed = record {
        parts = parts;
        spelled = q;
        some_part = some_part;
        title = title;
        safe = (parse_relative_sound name (map_err-eq-ok _ _ p)).1;
        metadata = metadata;
        entry = m;
        regular = f;
        read = r.found;
        sized = r.whole;
        bounded = rw (← r.whole) r.small;
      };
      fresh = none_of (map_get name loop.titles) a;
      few = ground (arith, b);
      room = rw (← r.whole) r.room;
      left = rw (← r.whole) e;
    }
