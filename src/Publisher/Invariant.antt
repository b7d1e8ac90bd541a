-- ===== src/Publisher/Invariant.antt =====
-- The invariant of the loop of `from_files`, and the layers that it leaves.
use mathlib.Core.List.{append_assoc, append-nil}
use github_oras_packages.Base.{
  ℕ, suc, ◌+◌, ◌≤◌, ◌≡◌, ◌≢◌, refl, ap, sym, ◌∙◌, inl, inr, none, some, List, [], ◌∷◌, ◌++◌, Bytes,
  ok, arith, All, All-append, All-map, length, length-append, text_eq, text_eq_iff, text_lt,
  map_get, map_insert, map_get-insert, All-map_insert, >>=-eq-ok, Bool-cases, Option-cases,
}
use github_oras_packages.Libraries.{Libraries, digest_bytes}
use github_oras_packages.Publisher.{
  max_publication_bytes, max_publication_files, PathBuf, FileSystem,
}
use github_oras_packages.Publisher.Build.{
  PublicationBlob, Descriptor, Loop, start, annotations_of, layer_of, record_file, add_files,
  layer_title,
}
use github_oras_packages.Publisher.Steps.{IsFileAt, add_file_sound}

abbrev pub Blobs : Type 0
Blobs = List (Bytes × PublicationBlob)

-- The bytes of all blobs.
abbrev pub content_bytes : Blobs → ℕ
content_bytes [] = 0
content_bytes (e ∷ blobs) = length e.1.content + content_bytes blobs

-- A blob stands under the digest of its bytes.
abbrev pub IsHashed : Libraries → Bytes × PublicationBlob → Type 0
IsHashed lib e = (e.1.digest ≡ e.0) × (e.0 ≡ digest_bytes lib e.1.content)

abbrev pub IsKnownTitle : List (Bytes × Unit {0}) → Descriptor → Type 0
IsKnownTitle titles d =
    (name : Bytes) × (layer_title d ≡ some name) × (map_get name titles ≡ some tt)

abbrev pub HasBlob : Blobs → Descriptor → Type 0
HasBlob blobs d = (b : PublicationBlob) × (map_get d.digest blobs ≡ some b)

abbrev pub Differ : Descriptor → Descriptor → Type 0
Differ d e = layer_title d ≢ layer_title e

abbrev pub AreTitlesDistinct : List Descriptor → Type 0
AreTitlesDistinct [] = Unit
AreTitlesDistinct (d ∷ layers) = All (Differ d) layers × AreTitlesDistinct layers

pub record IsConsistent (lib : Libraries) (loop : Loop) : Type 0 where
  pub hashed : All (IsHashed lib) loop.file_blobs
  pub summed : loop.total_bytes ≡ content_bytes loop.file_blobs
  pub bounded : loop.total_bytes ≤ max_publication_bytes
  pub few : length loop.titles ≤ max_publication_files
  pub one_each : length loop.layers ≡ length loop.titles
  pub known : All (IsKnownTitle loop.titles) loop.layers
  pub stored : All (HasBlob loop.file_blobs) loop.layers
  pub distinct : AreTitlesDistinct loop.layers

pub start-IsConsistent : (lib : Libraries) → IsConsistent lib start
start-IsConsistent lib = record {
  hashed = tt;
  summed = refl;
  bounded = omega arith;
  few = omega arith;
  one_each = refl;
  known = tt;
  stored = tt;
  distinct = tt;
}

pub layer_title_lem :
    (lib : Libraries) (name content : Bytes) (size : ℕ)
    → layer_title (layer_of lib name content size) ≡ some name
unfolding layer_of annotations_of map_insert map_get text_eq text_lt
layer_title_lem lib name content size = refl

digest_lem :
    (lib : Libraries) (name content : Bytes) (size : ℕ)
    → (layer_of lib name content size).digest ≡ digest_bytes lib content
unfolding layer_of
digest_lem lib name content size = refl

length_fresh :
    (k : Bytes) (m : List (Bytes × Unit {0}))
    → map_get k m ≡ none
    → length (map_insert k tt m) ≡ suc (length m)
unfolding map_get map_insert
length_fresh k [] h = refl
length_fresh k ((j, w) ∷ m) h = ground (arith, length_fresh k m)

content_bytes-insert :
    (k : Bytes) (b : PublicationBlob) (m : Blobs)
    → map_get k m ≡ none
    → content_bytes (map_insert k b m) ≡ content_bytes m + length b.content
unfolding map_get map_insert
content_bytes-insert k b [] h = omega arith
content_bytes-insert k b ((j, w) ∷ m) h = ground (arith, content_bytes-insert k b m)

-- What is found stays found behind an insertion, if the inserted value does not matter.
found_after_insert {ℓ} :
    {V : Type ℓ} (k j : Bytes) (v : V) (m : List (Bytes × V))
    → ((w : V) × (map_get j m ≡ some w))
    → (w : V) × (map_get j (map_insert k v m) ≡ some w)
found_after_insert k j v m (w, e) = elim (Bool-cases (text_eq k j)) [
  | inl a ↦ (v, map_get-insert k j v m ∙ rw a refl)
  | inr a ↦ (w, map_get-insert k j v m ∙ rw a e)
]

AreTitlesDistinct-append :
    (layers : List Descriptor) (d : Descriptor)
    → AreTitlesDistinct layers
    → All (λ e. Differ e d) layers
    → AreTitlesDistinct (layers ++ d ∷ [])
AreTitlesDistinct-append [] d h k = (tt, tt)
AreTitlesDistinct-append (e ∷ layers) d h k =
    (All-append (Differ e) layers (d ∷ []) h.0 (k.0, tt), AreTitlesDistinct-append layers d h.1 k.1)

unit_of : (u : Unit {0}) → u ≡ tt
unit_of u = refl

module _ (lib : Libraries) (name content : Bytes) (loop : Loop) (c : IsConsistent lib loop) where
  abbrev titles_after : List (Bytes × Unit {0})
  titles_after = map_insert name tt loop.titles

  abbrev layer_after : Descriptor
  layer_after = layer_of lib name content (length content)

  abbrev after : Loop
  after = record_file lib name content (length content) (record loop { titles = titles_after })

  known_after : All (IsKnownTitle titles_after) loop.layers
  known_after =
      All-map (IsKnownTitle loop.titles) (IsKnownTitle titles_after)
        (λ d (n, t, k). let (u, f) = found_after_insert name n tt loop.titles (tt, k) in (n, t, f))
        loop.layers c.known

  new_known : IsKnownTitle titles_after layer_after
  new_known = (
    name,
    layer_title_lem lib name content (length content),
    map_get-insert name name tt loop.titles ∙ rw ((text_eq_iff name name).1 refl) refl,
  )

  -- A title not seen before differs from those of all layers.
  new_differs : map_get name loop.titles ≡ none → All (λ e. Differ e layer_after) loop.layers
  new_differs fresh =
      All-map (IsKnownTitle loop.titles) (λ e. Differ e layer_after)
        (λ d (n, t, k) same.
          let e : some n ≡ some name =
            sym t ∙ same ∙ layer_title_lem lib name content (length content) in
          let q : n ≡ name = ground (arith, e) in
          let r : none ≡ some tt = sym fresh ∙ rw (← q) k in cc)
        loop.layers c.known

  record_file-IsConsistent :
      map_get name loop.titles ≡ none
      → length titles_after ≤ max_publication_files
      → loop.total_bytes + length content ≤ max_publication_bytes
      → IsConsistent lib after
  unfolding record_file
  record_file-IsConsistent fresh few room =
      elim (Option-cases (map_get (digest_bytes lib content) loop.file_blobs)) [
        | inl absent ↦ rw absent (record {
          hashed =
              All-map_insert (IsHashed lib) (digest_bytes lib content) _ loop.file_blobs
                (refl, refl) c.hashed;
          summed =
              ap (λ t. t + length content) c.summed
              ∙ sym (content_bytes-insert (digest_bytes lib content) _ loop.file_blobs absent);
          bounded = room;
          few = few;
          one_each = counted fresh;
          known =
              All-append (IsKnownTitle titles_after) loop.layers (layer_after ∷ []) known_after
                (new_known, tt);
          stored =
              All-append (HasBlob _) loop.layers (layer_after ∷ [])
                (All-map (HasBlob loop.file_blobs) (HasBlob _)
                  (λ d. found_after_insert (digest_bytes lib content) d.digest _ loop.file_blobs)
                  loop.layers c.stored)
                (new_stored _, tt);
          distinct =
              AreTitlesDistinct-append loop.layers layer_after c.distinct (new_differs fresh);
        })
        | inr (b, present) ↦ rw present (record {
          hashed = c.hashed;
          summed = c.summed;
          bounded = c.bounded;
          few = few;
          one_each = counted fresh;
          known =
              All-append (IsKnownTitle titles_after) loop.layers (layer_after ∷ []) known_after
                (new_known, tt);
          stored =
              All-append (HasBlob loop.file_blobs) loop.layers (layer_after ∷ []) c.stored
                ((b, rw digest_lem present), tt);
          distinct =
              AreTitlesDistinct-append loop.layers layer_after c.distinct (new_differs fresh);
        })
      ]
    where
      counted :
          map_get name loop.titles ≡ none
          → length (loop.layers ++ layer_after ∷ []) ≡ length titles_after
      counted fresh = omega (
        arith,
        length-append loop.layers (layer_after ∷ []),
        length_fresh name loop.titles fresh,
        c.one_each,
      )

      new_stored :
          (b : PublicationBlob)
          → HasBlob (map_insert (digest_bytes lib content) b loop.file_blobs) layer_after
      new_stored b = (
        b,
        rw digest_lem (
            map_get-insert (digest_bytes lib content) (digest_bytes lib content) b loop.file_blobs
            ∙ rw ((text_eq_iff (digest_bytes lib content) (digest_bytes lib content)).1 refl) refl),
      )

-- The layer that one input leaves.
abbrev pub IsLayerOf : Libraries → FileSystem → PathBuf → Descriptor → Type 0
IsLayerOf lib fs relative d =
    (name : Bytes) × ((content : Bytes) × (IsFileAt fs relative name content
        × (d ≡ layer_of lib name content (length content))))

-- One layer for each input, in their order.
abbrev pub AreLayersOf : Libraries → FileSystem → List PathBuf → List Descriptor → Type 0
AreLayersOf lib fs [] [] = Unit
AreLayersOf lib fs [] (d ∷ ds) = ⊥
AreLayersOf lib fs (p ∷ ps) [] = ⊥
AreLayersOf lib fs (p ∷ ps) (d ∷ ds) = IsLayerOf lib fs p d × AreLayersOf lib fs ps ds

layers_after :
    (lib : Libraries) (name content : Bytes) (size : ℕ) (loop : Loop)
    → (record_file lib name content size loop).layers
      ≡ loop.layers ++ layer_of lib name content size ∷ []
unfolding record_file
layers_after lib name content size loop = refl

pub add_files-IsConsistent :
    (lib : Libraries) (fs : FileSystem) (paths : List PathBuf) (loop last : Loop)
    → IsConsistent lib loop
    → add_files lib fs paths loop ≡ ok last
    → IsConsistent lib last
      × ((ds : List Descriptor) × ((last.layers ≡ loop.layers ++ ds) × AreLayersOf lib fs paths ds))
unfolding add_files
add_files-IsConsistent lib fs [] loop last c h =
    let same : last ≡ loop = ground (arith, h) in
    rw same (c, ([], (sym (append-nil loop.layers), tt)))
add_files-IsConsistent lib fs (relative ∷ paths) loop last c h =
    let (next, a, h₁) = >>=-eq-ok _ _ h in
    let r = add_file_sound lib fs relative loop next a in
    let layer = layer_of lib r.name r.content (length r.content) in
    let c₁ : IsConsistent lib next =
      rw r.left (record_file-IsConsistent lib r.name r.content loop c r.fresh r.few r.room) in
    let here : next.layers ≡ loop.layers ++ layer ∷ [] =
      ap (λ l. l.layers) r.left ∙ layers_after lib r.name r.content (length r.content) _ in
    let (c₂, (ds, (e, k))) = add_files-IsConsistent lib fs paths next last c₁ h₁ in
    (
      c₂,
      (
        layer ∷ ds,
        (
          e ∙ ap (λ t. t ++ ds) here ∙ append_assoc loop.layers (layer ∷ []) ds,
          ((r.name, (r.content, (r.filed, refl))), k),
        ),
      ),
    )
