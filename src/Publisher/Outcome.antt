-- ===== src/Publisher/Outcome.antt =====
-- What a publication holds.
use mathlib.Core.List.{Memᴰ}
use github_oras_packages.Base.{
  ℕ, ◌+◌, ◌≤◌, ◌≡◌, refl, ap, sym, subst, ◌∙◌, false, some, List, [], ◌∷◌, map, Bytes, ok, arith,
  All, All-append, All-map, is_empty, length, fail_if-eq-ok, >>=-eq-ok, ok_or->>=-eq-ok, Option,
}
use github_oras_packages.Libraries.{Libraries, digest_bytes}
use github_oras_packages.Publisher.{
  max_publication_bytes, max_publication_files, PathBuf, FileSystem,
}
use github_oras_packages.Publisher.Build.{
  PublicationBlob, Descriptor, Manifest, Publication, Loop, start, empty_config, sort_layers,
  layer_paths, sort_blobs, manifest_of, all_blobs, finish, from_files,
}
use github_oras_packages.Publisher.Invariant.{
  IsConsistent, start-IsConsistent, IsKnownTitle, HasBlob, IsLayerOf, AreLayersOf,
  add_files-IsConsistent,
}
use github_oras_packages.Publisher.Sorted.{IsAscending, sort_layers-IsAscending, All-sort_layers}
use github_oras_packages.Publisher.Contents.{
  All-sort_blobs, IsAddressed, IsAddressed-all, IsAscendingTexts, IsTitled, blob_bytes,
  blob_bytes-all, blob_bytes-sort, length-sort_layers, mem-sort_blobs, mem_of_map_get, paths_ascend,
}

-- What a successful run leaves, before it is serialized.
pub record Built (lib : Libraries) (to_vec : Manifest → Option Bytes) (fs : FileSystem)
    (paths : List PathBuf) (publication : Publication) : Type 0 where
  pub loop : Loop
  pub consistent : IsConsistent lib loop
  pub layers_of : AreLayersOf lib fs paths loop.layers
  pub some_layer : is_empty loop.layers ≡ false
  pub written : to_vec (manifest_of lib (sort_layers loop.layers)) ≡ some publication.manifest
  pub addressed : publication.manifest_digest ≡ digest_bytes lib publication.manifest
  pub measured : publication.manifest_size ≡ length publication.manifest
  pub holds : publication.blobs ≡ sort_blobs (all_blobs lib loop)
  pub listed : publication.paths ≡ layer_paths (sort_layers loop.layers)

pub from_files_sound :
    (lib : Libraries) (to_vec : Manifest → Option Bytes) (fs : FileSystem) (paths : List PathBuf)
    (publication : Publication)
    → from_files lib to_vec fs paths ≡ ok publication
    → Built lib to_vec fs paths publication
unfolding from_files finish
from_files_sound lib to_vec fs paths publication h =
    let (u, _, h₁) = >>=-eq-ok _ _ h in
    let (loop, a, h₂) = >>=-eq-ok _ _ h₁ in
    let (c, (ds, (e, k))) =
      add_files-IsConsistent lib fs paths start loop (start-IsConsistent lib) a in
    let (b, h₃) = fail_if-eq-ok _ _ _ h₂ in
    let (text, w, h₄) = ok_or->>=-eq-ok _ _ _ h₃ in
    record {
      loop = loop;
      consistent = c;
      layers_of = rw e k;
      some_layer = b;
      written = w ∙ ap some (ground (arith, h₄));
      addressed = ground (arith, h₄);
      measured = ground (arith, h₄);
      holds = ground (arith, h₄);
      listed = ground (arith, h₄);
    }

-- Every input has its layer, and every layer its input.
pub IsLayerOf-input :
    (lib : Libraries) (fs : FileSystem) (paths : List PathBuf) (layers : List Descriptor)
    (relative : PathBuf)
    → AreLayersOf lib fs paths layers
    → Memᴰ relative paths
    → (d : Descriptor) × (Memᴰ d layers × IsLayerOf lib fs relative d)
IsLayerOf-input lib fs [] layers relative a m = absurd (elim m [ ])
IsLayerOf-input lib fs (p ∷ ps) [] relative a m = absurd a
IsLayerOf-input lib fs (p ∷ ps) (d ∷ ds) relative a (Memᴰ.head e) =
    (d, (Memᴰ.head refl, subst (λ x. IsLayerOf lib fs x d) (sym e) a.0))
IsLayerOf-input lib fs (p ∷ ps) (d ∷ ds) relative a (Memᴰ.tail m) =
    let (x, (k, l)) = IsLayerOf-input lib fs ps ds relative a.1 m in (x, (Memᴰ.tail k, l))

pub input_of_layer :
    (lib : Libraries) (fs : FileSystem) (paths : List PathBuf) (layers : List Descriptor)
    (d : Descriptor)
    → AreLayersOf lib fs paths layers
    → Memᴰ d layers
    → (relative : PathBuf) × (Memᴰ relative paths × IsLayerOf lib fs relative d)
input_of_layer lib fs paths [] d a m = absurd (elim m [ ])
input_of_layer lib fs [] (e ∷ ds) d a m = absurd a
input_of_layer lib fs (p ∷ ps) (e ∷ ds) d a (Memᴰ.head s) =
    (p, (Memᴰ.head refl, subst (IsLayerOf lib fs p) (sym s) a.0))
input_of_layer lib fs (p ∷ ps) (e ∷ ds) d a (Memᴰ.tail m) =
    let (x, (k, l)) = input_of_layer lib fs ps ds d a.1 m in (x, (Memᴰ.tail k, l))

-- A blob of the publication for the digest of a layer.
abbrev pub IsStored : Publication → Descriptor → Type 0
IsStored publication d = (b : PublicationBlob) × (Memᴰ b publication.blobs × (b.digest ≡ d.digest))

-- A publication within its limits, with content under its digests.
pub record IsPublication (lib : Libraries) (publication : Publication) : Type 0 where
  pub sorted : IsAscendingTexts publication.paths
  pub some_path : 1 ≤ length publication.paths
  pub few : length publication.paths ≤ max_publication_files
  pub hashed : All (IsAddressed lib) publication.blobs
  pub addressed : publication.manifest_digest ≡ digest_bytes lib publication.manifest
  pub measured : publication.manifest_size ≡ length publication.manifest
  pub bounded : blob_bytes publication.blobs ≤ max_publication_bytes + 2

module _ (lib : Libraries) (to_vec : Manifest → Option Bytes) (fs : FileSystem)
    (paths : List PathBuf) (publication : Publication)
    (built : Built lib to_vec fs paths publication) where
  layers-IsStored : All (IsStored publication) built.loop.layers
  layers-IsStored =
      All-map (HasBlob built.loop.file_blobs) (IsStored publication)
        (λ d (b, e).
          let (m, same) =
            mem_of_map_get lib d.digest b _ built.loop.file_blobs built.consistent.hashed e in
          (b, (rw built.holds (mem-sort_blobs b (all_blobs lib built.loop) m), same)))
        built.loop.layers built.consistent.stored

  pub sorted-IsStored : All (IsStored publication) (sort_layers built.loop.layers)
  sorted-IsStored = All-sort_layers (IsStored publication) built.loop.layers layers-IsStored

  pub sorted-IsAscending : IsAscending (sort_layers built.loop.layers)
  sorted-IsAscending = sort_layers-IsAscending built.loop.layers built.consistent.distinct

  sorted-IsTitled : All IsTitled (sort_layers built.loop.layers)
  sorted-IsTitled = All-sort_layers IsTitled built.loop.layers (
      All-map (IsKnownTitle built.loop.titles) IsTitled (λ d (n, t, k). (n, t)) built.loop.layers
        built.consistent.known)

  counted : length publication.paths ≡ length built.loop.titles
  counted =
      ap length built.listed
      ∙ (paths_ascend (sort_layers built.loop.layers) sorted-IsTitled sorted-IsAscending).1
      ∙ length-sort_layers built.loop.layers
      ∙ built.consistent.one_each

  built-IsPublication : IsPublication lib publication
  built-IsPublication = record {
    sorted =
        rw built.listed
          (paths_ascend (sort_layers built.loop.layers) sorted-IsTitled sorted-IsAscending).0;
    some_path = rw counted (nonempty built.loop.layers built.some_layer built.consistent.one_each);
    few = rw counted built.consistent.few;
    hashed = rw built.holds (
        All-sort_blobs (IsAddressed lib) (all_blobs lib built.loop) (
          All-append (IsAddressed lib) (map (λ e. e.1) built.loop.file_blobs) (_ ∷ [])
            (IsAddressed-all lib built.loop.file_blobs built.consistent.hashed) (refl, tt)));
    addressed = built.addressed;
    measured = built.measured;
    bounded = rw built.holds (
        omega (
          arith,
          blob_bytes-sort (all_blobs lib built.loop),
          blob_bytes-all built.loop.file_blobs
              (record { digest = digest_bytes lib empty_config; content = empty_config }),
          built.consistent.summed,
          built.consistent.bounded,
        ));
  }
    where
      nonempty :
          (layers : List Descriptor) {n : ℕ} → is_empty layers ≡ false → length layers ≡ n → 1 ≤ n
      nonempty [] e k = cc
      nonempty (d ∷ layers) e k = omega arith

-- A publication that is built lists its paths in strictly ascending order, at least one and at most
-- 10,000 of them; every blob stands under the SHA-256 digest of its bytes, and so does the manifest;
-- and all blobs together have at most 64 MiB, besides the empty configuration.
pub from_files-IsPublication :
    (lib : Libraries) (to_vec : Manifest → Option Bytes) (fs : FileSystem) (paths : List PathBuf)
    (publication : Publication)
    → from_files lib to_vec fs paths ≡ ok publication
    → IsPublication lib publication
from_files-IsPublication lib to_vec fs paths publication h =
    built-IsPublication lib to_vec fs paths publication
      (from_files_sound lib to_vec fs paths publication h)
