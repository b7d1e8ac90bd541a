-- ===== src/Oci/Accepted.antt =====
-- Which layers a manifest may have to be projected.
use github_oras_packages.Base.{
  ◌≡◌, inl, inr, refl, true, some, List, [], ◌∷◌, Bytes, ok, All, map_insert, All-map_insert, ◌>>=◌,
  Bool-cases,
}
use github_oras_packages.Autoindex.{Index, empty_index}
use github_oras_packages.Autoindex.Paths.{IsFilePath, new_object_complete}
use github_oras_packages.Autoindex.Collisions.{
  AreApart, AreApart-sym, IsWellFormed, empty_index-IsWellFormed, insert_object_complete,
  insert_object-IsWellFormed,
}
use github_oras_packages.Oci.{
  Descriptor, Manifest, AutoindexSnapshot, title, is_autoindex_visible, insert_visible, place_layer,
  project_layers, validate_standard_manifest, project_manifest, is_crud_manifest,
}
use github_oras_packages.Oci.Checks.{IsDescriptor, validate_descriptor_complete}
use github_oras_packages.Oci.Projected.{object_of}

abbrev IsVisible : Descriptor → Type 0
IsVisible d = is_autoindex_visible d ≡ true

-- A visible layer has a file path for its title, and is a valid descriptor.
abbrev pub IsLayer : Descriptor → Type 0
IsLayer d = IsVisible d → (path : Bytes) × (title d ≡ some path) × IsFilePath path × IsDescriptor d

abbrev pub AreLayersApart : Descriptor → Descriptor → Type 0
AreLayersApart d e =
    (p q : Bytes) → IsVisible d → IsVisible e → title d ≡ some p → title e ≡ some q → AreApart p q

-- Of two visible layers none lies at the path of the other, or below it.
abbrev pub ArePathsApart : List Descriptor → Type 0
ArePathsApart [] = Unit
ArePathsApart (d ∷ layers) = All (AreLayersApart d) layers × ArePathsApart layers

abbrev Fits : Index → Descriptor → Type 0
Fits index d =
    (p : Bytes) → IsVisible d → title d ≡ some p → All (λ e. AreApart p e.0) index.objects

insert_visible_complete :
    (d : Descriptor) (index : Index) (path : Bytes)
    → title d ≡ some path
    → IsFilePath path
    → IsDescriptor d
    → IsWellFormed index
    → All (λ e. AreApart path e.0) index.objects
    → insert_visible d index
      ≡ ok (record { objects = map_insert path (object_of path d) index.objects })
unfolding insert_visible ◌>>=◌
insert_visible_complete d index path t f v w apart =
    rw
      (
        t,
        validate_descriptor_complete d v,
        new_object_complete path d.digest d.media_type d.size f,
        insert_object_complete (object_of path d) index f w apart,
      )
      refl

-- The next layers fit what one insertion leaves.
Fits-next :
    (d : Descriptor) (index : Index) (path : Bytes) (layers : List Descriptor)
    → IsVisible d
    → title d ≡ some path
    → All (AreLayersApart d) layers
    → All (Fits index) layers
    → All (Fits (record { objects = map_insert path (object_of path d) index.objects })) layers
Fits-next d index path [] v t apart fits = tt
Fits-next d index path (e ∷ layers) v t apart fits = (
  λ p ve te.
      All-map_insert (λ x. AreApart p x.0) path (object_of path d) index.objects
        (AreApart-sym (apart.0 path p v ve t te)) (fits.0 p ve te),
  Fits-next d index path layers v t apart.1 fits.1,
)

project_layers_complete :
    (layers : List Descriptor) (index : Index)
    → All IsLayer layers
    → ArePathsApart layers
    → All (Fits index) layers
    → IsWellFormed index
    → (last : Index) × (project_layers layers index ≡ ok last)
unfolding project_layers place_layer ◌>>=◌
project_layers_complete [] index good apart fits w = (index, refl)
project_layers_complete (d ∷ layers) index good apart fits w =
    elim (Bool-cases (is_autoindex_visible d)) [
      | inl v ↦
          let (path, t, f, valid) = good.0 v in
          let inserted = insert_visible_complete d index path t f valid w (fits.0 path v t) in
          let next : Index = record {
            objects = map_insert path (object_of path d) index.objects;
          } in
          let w₁ = insert_step path f w (fits.0 path v t) in
          let (last, e) =
            project_layers_complete layers next good.1 apart.1
              (Fits-next d index path layers v t apart.0 fits.1) w₁ in
          (last, rw (v, inserted) e)
      | inr v ↦
          let (last, e) = project_layers_complete layers index good.1 apart.1 fits.1 w in
          (last, rw v e)
    ]
  where
    insert_step :
        (path : Bytes)
        → IsFilePath path
        → IsWellFormed index
        → All (λ e. AreApart path e.0) index.objects
        → IsWellFormed (record { objects = map_insert path (object_of path d) index.objects })
    insert_step path f w apart =
        (insert_object-IsWellFormed (object_of path d) index _ path f w
          (insert_object_complete (object_of path d) index f w apart)).0

Fits-empty : (layers : List Descriptor) → All (Fits empty_index) layers
Fits-empty [] = tt
Fits-empty (d ∷ layers) = (λ p v t. tt, Fits-empty layers)

-- A manifest of the right version and type with a valid configuration is projected if its visible
-- layers are valid, have file paths for titles, and lie apart from each other.
pub project_manifest_complete :
    (manifest : Manifest)
    → validate_standard_manifest manifest ≡ ok tt
    → All IsLayer manifest.layers
    → ArePathsApart manifest.layers
    → (snapshot : AutoindexSnapshot) × (project_manifest manifest ≡ ok snapshot)
      × (snapshot.crud_compatible ≡ is_crud_manifest manifest)
unfolding project_manifest ◌>>=◌
project_manifest_complete manifest standard good apart =
    let (index, e) =
      project_layers_complete manifest.layers empty_index good apart (Fits-empty manifest.layers)
        empty_index-IsWellFormed in
    (
      record { index = index; crud_compatible = is_crud_manifest manifest },
      rw (standard, e) refl,
      refl,
    )
