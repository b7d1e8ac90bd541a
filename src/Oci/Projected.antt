-- ===== src/Oci/Projected.antt =====
-- What a manifest projects to: exactly its visible layers.
use mathlib.Core.List.{Memᴰ}
use github_oras_packages.Base.{
  ◌≡◌, ◌↔◌, ◌⊎◌, inl, inr, refl, sym, ap, subst, ◌∙◌, true, some, List, [], ◌∷◌, Bytes, ok, arith,
  text_eq, text_eq_iff, map_get, >>=-eq-ok, map_err-eq-ok, ok_or->>=-eq-ok, if◌then◌else◌,
  Bool-cases,
}
use github_oras_packages.Autoindex.{VisibleObject, Index, empty_index, insert_object, find_object}
use github_oras_packages.Autoindex.Paths.{IsFilePath, made, new_object_sound}
use github_oras_packages.Autoindex.Collisions.{
  IsWellFormed, empty_index-IsWellFormed, insert_object_sound, insert_object-IsWellFormed,
  map_get-none_of_apart,
}
use github_oras_packages.Oci.{
  Descriptor, Manifest, AutoindexSnapshot, title, is_autoindex_visible, insert_visible, place_layer,
  project_layers, project_manifest, snapshot_object,
}
use github_oras_packages.Oci.Checks.{IsDescriptor, validate_descriptor_sound}

abbrev pub object_of : Bytes → Descriptor → VisibleObject
object_of path d = made path d.digest d.media_type d.size

-- A layer that is served at a path, and the object that stands for it.
pub record Shows (d : Descriptor) (path : Bytes) (o : VisibleObject) : Type 0 where
  pub visible : is_autoindex_visible d ≡ true
  pub titled : title d ≡ some path
  pub object : o ≡ object_of path d
  pub filed : IsFilePath path
  pub valid : IsDescriptor d

-- One insertion, inverted.
record Inserted (d : Descriptor) (index next : Index) : Type 0 where
  name : Bytes
  titled : title d ≡ some name
  filed : IsFilePath name
  valid : IsDescriptor d
  inserted : insert_object (object_of name d) index ≡ ok next

insert_visible_sound :
    (d : Descriptor) (index next : Index) → insert_visible d index ≡ ok next → Inserted d index next
unfolding insert_visible
insert_visible_sound d index next h =
    let (name, t, h₁) = ok_or->>=-eq-ok _ _ _ h in
    let (u, v, h₂) = >>=-eq-ok _ _ h₁ in
    let (o, n, h₃) = >>=-eq-ok _ _ h₂ in
    let (f, e) = new_object_sound name d.digest d.media_type d.size o (map_err-eq-ok _ _ n) in
    record {
      name = name;
      titled = t;
      filed = f;
      valid = validate_descriptor_sound d v;
      inserted = rw (← e) (map_err-eq-ok _ _ h₃);
    }

abbrev At : Index → Bytes → VisibleObject → Type 0
At index path o = find_object index path ≡ some o

abbrev pub AmongLayers : List Descriptor → Bytes → VisibleObject → Type 0
AmongLayers layers path o = (d : Descriptor) × Memᴰ d layers × Shows d path o

module _ (d : Descriptor) (index next : Index) (w : IsWellFormed index) where
  Inserted-IsWellFormed :
      (i : Inserted d index next) (path : Bytes)
      → IsWellFormed next
        × (find_object next path
            ≡ (if text_eq i.name path then some (object_of i.name d) else find_object index path))
  Inserted-IsWellFormed i path =
      insert_object-IsWellFormed (object_of i.name d) index next path i.filed w i.inserted

  Inserted-new : (i : Inserted d index next) (o : VisibleObject) → At index i.name o → ⊥
  unfolding find_object
  Inserted-new i o at =
      let (apart, _) = insert_object_sound (object_of i.name d) index next i.filed w i.inserted in
      let none_there = map_get-none_of_apart i.name index.objects apart in
      let k = sym none_there ∙ at in cc

  At-next :
      (i : Inserted d index next) (v : is_autoindex_visible d ≡ true) (path : Bytes)
      (o : VisibleObject)
      → At next path o ↔ (At index path o ⊎ Shows d path o)
  At-next i v path o = elim (Bool-cases (text_eq i.name path)) [
    | inl e ↦
        let same : i.name ≡ path = (text_eq_iff i.name path).0 e in
        let found = rw e at ((Inserted-IsWellFormed i path).1) in
        (
          λ h. inr (record {
            visible = v;
            titled = i.titled ∙ ap some same;
            object = rw (← same) (ground (arith, h, found));
            filed = subst IsFilePath same i.filed;
            valid = i.valid;
          }),
          λ k. elim k [
            | inl a ↦ absurd (Inserted-new i o (rw same a))
            | inr s ↦ found ∙ ap some (rw same (sym s.object))
          ],
        )
    | inr e ↦
        let found = rw e at ((Inserted-IsWellFormed i path).1) in
        (
          λ h. inl (sym found ∙ h),
          λ k. elim k [
            | inl a ↦ found ∙ a
            | inr s ↦
                let t = sym i.titled ∙ s.titled in
                absurd (ground (arith, t, text_eq_iff i.name path, e))
          ],
        )
  ]

place_layer_sound :
    (d : Descriptor) (index next : Index) (path : Bytes) (o : VisibleObject)
    → IsWellFormed index
    → place_layer d index ≡ ok next
    → IsWellFormed next × (At next path o ↔ (At index path o ⊎ Shows d path o))
unfolding place_layer
place_layer_sound d index next path o w h = elim (Bool-cases (is_autoindex_visible d)) [
  | inl v ↦
      let i = insert_visible_sound d index next (rw v at h) in
      ((Inserted-IsWellFormed d index next w i path).0, At-next d index next w i v path o)
  | inr v ↦
      let same : next ≡ index = ground (arith, rw v at h) in
      rw same (w, (λ a. inl a, λ k. elim k [ inl a ↦ a | inr s ↦ let q = sym v ∙ s.visible in cc ]))
]

project_layers_sound :
    (layers : List Descriptor) (index last : Index) (path : Bytes) (o : VisibleObject)
    → IsWellFormed index
    → project_layers layers index ≡ ok last
    → IsWellFormed last × (At last path o ↔ (At index path o ⊎ AmongLayers layers path o))
unfolding project_layers
project_layers_sound [] index last path o w h =
    let same : last ≡ index = ground (arith, h) in
    rw same (w, (λ a. inl a, λ k. elim k [ inl a ↦ a | inr (d, m, s) ↦ absurd (not_in_nil d m) ]))
  where
    not_in_nil : (d : Descriptor) → Memᴰ d [] → ⊥
    not_in_nil d m = elim m [ ]
project_layers_sound (d ∷ layers) index last path o w h =
    let (next, placed, h₁) = >>=-eq-ok _ _ h in
    let (w₁, (f, g)) = place_layer_sound d index next path o w placed in
    let (w₂, (p, q)) = project_layers_sound layers next last path o w₁ h₁ in
    (
      w₂,
      (
        λ a. elim (p a) [
          | inl b ↦ elim (f b) [ inl c ↦ inl c | inr s ↦ inr (d, Memᴰ.head refl, s) ]
          | inr (e, m, s) ↦ inr (e, Memᴰ.tail m, s)
        ],
        λ k. elim k [
          | inl a ↦ q (inl (g (inl a)))
          | inr (e, Memᴰ.head same, s) ↦ q (inl (g (inr (subst (λ x. Shows x path o) same s))))
          | inr (e, Memᴰ.tail m, s) ↦ q (inr (e, m, s))
        ],
      ),
    )

nowhere : (path : Bytes) (o : VisibleObject) → At empty_index path o → ⊥
unfolding find_object map_get
nowhere path o b = cc

-- A manifest that is accepted projects to a well-formed index that serves an object at a path
-- exactly if a layer is marked visible, has that path as its title, a file path, is a valid
-- descriptor, and is what the object describes: a layer that is not marked is never served.
pub project_manifest-shows :
    (manifest : Manifest) (snapshot : AutoindexSnapshot) (path : Bytes) (o : VisibleObject)
    → project_manifest manifest ≡ ok snapshot
    → IsWellFormed snapshot.index
      × ((snapshot_object snapshot path ≡ some o) ↔ AmongLayers manifest.layers path o)
unfolding project_manifest snapshot_object
project_manifest-shows manifest snapshot path o h =
    let (u, v, h₁) = >>=-eq-ok _ _ h in
    let (index, p, h₂) = >>=-eq-ok _ _ h₁ in
    let same : snapshot.index ≡ index = ground (arith, h₂) in
    let (w, (f, g)) =
      project_layers_sound manifest.layers empty_index index path o empty_index-IsWellFormed p in
    rw same (w, (λ a. elim (f a) [ inl b ↦ absurd (nowhere path o b) | inr m ↦ m ], λ m. g (inr m)))
