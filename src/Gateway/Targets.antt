-- ===== src/Gateway/Targets.antt =====
-- The paths that `parse_path` accepts, spelled from their targets.
use github_oras_packages.Base.{
  ℕ, ◌≤◌, ◌≡◌, ◌≢◌, ◌⊎◌, ◌↔◌, inl, inr, refl, ap, subst, ◌∙◌, true, false, ◌&&◌, ◌||◌, Option, none,
  some, [], ◌∷◌, ◌++◌, Bytes, bytes, ok, err, arith, ltb, ◌==◌, length, All, All-map, all_sound,
  all_complete, any, is_empty, is_ascii, is_ascii_control, elem, starts_with, strip_prefix,
  strip_prefix-append, append_of_strip_prefix, ends_with_byte, Lacks, split_once, split_once_sound,
  text_eq, text_eq_iff, text_eq-ne, ◌>>=◌, ok-inj, fail_if-eq-ok, ok_or->>=-eq-ok, if◌then◌else◌,
  Bool-cases, Option-cases,
}
use github_oras_packages.Gateway.{
  DistributionTarget, version, manifest, blob, blob_upload_start, blob_upload, invalid,
  is_reference_byte, valid_reference, is_upload_byte, valid_upload_id, is_digest_byte, valid_digest,
  parse_content, parse_session, parse_operation, parse_scoped, parse_path,
}

-- A tag or digest: 1 to 256 bytes, none but letters, digits, `.`, `_`, `-` and `:`, and no dot at
-- either end.
pub record IsReference (s : Bytes) : Type 0 where
  pub named : is_empty s ≡ false
  pub bounded : length s ≤ 256
  pub spelled : All (λ c. is_reference_byte c ≡ true) s
  pub no_dot_first : starts_with (bytes ".") s ≡ false
  pub no_dot_last : ends_with_byte b'.' s ≡ false

pub record IsUploadId (s : Bytes) : Type 0 where
  pub named : is_empty s ≡ false
  pub bounded : length s ≤ 512
  pub spelled : All (λ c. is_upload_byte c ≡ true) s
  pub not_dot : s ≢ bytes "."
  pub not_dot_dot : s ≢ bytes ".."

-- `sha256:` and 64 lower-case hexadecimal digits.
abbrev pub IsDigest : Bytes → Type 0
IsDigest s =
    (hex : Bytes) × (s ≡ bytes "sha256:" ++ hex)
    × (length hex ≡ 64)
    × All (λ c. is_digest_byte c ≡ true) hex

-- The operation of a target, behind the repository.
abbrev pub IsOperation : Bytes → Bytes → DistributionTarget → Type 0
IsOperation repository operation version = ⊥
IsOperation repository operation (manifest r reference) =
    (r ≡ repository) × (operation ≡ bytes "manifests/" ++ reference) × IsReference reference
IsOperation repository operation (blob r digest) =
    (r ≡ repository) × (operation ≡ bytes "blobs/" ++ digest) × IsDigest digest
IsOperation repository operation (blob_upload_start r) =
    (r ≡ repository) × ((operation ≡ bytes "blobs/uploads") ⊎ (operation ≡ bytes "blobs/uploads/"))
IsOperation repository operation (blob_upload r upload_id) =
    (r ≡ repository) × (operation ≡ bytes "blobs/uploads/" ++ upload_id) × IsUploadId upload_id

-- The paths that stand for a target in one repository.
abbrev pub IsSpelled : Bytes → Bytes → DistributionTarget → Type 0
IsSpelled path repository version = path ≡ bytes "/v2/"
IsSpelled path repository target =
    (operation : Bytes) × (path ≡ bytes "/v2/" ++ (repository ++ bytes "/" ++ operation))
    × IsOperation repository operation target

valid_reference_sound : (s : Bytes) → valid_reference s ≡ true → IsReference s
unfolding valid_reference
valid_reference_sound s h = record {
  named = ground arith;
  bounded = ground arith;
  spelled =
      all_sound (λ c. is_reference_byte c ≡ true) is_reference_byte (λ c e. e) s (ground arith);
  no_dot_first = ground arith;
  no_dot_last = ground arith;
}

valid_upload_id_sound : (s : Bytes) → valid_upload_id s ≡ true → IsUploadId s
unfolding valid_upload_id
valid_upload_id_sound s h = record {
  named = ground arith;
  bounded = ground arith;
  spelled = all_sound (λ c. is_upload_byte c ≡ true) is_upload_byte (λ c e. e) s (ground arith);
  not_dot = ground (arith, text_eq_iff s (bytes "."));
  not_dot_dot = ground (arith, text_eq_iff s (bytes ".."));
}

valid_digest_sound : (s : Bytes) → valid_digest s ≡ true → IsDigest s
unfolding valid_digest
valid_digest_sound s h = elim (Option-cases (strip_prefix (bytes "sha256:") s)) [
  | inl e ↦ absurd (let k = rw e at h in cc)
  | inr (hex, e) ↦
      let k = rw e at h in
      (
        hex,
        append_of_strip_prefix (bytes "sha256:") s e,
        ground (arith, k),
        all_sound (λ c. is_digest_byte c ≡ true) is_digest_byte (λ c e. e) hex (ground (arith, k)),
      )
]

of_kind : (s t value : Bytes) → text_eq s t ≡ true → s ++ b'/' ∷ value ≡ t ++ b'/' ∷ value
of_kind s t value h = ap (λ u. u ++ b'/' ∷ value) ((text_eq_iff s t).0 h)

module _ (repository : Bytes) where
  kind_sound :
      (operation kind value : Bytes) (target : DistributionTarget)
      → operation ≡ kind ++ b'/' ∷ value
      → (if text_eq kind (bytes "manifests") && valid_reference value
          then ok (manifest repository value)
          else if text_eq kind (bytes "blobs") && valid_digest value
          then ok (blob repository value)
          else err invalid)
        ≡ ok target
      → IsOperation repository operation target
  kind_sound operation kind value target cut h =
      elim (Bool-cases (text_eq kind (bytes "manifests") && valid_reference value)) [
        | inl a ↦ subst (IsOperation repository operation) (ok-inj (rw a at h)) (
          refl,
          cut ∙ of_kind kind (bytes "manifests") value (ground arith),
          valid_reference_sound value (ground arith),
        )
        | inr a ↦ elim (Bool-cases (text_eq kind (bytes "blobs") && valid_digest value)) [
          | inl b ↦ subst (IsOperation repository operation) (ok-inj (rw b at (rw a at h))) (
            refl,
            cut ∙ of_kind kind (bytes "blobs") value (ground arith),
            valid_digest_sound value (ground arith),
          )
          | inr b ↦ absurd (let k = rw b at (rw a at h) in cc)
        ]
      ]

  content_sound :
      (operation : Bytes) (target : DistributionTarget)
      → parse_content repository operation ≡ ok target
      → IsOperation repository operation target
  unfolding parse_content
  content_sound operation target h =
      let ((kind, value), cut, h₁) = ok_or->>=-eq-ok _ _ _ h in
      let (_, h₂) = fail_if-eq-ok _ _ _ h₁ in
      kind_sound operation kind value target
        (split_once_sound b'/' operation {a = kind} {b = value} cut).0 h₂

  session_sound :
      (operation : Bytes) (target : DistributionTarget) (found : Option Bytes)
      → strip_prefix (bytes "blobs/uploads/") operation ≡ found
      → parse_session repository operation found ≡ ok target
      → IsOperation repository operation target
  unfolding parse_session
  session_sound operation target none e h = content_sound operation target h
  session_sound operation target (some upload_id) e h =
      elim (Bool-cases (valid_upload_id upload_id)) [
        | inl a ↦ subst (IsOperation repository operation) (ok-inj (rw a at h)) (
          refl,
          append_of_strip_prefix (bytes "blobs/uploads/") operation e,
          valid_upload_id_sound upload_id a,
        )
        | inr a ↦ absurd (let k = rw a at h in cc)
      ]

  IsOperation-sound :
      (operation : Bytes) (target : DistributionTarget)
      → parse_operation repository operation ≡ ok target
      → IsOperation repository operation target
  unfolding parse_operation
  IsOperation-sound operation target h =
      let (_, h₁) = fail_if-eq-ok _ _ _ h in
      elim (Bool-cases
        (text_eq operation (bytes "blobs/uploads") || text_eq operation (bytes "blobs/uploads/"))) [
          | inl a ↦ subst (IsOperation repository operation) (ok-inj (rw a at h₁)) (
            refl,
            ground (
              arith,
              text_eq_iff operation (bytes "blobs/uploads"),
              text_eq_iff operation (bytes "blobs/uploads/"),
            ),
          )
          | inr a ↦
              session_sound operation target (strip_prefix (bytes "blobs/uploads/") operation) refl
                (rw a at h₁)
        ]

  spelled :
      (path operation : Bytes) (target : DistributionTarget)
      → path ≡ bytes "/v2/" ++ (repository ++ bytes "/" ++ operation)
      → IsOperation repository operation target
      → IsSpelled path repository target
  spelled path operation version e o = absurd o
  spelled path operation (manifest r s) e o = (operation, e, o)
  spelled path operation (blob r s) e o = (operation, e, o)
  spelled path operation (blob_upload_start r) e o = (operation, e, o)
  spelled path operation (blob_upload r s) e o = (operation, e, o)

  path_sound :
      (path : Bytes) (target : DistributionTarget)
      → parse_path path repository ≡ ok target
      → IsSpelled path repository target
  unfolding parse_path parse_scoped
  path_sound path target h = elim (Bool-cases (text_eq path (bytes "/v2/"))) [
    | inl a ↦
        subst (IsSpelled path repository) (ok-inj (rw a at h))
          ((text_eq_iff path (bytes "/v2/")).0 a)
    | inr a ↦
        let (remainder, b, h₁) = ok_or->>=-eq-ok _ _ _ (rw a at h) in
        let (_, h₂) = fail_if-eq-ok _ _ _ h₁ in
        let (operation, c, h₃) = ok_or->>=-eq-ok _ _ _ h₂ in
        spelled path operation target
          (append_of_strip_prefix (bytes "/v2/") path b
            ∙ ap (λ t. bytes "/v2/" ++ t)
                (append_of_strip_prefix (repository ++ bytes "/") remainder c))
          (IsOperation-sound operation target h₃)
  ]

reference_byte :
    (c : ℕ)
    → is_reference_byte c ≡ true
    → (ltb c 128 ≡ true)
      × (elem (bytes "?#%\\") c ≡ false)
      × ((c == b'/') ≡ false)
      × (is_ascii_control c ≡ false)
reference_byte c h = (ground arith, ground arith, ground arith, ground arith)

digest_byte : (c : ℕ) → is_digest_byte c ≡ true → is_reference_byte c ≡ true
digest_byte c h = ground arith

upload_byte : (c : ℕ) → is_upload_byte c ≡ true → is_reference_byte c ≡ true
upload_byte c h = ground arith

record IsPlain (s : Bytes) : Type 0 where
  ascii : is_ascii s ≡ true
  clean : any (elem (bytes "?#%\\")) s ≡ false
  lacks : Lacks b'/' s
  printed : any is_ascii_control s ≡ false

IsPlain-of : (s : Bytes) → All (λ c. is_reference_byte c ≡ true) s → IsPlain s
IsPlain-of [] h = record { ascii = refl; clean = refl; lacks = refl; printed = refl }
IsPlain-of (c ∷ s) h =
    let p = IsPlain-of s h.1 in
    let (a, b, d, e) = reference_byte c h.0 in
    record {
      ascii = ground (arith, a, p.ascii);
      clean = ground (arith, b, p.clean);
      lacks = ground (arith, d, p.lacks);
      printed = ground (arith, e, p.printed);
    }

valid_reference_complete : (s : Bytes) → IsReference s → valid_reference s ≡ true
unfolding valid_reference
valid_reference_complete s r = ground (
  arith,
  r.named,
  r.bounded,
  r.no_dot_first,
  r.no_dot_last,
  (IsPlain-of s r.spelled).ascii,
  all_complete (λ c. is_reference_byte c ≡ true) is_reference_byte (λ c e. e) s r.spelled,
)

IsPlain-upload : (s : Bytes) → IsUploadId s → IsPlain s
IsPlain-upload s r = IsPlain-of s (
    All-map (λ c. is_upload_byte c ≡ true) (λ c. is_reference_byte c ≡ true) upload_byte s
      r.spelled)

not_empty_scope : (s t : Bytes) → s ++ bytes "/" ++ t ≢ []
not_empty_scope [] t h = cc
not_empty_scope (c ∷ s) t h = cc

valid_upload_id_complete : (s : Bytes) → IsUploadId s → valid_upload_id s ≡ true
unfolding valid_upload_id
valid_upload_id_complete s r = ground (
  arith,
  r.named,
  r.bounded,
  r.not_dot,
  r.not_dot_dot,
  text_eq_iff s (bytes "."),
  text_eq_iff s (bytes ".."),
  (IsPlain-upload s r).ascii,
  all_complete (λ c. is_upload_byte c ≡ true) is_upload_byte (λ c e. e) s r.spelled,
)

valid_digest_complete : (s : Bytes) → IsDigest s → valid_digest s ≡ true
unfolding valid_digest
valid_digest_complete s (hex, e, l, a) =
    rw (e, strip_prefix-append (bytes "sha256:") hex)
      (ground
        (arith, l, all_complete (λ c. is_digest_byte c ≡ true) is_digest_byte (λ c e. e) hex a))

IsDigest-IsPlain : (s : Bytes) → IsDigest s → IsPlain s × (is_empty s ≡ false)
IsDigest-IsPlain s (hex, e, l, a) = rw e (
  IsPlain-of (bytes "sha256:" ++ hex) (
    refl,
    (
      refl,
      (
        refl,
        (
          refl,
          (
            refl,
            (
              refl,
              (
                refl,
                All-map (λ c. is_digest_byte c ≡ true) (λ c. is_reference_byte c ≡ true) digest_byte
                    hex a,
              ),
            ),
          ),
        ),
      ),
    ),
  ),
  refl,
)

module _ (repository : Bytes) where
  operation_complete :
      (operation : Bytes) (target : DistributionTarget)
      → IsOperation repository operation target
      → parse_operation repository operation ≡ ok target
  unfolding parse_operation parse_session parse_content text_eq strip_prefix split_once ◌>>=◌
  operation_complete operation version o = absurd o
  operation_complete operation (manifest r s) (same, e, i) =
      let p = IsPlain-of s i.spelled in
      rw (e, same)
        (ground (arith, p.clean, p.lacks, p.printed, i.named, valid_reference_complete s i))
  operation_complete operation (blob r s) (same, e, (hex, eh, l, a)) =
      let (p, n) = IsDigest-IsPlain (bytes "sha256:" ++ hex) (hex, refl, l, a) in
      let v = valid_digest_complete (bytes "sha256:" ++ hex) (hex, refl, l, a) in
      rw (e, same, eh) (ground (arith, p.clean, p.lacks, p.printed, n, v))
  operation_complete operation (blob_upload_start r) (same, inl e) = rw (e, same) refl
  operation_complete operation (blob_upload_start r) (same, inr e) = rw (e, same) refl
  operation_complete operation (blob_upload r s) (same, e, i) =
      let p = IsPlain-upload s i in
      rw (e, same)
        (ground (arith, p.clean, i.named, text_eq_iff s [], valid_upload_id_complete s i))

  length_append_slash : (s t : Bytes) → s ++ bytes "/" ++ t ≢ s
  length_append_slash [] t h = cc
  length_append_slash (c ∷ s) t h = length_append_slash s t (ground arith)

  scoped_complete :
      (operation : Bytes) (target : DistributionTarget)
      → parse_operation repository operation ≡ ok target
      → parse_path (bytes "/v2/" ++ (repository ++ bytes "/" ++ operation)) repository ≡ ok target
  unfolding parse_path parse_scoped text_eq ◌>>=◌
  scoped_complete operation target h = ground (
    arith,
    h,
    not_empty_scope repository operation,
    text_eq_iff (repository ++ bytes "/" ++ operation) [],
    strip_prefix-append (bytes "/v2/") (repository ++ bytes "/" ++ operation),
    text_eq-ne (repository ++ bytes "/" ++ operation) repository
        (length_append_slash repository operation),
    strip_prefix-append (repository ++ bytes "/") operation,
  )

  path_complete :
      (path : Bytes) (target : DistributionTarget)
      → IsSpelled path repository target
      → parse_path path repository ≡ ok target
  unfolding parse_path text_eq
  path_complete path version e = rw e refl
  path_complete path (manifest r s) (operation, e, o) =
      rw e
        (scoped_complete operation (manifest r s) (operation_complete operation (manifest r s) o))
  path_complete path (blob r s) (operation, e, o) =
      rw e (scoped_complete operation (blob r s) (operation_complete operation (blob r s) o))
  path_complete path (blob_upload_start r) (operation, e, o) = rw e (
      scoped_complete operation (blob_upload_start r)
        (operation_complete operation (blob_upload_start r) o))
  path_complete path (blob_upload r s) (operation, e, o) = rw e (
      scoped_complete operation (blob_upload r s)
        (operation_complete operation (blob_upload r s) o))

-- A path is read as a target of the configured repository exactly if it spells that target: `/v2/`
-- alone, or `/v2/`, the repository byte for byte and one of `manifests/` with a tag or digest,
-- `blobs/` with a sha256 digest, `blobs/uploads` with or without a slash, and `blobs/uploads/` with a
-- session. The target names the configured repository, and every reference, digest and session that
-- it holds is well formed.
pub parse_path_iff :
    (path repository : Bytes) (target : DistributionTarget)
    → (parse_path path repository ≡ ok target) ↔ IsSpelled path repository target
parse_path_iff path repository target =
    (path_sound repository path target, path_complete repository path target)
