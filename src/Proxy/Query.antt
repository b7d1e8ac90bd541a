-- ===== src/Proxy/Query.antt =====
-- `valid_distribution_query` of crates/github-oras-packages-proxy/src/proxy.rs.
use github_oras_packages.Base.{
  ℕ, ◌≡◌, ◌≢◌, ◌⊎◌, ◌↔◌, inl, inr, refl, sym, ap, subst, ◌∙◌, Bool, true, false, not, ◌&&◌, ◌||◌,
  Option, none, some, List, [], ◌∷◌, ◌++◌, Bytes, bytes, arith, All, length, all, any, ◌==◌,
  is_empty, is_ascii_control, is_ascii_hexdigit, is_ascii_uppercase, text_eq, text_eq_iff,
  strip_prefix, split, split-ne-nil, split-join, split-Lacks, join, join-split, Lacks,
  if◌then◌else◌, Bool-cases, Option-cases,
}
use github_oras_packages.Gateway.{
  DistributionTarget, version, manifest, blob, blob_upload_start, blob_upload,
}
use github_oras_packages.Oci.Locations.{either_seen}
use github_oras_packages.Queries.{
  Key, scan_parts, IsPart, scan_sound, scan-OnlyFirst, scan-OnlySecond, scan-Both,
}

abbrev or_else : Option Bytes → Option Bytes → Option Bytes
or_else none b = b
or_else (some a) b = some a

abbrev is_hex_64 : Option Bytes → Bool
is_hex_64 none = false
is_hex_64 (some hex) =
    length hex == 64 && all (λ c. is_ascii_hexdigit c && not (is_ascii_uppercase c)) hex

unfoldable pub valid_sha256_digest : Bytes → Bool
valid_sha256_digest value = is_hex_64 (
    or_else
      (or_else (strip_prefix (bytes "sha256:") value) (strip_prefix (bytes "sha256%3A") value))
      (strip_prefix (bytes "sha256%3a") value))

abbrev pub mount_key : Key
mount_key = record { name = bytes "mount"; admits = valid_sha256_digest }

abbrev pub from_key : Bytes → Key
from_key repository = record { name = bytes "from"; admits = λ value. text_eq value repository }

abbrev pub session_key : Key
session_key = record { name = bytes "_state"; admits = λ value. not (is_empty value) }

abbrev pub content_key : Key
content_key = record { name = bytes "digest"; admits = valid_sha256_digest }

-- `mount.is_some() && from.is_some()`
abbrev both_seen : Option (Bool × Bool) → Bool
both_seen none = false
both_seen (some (a, b)) = a && b

abbrev pub is_session_method : Bytes → Bool
is_session_method method =
    text_eq method (bytes "PATCH")
    || text_eq method (bytes "PUT")
    || text_eq method (bytes "DELETE")

-- The match on the target.
unfoldable pub query_for_target : DistributionTarget → Bytes → Bytes → Bytes → Bool
query_for_target (blob_upload_start r) method query repository =
    text_eq method (bytes "POST")
    && both_seen (scan_parts mount_key (from_key repository) false false (split b'&' query))
query_for_target (blob_upload r upload_id) method query repository =
    is_session_method method
    && either_seen (scan_parts session_key content_key false false (split b'&' query))
query_for_target version method query repository = false
query_for_target (manifest r reference) method query repository = false
query_for_target (blob r digest) method query repository = false

abbrev pub has_bad_query_byte : Bytes → Bool
has_bad_query_byte = any (λ c. is_ascii_control c || c == b'#')

unfoldable pub valid_distribution_query : DistributionTarget → Bytes → Option Bytes → Bytes → Bool
valid_distribution_query target method none repository = true
valid_distribution_query target method (some query) repository =
    if is_empty query || has_bad_query_byte query
    then false
    else query_for_target target method query repository

-- A query whose parts, between the `&`, give each of the two keys one value.
abbrev pub HasBoth : Key → Key → Bytes → Type 0
HasBoth first second query =
    (p : Bytes) × ((q : Bytes) × (IsPart first p
        × (IsPart second q × ((split b'&' query ≡ p ∷ q ∷ []) ⊎ (split b'&' query ≡ q ∷ p ∷ [])))))

-- A query that gives one key its value and nothing else.
abbrev pub HasOnly : Key → Bytes → Type 0
HasOnly key query = IsPart key query × Lacks b'&' query

-- The queries that each target admits.
abbrev pub IsQueryFor : DistributionTarget → Bytes → Bytes → Bytes → Type 0
IsQueryFor (blob_upload_start r) method repository query =
    (method ≡ bytes "POST") × HasBoth mount_key (from_key repository) query
IsQueryFor (blob_upload r upload_id) method repository query =
    (is_session_method method ≡ true)
    × (HasOnly session_key query
        ⊎ (HasOnly content_key query ⊎ HasBoth session_key content_key query))
IsQueryFor version method repository query = ⊥
IsQueryFor (manifest r reference) method repository query = ⊥
IsQueryFor (blob r digest) method repository query = ⊥

split_one : (p query : Bytes) → split b'&' query ≡ p ∷ [] → (query ≡ p) × Lacks b'&' query
split_one p query e =
    let same : query ≡ p = sym (join-split b'&' query) ∙ ap (join b'&') e ∙ unfold_join p in
    let lacks : All (Lacks b'&') (p ∷ []) = subst (All (Lacks b'&')) e (split-Lacks b'&' query) in
    (same, subst (Lacks b'&') (sym same) lacks.0)
  where
    unfold_join : (p : Bytes) → join b'&' (p ∷ []) ≡ p
    unfold_join p = unfold join in refl

pub ne_of_text_eq : (s t : Bytes) → text_eq s t ≡ false → s ≢ t
ne_of_text_eq s t h e = ground (arith, text_eq_iff s t, h, e)

mount_ne_from : bytes "mount" ≢ bytes "from"
unfolding text_eq
mount_ne_from = ne_of_text_eq (bytes "mount") (bytes "from") refl

state_ne_digest : bytes "_state" ≢ bytes "digest"
unfolding text_eq
state_ne_digest = ne_of_text_eq (bytes "_state") (bytes "digest") refl

module _ (repository query : Bytes) where
  abbrev parts : List Bytes
  parts = split b'&' query

  mount_sound :
      both_seen (scan_parts mount_key (from_key repository) false false parts) ≡ true
      → HasBoth mount_key (from_key repository) query
  mount_sound h =
      elim (Option-cases (scan_parts mount_key (from_key repository) false false parts)) [
        | inl e ↦ absurd (let k = rw e at h in cc)
        | inr (found, e) ↦
            let k : both_seen (some found) ≡ true = rw e at h in
            elim (scan_sound mount_key (from_key repository) refl refl mount_ne_from parts found
              e) [
                | inl (_, f) ↦ absurd (let n = rw f at k in cc)
                | inr (inl (_, f)) ↦ absurd (let n = rw f at k in cc)
                | inr (inr (inl (_, f))) ↦ absurd (let n = rw f at k in cc)
                | inr (inr (inr (b, _))) ↦ b
              ]
      ]

  mount_complete :
      HasBoth mount_key (from_key repository) query
      → both_seen (scan_parts mount_key (from_key repository) false false parts) ≡ true
  mount_complete b =
      ap both_seen (scan-Both mount_key (from_key repository) refl refl mount_ne_from parts b)

  abbrev session_seen : Option (Bool × Bool)
  session_seen = scan_parts session_key content_key false false parts

  session_sound :
      either_seen session_seen ≡ true
      → HasOnly session_key query
        ⊎ (HasOnly content_key query ⊎ HasBoth session_key content_key query)
  session_sound h = elim (Option-cases session_seen) [
    | inl e ↦ absurd (let k = rw e at h in cc)
    | inr (found, e) ↦
        let k : either_seen (some found) ≡ true = rw e at h in
        elim (scan_sound session_key content_key refl refl state_ne_digest parts found e) [
          | inl (_, f) ↦ absurd (let n = rw f at k in cc)
          | inr (inl ((p, (i, s)), _)) ↦
              let (same, lacks) = split_one p query s in
              inl (subst (IsPart session_key) (sym same) i, lacks)
          | inr (inr (inl ((p, (i, s)), _))) ↦
              let (same, lacks) = split_one p query s in
              inr (inl (subst (IsPart content_key) (sym same) i, lacks))
          | inr (inr (inr (b, _))) ↦ inr (inr b)
        ]
  ]

  alone : Lacks b'&' query → parts ≡ query ∷ []
  alone l = github_oras_packages.Base.split_of_Lacks b'&' query l

  session_complete :
      HasOnly session_key query
        ⊎ (HasOnly content_key query ⊎ HasBoth session_key content_key query)
      → either_seen session_seen ≡ true
  session_complete (inl (i, l)) =
      ap either_seen (
        scan-OnlyFirst session_key content_key refl refl state_ne_digest parts
          (query, (i, alone l)))
  session_complete (inr (inl (i, l))) = ap either_seen (
      scan-OnlySecond session_key content_key refl refl state_ne_digest parts (query, (i, alone l)))
  session_complete (inr (inr b)) =
      ap either_seen (scan-Both session_key content_key refl refl state_ne_digest parts b)

query_for_target_sound :
    (target : DistributionTarget) (method query repository : Bytes)
    → query_for_target target method query repository ≡ true
    → IsQueryFor target method repository query
unfolding query_for_target
query_for_target_sound version method query repository h = cc
query_for_target_sound (manifest r reference) method query repository h = cc
query_for_target_sound (blob r digest) method query repository h = cc
query_for_target_sound (blob_upload_start r) method query repository h = (
  (text_eq_iff method (bytes "POST")).0 (ground arith),
  mount_sound repository query (ground arith),
)
query_for_target_sound (blob_upload r upload_id) method query repository h =
    (ground arith, session_sound repository query (ground arith))

query_for_target_complete :
    (target : DistributionTarget) (method query repository : Bytes)
    → IsQueryFor target method repository query
    → query_for_target target method query repository ≡ true
unfolding query_for_target
query_for_target_complete version method query repository h = absurd h
query_for_target_complete (manifest r reference) method query repository h = absurd h
query_for_target_complete (blob r digest) method query repository h = absurd h
query_for_target_complete (blob_upload_start r) method query repository (m, b) =
    ground (arith, (text_eq_iff method (bytes "POST")).1 m, mount_complete repository query b)
query_for_target_complete (blob_upload r upload_id) method query repository (m, b) =
    ground (arith, m, session_complete repository query b)

-- A query is admitted exactly if it is not empty, holds no control byte and no `#`, and fits the
-- target and the method: a POST that starts an upload has exactly one `mount` with a digest and exactly
-- one `from` with the configured repository, in either order; a PATCH, PUT or DELETE of a session has
-- one non-empty `_state`, one `digest`, or both, in either order; every other request has none.
pub valid_distribution_query_iff :
    (target : DistributionTarget) (method query repository : Bytes)
    → (valid_distribution_query target method (some query) repository ≡ true) ↔ (
        (is_empty query ≡ false)
        × ((has_bad_query_byte query ≡ false) × IsQueryFor target method repository query))
unfolding valid_distribution_query
valid_distribution_query_iff target method query repository = (
  λ h. (
    ground (arith, h),
    (ground (arith, h), query_for_target_sound target method query repository (ground (arith, h))),
  ),
  λ (a, (b, c)). ground (arith, a, b, query_for_target_complete target method query repository c),
)
